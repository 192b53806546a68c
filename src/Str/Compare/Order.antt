-- ===== src/Str/Compare/Order.antt =====
-- The comparisons against the order of the texts themselves.
use c_lite.Base.{
  ℕ, zero, suc, ◌+◌, ◌<◌, ◌≡◌, ◌↔◌, ◌⊎◌, refl, List, [], ◌∷◌, some, true, arith, ◌==◌,
  if◌then◌else◌, length, take,
}
use c_lite.Base.Int.{ℤ, pos, sub_ℕ, is_neg}
use c_lite.Ctype.{tolower, tolower-ne-zero, tolower-zero}
use c_lite.Memory.{Addr, Mem, IsCString, NoNul, IsCString-NoNul}
use c_lite.Str.Compare.{strcmp, strncmp_loop, strncmp, strcasecmp, strncasecmp_loop, strncasecmp}

-- The difference of the first two codes, under `f`, that differ; the end of a text reads as NUL.
unfoldable pub text_compare : (ℕ → ℕ) → List ℕ → List ℕ → ℤ
text_compare f [] [] = pos 0
text_compare f [] (y ∷ ys) = sub_ℕ (f 0) (f y)
text_compare f (x ∷ xs) [] = sub_ℕ (f x) (f 0)
text_compare f (x ∷ xs) (y ∷ ys) =
    let rest = text_compare f xs ys in if f x == f y then rest else sub_ℕ (f x) (f y)

-- The order of a dictionary.
abbrev pub Precedes : List ℕ → List ℕ → Type 0
Precedes xs [] = ⊥
Precedes [] (y ∷ ys) = Unit
Precedes (x ∷ xs) (y ∷ ys) = (x < y) ⊎ ((x ≡ y) × Precedes xs ys)

abbrev pub same : ℕ → ℕ
same c = c

-- strcmp is the difference of the first two bytes that differ.
pub strcmp-text_compare :
    (xs ys : List ℕ) (fuel : ℕ) (m : Mem) (a b : Addr)
    → IsCString m a xs
    → IsCString m b ys
    → length xs < fuel
    → strcmp fuel m a b ≡ some (text_compare same xs ys)
unfolding strcmp text_compare
strcmp-text_compare xs ys zero m a b sa sb h = absurd (omega arith)
strcmp-text_compare [] [] (suc k) m a b sa sb h = ground arith
strcmp-text_compare [] (y ∷ ys) (suc k) m a b sa (hb, nb, sb) h = ground arith
strcmp-text_compare (x ∷ xs) [] (suc k) m a b (ha, na, sa) sb h = ground arith
strcmp-text_compare (x ∷ xs) (y ∷ ys) (suc k) m a b (ha, na, sa) (hb, nb, sb) h =
    ground (arith, strcmp-text_compare xs ys k m (a + 1) (b + 1) sa sb (omega arith))

strncmp_loop-text_compare :
    (n i : ℕ) (xs ys : List ℕ) (m : Mem) (a b p q : Addr)
    → p ≡ a + i
    → q ≡ b + i
    → IsCString m p xs
    → IsCString m q ys
    → strncmp_loop n i m a b ≡ text_compare same (take n xs) (take n ys)
unfolding strncmp_loop text_compare
strncmp_loop-text_compare zero i xs ys m a b p q ep eq sa sb = refl
strncmp_loop-text_compare (suc n) i [] [] m a b p q ep eq sa sb = rw (← ep, ← eq) (ground arith)
strncmp_loop-text_compare (suc n) i [] (y ∷ ys) m a b p q ep eq sa (hb, nb, sb) =
    rw (← ep, ← eq) (ground arith)
strncmp_loop-text_compare (suc n) i (x ∷ xs) [] m a b p q ep eq (ha, na, sa) sb =
    rw (← ep, ← eq) (ground arith)
strncmp_loop-text_compare (suc n) i (x ∷ xs) (y ∷ ys) m a b p q ep eq (ha, na, sa) (hb, nb, sb) =
    rw (← ep, ← eq)
      (ground (
        arith,
        strncmp_loop-text_compare n (i + 1) xs ys m a b (p + 1) (q + 1) (omega arith) (omega arith)
            sa sb,
      ))

-- strncmp compares the first `n` bytes of the two texts as strcmp compares the whole texts.
pub strncmp-text_compare :
    (n : ℕ) (xs ys : List ℕ) (m : Mem) (a b : Addr)
    → IsCString m a xs
    → IsCString m b ys
    → strncmp m a b n ≡ text_compare same (take n xs) (take n ys)
unfolding strncmp
strncmp-text_compare n xs ys m a b =
    strncmp_loop-text_compare n 0 xs ys m a b a b (omega arith) (omega arith)

-- strcasecmp compares the texts in lower case.
pub strcasecmp-text_compare :
    (xs ys : List ℕ) (fuel : ℕ) (m : Mem) (a b : Addr)
    → IsCString m a xs
    → IsCString m b ys
    → length xs < fuel
    → strcasecmp fuel m a b ≡ some (text_compare tolower xs ys)
unfolding strcasecmp text_compare
strcasecmp-text_compare xs ys zero m a b sa sb h = absurd (omega arith)
strcasecmp-text_compare [] [] (suc k) m a b sa sb h = ground arith
strcasecmp-text_compare [] (y ∷ ys) (suc k) m a b sa (hb, nb, sb) h = ground arith
strcasecmp-text_compare (x ∷ xs) [] (suc k) m a b (ha, na, sa) sb h =
    ground (arith, tolower-ne-zero x na, tolower-zero)
strcasecmp-text_compare (x ∷ xs) (y ∷ ys) (suc k) m a b (ha, na, sa) (hb, nb, sb) h =
    ground (arith, strcasecmp-text_compare xs ys k m (a + 1) (b + 1) sa sb (omega arith))

-- text_compare is 0 exactly for equal texts.
text_compare-zero :
    (xs ys : List ℕ) → NoNul xs → NoNul ys → (text_compare same xs ys ≡ pos 0) ↔ (xs ≡ ys)
unfolding text_compare
text_compare-zero [] [] nx ny = (λ _. refl, λ _. refl)
text_compare-zero [] (y ∷ ys) nx ny = (λ h. ground arith, λ h. cc)
text_compare-zero (x ∷ xs) [] nx ny = (λ h. ground arith, λ h. cc)
text_compare-zero (x ∷ xs) (y ∷ ys) nx ny =
    let ih = text_compare-zero xs ys nx.1 ny.1 in (λ h. ground (arith, ih), λ h. ground (arith, ih))

text_compare-Precedes :
    (xs ys : List ℕ)
    → NoNul xs
    → NoNul ys
    → (is_neg (text_compare same xs ys) ≡ true) ↔ Precedes xs ys
unfolding text_compare
text_compare-Precedes [] [] nx ny = (λ h. cc, λ h. absurd h)
text_compare-Precedes [] (y ∷ ys) nx ny = (λ _. tt, λ _. ground arith)
text_compare-Precedes (x ∷ xs) [] nx ny = (λ h. ground arith, λ h. absurd h)
text_compare-Precedes (x ∷ xs) (y ∷ ys) nx ny =
    let ih = text_compare-Precedes xs ys nx.1 ny.1 in
    (λ h. ground (arith, ih), λ h. ground (arith, ih))

-- For two NUL-terminated strings and more fuel than the first has bytes, strcmp ends. It returns 0 exactly
-- for equal texts, and a negative number exactly where the first text stands before the second in the
-- dictionary order.
pub strcmp-order :
    (xs ys : List ℕ) (fuel : ℕ) (m : Mem) (a b : Addr)
    → IsCString m a xs
    → IsCString m b ys
    → length xs < fuel
    → (r : ℤ) × (strcmp fuel m a b ≡ some r)
      × ((r ≡ pos 0) ↔ (xs ≡ ys))
      × ((is_neg r ≡ true) ↔ Precedes xs ys)
strcmp-order xs ys fuel m a b sa sb h =
    let nx = IsCString-NoNul m a xs sa in
    let ny = IsCString-NoNul m b ys sb in
    (
      text_compare same xs ys,
      strcmp-text_compare xs ys fuel m a b sa sb h,
      text_compare-zero xs ys nx ny,
      text_compare-Precedes xs ys nx ny,
    )

strncasecmp_loop-text_compare :
    (n i : ℕ) (xs ys : List ℕ) (m : Mem) (a b p q : Addr)
    → p ≡ a + i
    → q ≡ b + i
    → IsCString m p xs
    → IsCString m q ys
    → strncasecmp_loop n i m a b ≡ text_compare tolower (take n xs) (take n ys)
unfolding strncasecmp_loop text_compare
strncasecmp_loop-text_compare zero i xs ys m a b p q ep eq sa sb = refl
strncasecmp_loop-text_compare (suc n) i [] [] m a b p q ep eq sa sb = rw (← ep, ← eq) (ground arith)
strncasecmp_loop-text_compare (suc n) i [] (y ∷ ys) m a b p q ep eq sa (hb, nb, sb) =
    rw (← ep, ← eq) (ground (arith, tolower-ne-zero y nb, tolower-zero))
strncasecmp_loop-text_compare (suc n) i (x ∷ xs) [] m a b p q ep eq (ha, na, sa) sb =
    rw (← ep, ← eq) (ground (arith, tolower-ne-zero x na, tolower-zero))
strncasecmp_loop-text_compare (suc n) i (x ∷ xs) (y ∷ ys) m a b p q ep eq (ha, na, sa)
      (hb, nb, sb) =
    rw (← ep, ← eq)
      (ground (
        arith,
        strncasecmp_loop-text_compare n (i + 1) xs ys m a b (p + 1) (q + 1) (omega arith)
            (omega arith) sa sb,
      ))

-- strncasecmp compares the first `n` bytes of the two texts in lower case.
pub strncasecmp-text_compare :
    (n : ℕ) (xs ys : List ℕ) (m : Mem) (a b : Addr)
    → IsCString m a xs
    → IsCString m b ys
    → strncasecmp m a b n ≡ text_compare tolower (take n xs) (take n ys)
unfolding strncasecmp
strncasecmp-text_compare n xs ys m a b =
    strncasecmp_loop-text_compare n 0 xs ys m a b a b (omega arith) (omega arith)
