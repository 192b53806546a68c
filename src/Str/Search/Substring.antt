-- ===== src/Str/Search/Substring.antt =====
-- strstr and strcasestr: the first place where the needle stands.
use mathlib.Core.Path.{subst}
use c_lite.Base.{
  fun_ext, ℕ, zero, suc, ◌+◌, ◌<◌, ◌≡◌, ◌↔◌, refl, sym, ap, inl, inr, true, [], ◌∷◌, some, arith,
  eq→==, ne→==, ◌==◌, Bool-cases, length, take, drop, map,
}
use c_lite.Base.Int.{pos, is_zero, is_zero→eq, is_zero→ne}
use c_lite.Ctype.{tolower, tolower-ne-zero, tolower-zero}
use c_lite.Memory.{Addr, null, Mem, IsCString, NoNul, IsCString-NoNul}
use c_lite.Text.{Bytes, is_prefix}
use c_lite.Str.Block.Search.{IsFirst, IsFirst-next}
use c_lite.Str.Compare.{strncasecmp}
use c_lite.Str.Compare.Order.{text_compare, strncasecmp-text_compare}
use c_lite.Str.Copy.Copies.{strlen-length}
use c_lite.Str.Search.{match_loop, strstr_loop, strstr, strcasestr_loop, strcasestr}

-- The inner loop stops at the needle's end exactly where the needle is a prefix.
match_loop-is_prefix :
    (xs ys : Bytes) (k : ℕ) (m : Mem) (h n : Addr)
    → IsCString m h xs
    → IsCString m n ys
    → length xs < k
    → (e : Addr) × (match_loop k m h n ≡ some e) × ((m e == 0) ≡ is_prefix ys xs)
unfolding match_loop is_prefix
match_loop-is_prefix xs ys zero m h n sx sy fuel = absurd (omega arith)
match_loop-is_prefix [] [] (suc k) m h n sx sy fuel = (n, ground arith, ground arith)
match_loop-is_prefix [] (y ∷ ys) (suc k) m h n sx (hy, ny, sy) fuel =
    (n, ground arith, ground arith)
match_loop-is_prefix (x ∷ xs) [] (suc k) m h n (hx, nx, sx) sy fuel =
    (n, ground arith, ground arith)
match_loop-is_prefix (x ∷ xs) (y ∷ ys) (suc k) m h n (hx, nx, sx) (hy, ny, sy) fuel =
    elim (Bool-cases (x == y)) [
      | inl hit ↦
          let (e, run, test) = match_loop-is_prefix xs ys k m (h + 1) (n + 1) sx sy (omega arith) in
          (e, ground arith, ground arith)
      | inr miss ↦ (n, ground arith, ground arith)
    ]

-- The needle stands at the place `j` of the text.
abbrev pub Occurs : Bytes → Bytes → ℕ → Type 0
Occurs ys xs j = is_prefix ys (drop j xs) ≡ true

abbrev pub OccursFold : Bytes → Bytes → ℕ → Type 0
OccursFold ys xs j = is_prefix (map tolower ys) (map tolower (drop j xs)) ≡ true

-- A text is searched at its first place, and then from its next byte on.
module _ (P : Bytes → ℕ → Type 0)
    (shift : (x : ℕ) (xs : Bytes) (j : ℕ) → P (x ∷ xs) (suc j) ≡ P xs j) where
  First-hit :
      (x : ℕ) (xs : Bytes) (h : Addr)
      → P (x ∷ xs) 0
      → IsFirst (P (x ∷ xs)) 0 (length (x ∷ xs) + 1) h h
  First-hit x xs h here = inr (0, omega arith, omega arith, omega arith, here, λ j a b. elim b [ ])

  First-miss :
      (x : ℕ) (xs : Bytes) (h r : Addr)
      → ¬ P (x ∷ xs) 0
      → IsFirst (P xs) 0 (length xs + 1) (h + 1) r
      → IsFirst (P (x ∷ xs)) 0 (length (x ∷ xs) + 1) h r
  First-miss x xs h r miss found =
      let e : length (x ∷ xs) + 1 ≡ suc (length xs + 1) = omega arith in
      rw e (
        IsFirst-next (P (x ∷ xs)) h (length xs + 1) r miss (
          subst (λ Q. IsFirst Q 0 (length xs + 1) (h + 1) r) (fun_ext λ j. sym (shift x xs j))
            found))

  First-none : (h : Addr) → ¬ P [] 0 → IsFirst (P []) 0 (0 + 1) h null
  First-none h miss = inl (refl, elim [ zero ↦ λ a b. miss | suc j ↦ λ a b. absurd (omega arith) ])

is_prefix-head : (x y : ℕ) (xs ys : Bytes) → is_prefix (y ∷ ys) (x ∷ xs) ≡ true → x ≡ y
unfolding is_prefix
is_prefix-head x y xs ys h = ground arith

strstr_loop-IsFirst :
    (xs : Bytes) (y : ℕ) (ys : Bytes) (fuel k : ℕ) (m : Mem) (h n : Addr)
    → IsCString m h xs
    → IsCString m n (y ∷ ys)
    → length xs < fuel
    → length xs < k
    → (r : Addr) × (strstr_loop fuel k m h n ≡ some r)
      × IsFirst (Occurs (y ∷ ys) xs) 0 (length xs + 1) h r
unfolding strstr_loop
strstr_loop-IsFirst xs y ys fuel zero m h n sx sy hf hk = absurd (omega arith)
strstr_loop-IsFirst [] y ys fuel (suc k) m h n sx sy hf hk = (
  null,
  rw (eq→== (m h) 0 sx),
  First-none (Occurs (y ∷ ys)) (λ x xs j. refl) h (unfold is_prefix in λ e. cc),
)
strstr_loop-IsFirst (x ∷ xs) y ys fuel (suc k) m h n (hx, nx, sx) (hy, ny, sy) hf hk =
    let (r, run, found) =
      strstr_loop-IsFirst xs y ys fuel k m (h + 1) n sx (hy, ny, sy) (omega arith) (omega arith) in
    let (e, inner, test) =
      match_loop-is_prefix (x ∷ xs) (y ∷ ys) fuel m h n (hx, nx, sx) (hy, ny, sy) hf in
    elim (Bool-cases (is_prefix (y ∷ ys) (x ∷ xs))) [
      | inl hit ↦ (
        h,
        rw (ne→== (m h) 0 (omega arith), eq→== (m h) (m n) (same_head hit), inner, test, hit),
        First-hit (Occurs (y ∷ ys)) (λ x xs j. refl) x xs h hit,
      )
      | inr miss ↦ (
        r,
        rw (ne→== (m h) 0 (omega arith), inner, test, miss, run) (ground arith),
        First-miss (Occurs (y ∷ ys)) (λ x xs j. refl) x xs h r (λ e. cc) found,
      )
    ]
  where
    same_head : is_prefix (y ∷ ys) (x ∷ xs) ≡ true → m h ≡ m n
    same_head hit = ground (arith, is_prefix-head x y xs ys hit)

-- For two NUL-terminated strings and more fuel than the haystack has bytes, strstr ends. It returns the
-- first place of the haystack where the needle stands, and null where there is none.
pub strstr-IsFirst :
    (xs ys : Bytes) (fuel : ℕ) (m : Mem) (h n : Addr)
    → IsCString m h xs
    → IsCString m n ys
    → length xs < fuel
    → (r : Addr) × (strstr fuel m h n ≡ some r) × IsFirst (Occurs ys xs) 0 (length xs + 1) h r
unfolding strstr
strstr-IsFirst xs [] fuel m h n sx sy hf = (
  h,
  rw (eq→== (m n) 0 sy),
  inr (0, omega arith, omega arith, omega arith, unfold is_prefix in refl, λ j a b. elim b [ ]),
)
strstr-IsFirst xs (y ∷ ys) fuel m h n sx (hy, ny, sy) hf =
    rw (ne→== (m n) 0 (omega arith))
      (strstr_loop-IsFirst xs y ys fuel fuel m h n sx (hy, ny, sy) hf hf)

-- The test of strcasestr at one place.
fold_zero :
    (xs ys : Bytes)
    → NoNul ys
    → (text_compare tolower (take (length ys) xs) (take (length ys) ys) ≡ pos 0)
      ↔ (is_prefix (map tolower ys) (map tolower xs) ≡ true)
unfolding text_compare is_prefix
fold_zero xs [] ny = (λ _. refl, λ _. refl)
fold_zero [] (y ∷ ys) ny = (λ h. ground (arith, tolower-zero, tolower-ne-zero y ny.0), λ h. cc)
fold_zero (x ∷ xs) (y ∷ ys) ny =
    let ih = fold_zero xs ys ny.1 in (λ h. ground (arith, ih), λ h. ground (arith, ih))

take-length : (ys : Bytes) → take (length ys) ys ≡ ys
take-length [] = refl
take-length (y ∷ ys) = ap (λ t. y ∷ t) (take-length ys)

strcasestr_loop-IsFirst :
    (xs : Bytes) (y : ℕ) (ys : Bytes) (k : ℕ) (m : Mem) (h n : Addr)
    → IsCString m h xs
    → IsCString m n (y ∷ ys)
    → length xs < k
    → (r : Addr) × (strcasestr_loop k m h n (length (y ∷ ys)) ≡ some r)
      × IsFirst (OccursFold (y ∷ ys) xs) 0 (length xs + 1) h r
unfolding strcasestr_loop
strcasestr_loop-IsFirst xs y ys zero m h n sx sy hk = absurd (omega arith)
strcasestr_loop-IsFirst [] y ys (suc k) m h n sx sy hk = (
  null,
  rw (eq→== (m h) 0 sx),
  First-none (OccursFold (y ∷ ys)) (λ x xs j. refl) h (unfold is_prefix in λ e. cc),
)
strcasestr_loop-IsFirst (x ∷ xs) y ys (suc k) m h n (hx, nx, sx) sy hk =
    let (r, run, found) = strcasestr_loop-IsFirst xs y ys k m (h + 1) n sx sy (omega arith) in
    elim (Bool-cases (is_zero (strncasecmp m h n (length (y ∷ ys))))) [
      | inl hit ↦ (
        h,
        rw (ne→== (m h) 0 (omega arith), hit),
        First-hit (OccursFold (y ∷ ys)) (λ x xs j. refl) x xs h (test.0 (is_zero→eq _ hit)),
      )
      | inr miss ↦ (
        r,
        rw (ne→== (m h) 0 (omega arith), miss) run,
        First-miss (OccursFold (y ∷ ys)) (λ x xs j. refl) x xs h r
            (λ e. is_zero→ne _ miss (test.1 e)) found,
      )
    ]
  where
    test :
        (strncasecmp m h n (length (y ∷ ys)) ≡ pos 0)
        ↔ (is_prefix (map tolower (y ∷ ys)) (map tolower (x ∷ xs)) ≡ true)
    test =
        rw (strncasecmp-text_compare (length (y ∷ ys)) (x ∷ xs) (y ∷ ys) m h n (hx, nx, sx) sy)
          (fold_zero (x ∷ xs) (y ∷ ys) (IsCString-NoNul m n (y ∷ ys) sy))

-- For two NUL-terminated strings and more fuel than each has bytes, strcasestr ends. It returns the first
-- place of the haystack where the needle stands when both are read in lower case, and null where
-- there is none.
pub strcasestr-IsFirst :
    (xs ys : Bytes) (fuel : ℕ) (m : Mem) (h n : Addr)
    → IsCString m h xs
    → IsCString m n ys
    → length xs < fuel
    → length ys < fuel
    → (r : Addr) × (strcasestr fuel m h n ≡ some r)
      × IsFirst (OccursFold ys xs) 0 (length xs + 1) h r
unfolding strcasestr
strcasestr-IsFirst xs [] fuel m h n sx sy hf hg = (
  h,
  rw (eq→== (m n) 0 sy),
  inr (0, omega arith, omega arith, omega arith, unfold is_prefix in refl, λ j a b. elim b [ ]),
)
strcasestr-IsFirst xs (y ∷ ys) fuel m h n sx (hy, ny, sy) hf hg =
    rw (ne→== (m n) 0 (omega arith), strlen-length (y ∷ ys) fuel m n (hy, ny, sy) hg)
      (strcasestr_loop-IsFirst xs y ys fuel m h n sx (hy, ny, sy) hf)
