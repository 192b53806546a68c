-- ===== src/Str/Search/Find.antt =====
-- strchr, strchrnul and strrchr.
use c_lite.Base.{
  ℕ, zero, suc, ◌+◌, ◌<◌, ◌≡◌, ◌≢◌, refl, ap, ◌∙◌, inl, inr, not, [], ◌∷◌, ◌++◌, Option, none, some,
  arith, ==→ne, ==→eq, eq→==, ne→==, ◌==◌, if◌then◌else◌, sym, Bool-cases, length,
}
use c_lite.Memory.{Addr, null, Mem, place, IsCString}
use c_lite.Text.{Bytes, has, next, index_of, span_length}
use c_lite.Str.Block.{byte}
use c_lite.Str.Block.Search.{IsLast, IsLast-miss}
use c_lite.Str.Search.{strchr, strchrnul, strrchr_loop, strrchr}

place-next : (s : Addr) (o : Option ℕ) → place (s + 1) o ≡ place s (next o)
place-next s none = refl
place-next s (some i) = omega arith

-- strchr returns the address of the first byte `(char)c` of the string, its NUL included, and null
-- where there is none.
pub strchr-index_of :
    (xs : Bytes) (fuel : ℕ) (m : Mem) (s : Addr) (c : ℕ)
    → IsCString m s xs
    → length xs < fuel
    → strchr fuel m s c ≡ some (place s (index_of (byte c) (xs ++ 0 ∷ [])))
unfolding strchr index_of
strchr-index_of xs zero m s c str h = absurd (omega arith)
strchr-index_of [] (suc k) m s c str h = ground arith
strchr-index_of (x ∷ xs) (suc k) m s c (here, ne, str) h = ground (
  arith,
  strchr-index_of xs k m (s + 1) c str (omega arith),
  place-next s (index_of (byte c) (xs ++ 0 ∷ [])),
)

-- As a test, strchr says whether the string has the byte.
pub strchr-has :
    (xs : Bytes) (fuel : ℕ) (m : Mem) (s : Addr) (c : ℕ)
    → IsCString m s xs
    → length xs < fuel
    → s ≢ null
    → c < 256
    → c ≢ 0
    → (p : Addr) × (strchr fuel m s c ≡ some p) × ((p == null) ≡ not (has c xs))
unfolding strchr has
strchr-has xs zero m s c str h ns small nc = absurd (omega arith)
strchr-has [] (suc k) m s c str h ns small nc = (null, ground arith, refl)
strchr-has (x ∷ xs) (suc k) m s c (here, ne, str) h ns small nc = elim (Bool-cases (x == c)) [
  | inl hit ↦ (s, ground arith, ground arith)
  | inr miss ↦
      let (p, e, t) = strchr-has xs k m (s + 1) c str (omega arith) (omega arith) small nc in
      (p, ground arith, ground arith)
]

-- strchrnul returns the address of the first such byte, and that of the NUL where there is none.
pub strchrnul-span_length :
    (xs : Bytes) (fuel : ℕ) (m : Mem) (s : Addr) (c : ℕ)
    → IsCString m s xs
    → length xs < fuel
    → strchrnul fuel m s c ≡ some (s + span_length (λ x. not (x == byte c)) xs)
unfolding strchrnul span_length
strchrnul-span_length xs zero m s c str h = absurd (omega arith)
strchrnul-span_length [] (suc k) m s c str h = ground arith
strchrnul-span_length (x ∷ xs) (suc k) m s c (here, ne, str) h =
    ground (arith, strchrnul-span_length xs k m (s + 1) c str (omega arith))

found_step :
    (m : Mem) (s p : Addr) (c i last : ℕ)
    → p ≡ s + i
    → IsLast (λ j. m (s + j) ≡ byte c) i s last
    → IsLast (λ j. m (s + j) ≡ byte c) (suc i) s (if m p == byte c then p else last)
found_step m s p c i last e found = elim (Bool-cases (m p == byte c)) [
  | inl hit ↦
      rw hit (inr (i, omega arith, e, ap m (sym e) ∙ ==→eq _ _ hit, λ j a b. absurd (omega arith)))
  | inr miss ↦ rw miss (IsLast-miss _ s i last (λ here. ==→ne _ _ miss (ap m e ∙ here)) found)
]

-- The last place found so far, with the first `i` bytes of the string read.
strrchr_loop-IsLast :
    (xs : Bytes) (k i hi : ℕ) (m : Mem) (s p : Addr) (c last : ℕ)
    → p ≡ s + i
    → hi ≡ i + length xs + 1
    → IsCString m p xs
    → length xs < k
    → IsLast (λ j. m (s + j) ≡ byte c) i s last
    → (r : Addr) × (strrchr_loop k m p c last ≡ some r) × IsLast (λ j. m (s + j) ≡ byte c) hi s r
unfolding strrchr_loop
strrchr_loop-IsLast xs zero i hi m s p c last e eh str fuel found = absurd (omega arith)
strrchr_loop-IsLast [] (suc k) i hi m s p c last e eh str fuel found =
    let all : hi ≡ suc i = omega arith in
    (
      if m p == byte c then p else last,
      rw (eq→== (m p) 0 str),
      rw all (found_step m s p c i last e found),
    )
strrchr_loop-IsLast (x ∷ xs) (suc k) i hi m s p c last e eh (here, ne, str) fuel found =
    rw (ne→== (m p) 0 (omega arith)) (
      strrchr_loop-IsLast xs k (suc i) hi m s (p + 1) c _ (omega arith) (omega arith) str
        (omega arith) (found_step m s p c i last e found))

-- strrchr returns the address of the last byte `(char)c` of the string, its NUL included, and null
-- where there is none.
pub strrchr-IsLast :
    (xs : Bytes) (fuel : ℕ) (m : Mem) (s : Addr) (c : ℕ)
    → IsCString m s xs
    → length xs < fuel
    → (r : Addr) × (strrchr fuel m s c ≡ some r)
      × IsLast (λ j. m (s + j) ≡ byte c) (length xs + 1) s r
unfolding strrchr
strrchr-IsLast xs fuel m s c str h =
    strrchr_loop-IsLast xs fuel 0 (length xs + 1) m s s c null (omega arith) (omega arith) str h
      (inl (refl, λ j a. elim a [ ]))
