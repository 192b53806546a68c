-- ===== src/Str/Search/Span.antt =====
-- strspn, strcspn and strpbrk.
use c_lite.Base.{
  ℕ, zero, suc, ◌+◌, ◌<◌, ◌≡◌, ◌≢◌, ap, ◌∙◌, not, [], ◌∷◌, some, arith, ne→==, ◌==◌, if◌then◌else◌,
  length,
}
use c_lite.Memory.{Addr, null, Mem, IsCString, IsByteMem}
use c_lite.Text.{Bytes, has, span_length}
use c_lite.Str.Search.{strspn_loop, strspn, strcspn_loop, strcspn, strpbrk_loop, strpbrk}
use c_lite.Str.Search.Find.{strchr-has}

-- The text `chars` at `q` is the set of bytes that the three functions look up.
-- The bytes before a stop.
abbrev pub count_in : Bytes → Bytes → ℕ
count_in chars xs = span_length (λ x. has x chars) xs

abbrev pub count_out : Bytes → Bytes → ℕ
count_out chars xs = span_length (λ x. not (has x chars)) xs

module _ (chars : Bytes) (fuel : ℕ) (m : Mem) (q : Addr) (bytes : IsByteMem m)
    (set : IsCString m q chars) (enough : length chars < fuel) (ne_null : q ≢ null) where
  strspn_loop-count_in :
      (xs : Bytes) (k : ℕ) (s : Addr) (count : ℕ)
      → IsCString m s xs
      → length xs < k
      → strspn_loop fuel k m s q count ≡ some (count + count_in chars xs)
  unfolding strspn_loop span_length
  strspn_loop-count_in xs zero s count str h = absurd (omega arith)
  strspn_loop-count_in [] (suc k) s count str h = ground arith
  strspn_loop-count_in (x ∷ xs) (suc k) s count (here, ne, str) h =
      let (p, found, test) =
        strchr-has chars fuel m q (m s) set enough ne_null (bytes s) (omega arith) in
      rw (ne→== (m s) 0 (omega arith), found, test, here)
        (ground (arith, strspn_loop-count_in xs k (s + 1) (count + 1) str (omega arith)))

  -- strspn counts the leading bytes that are in the set.
  pub strspn-count_in :
      (xs : Bytes) (s : Addr)
      → IsCString m s xs
      → length xs < fuel
      → strspn fuel m s q ≡ some (count_in chars xs)
  unfolding strspn
  strspn-count_in xs s str h = strspn_loop-count_in xs fuel s 0 str h ∙ ap some (omega arith)

  strcspn_loop-count_out :
      (xs : Bytes) (k : ℕ) (s : Addr) (count : ℕ)
      → IsCString m s xs
      → length xs < k
      → strcspn_loop fuel k m s q count ≡ some (count + count_out chars xs)
  unfolding strcspn_loop span_length
  strcspn_loop-count_out xs zero s count str h = absurd (omega arith)
  strcspn_loop-count_out [] (suc k) s count str h = ground arith
  strcspn_loop-count_out (x ∷ xs) (suc k) s count (here, ne, str) h =
      let (p, found, test) =
        strchr-has chars fuel m q (m s) set enough ne_null (bytes s) (omega arith) in
      rw (ne→== (m s) 0 (omega arith), found, test, here)
        (ground (arith, strcspn_loop-count_out xs k (s + 1) (count + 1) str (omega arith)))

  -- strcspn counts the leading bytes that are not in the set.
  pub strcspn-count_out :
      (xs : Bytes) (s : Addr)
      → IsCString m s xs
      → length xs < fuel
      → strcspn fuel m s q ≡ some (count_out chars xs)
  unfolding strcspn
  strcspn-count_out xs s str h = strcspn_loop-count_out xs fuel s 0 str h ∙ ap some (omega arith)

  strpbrk_loop-count_out :
      (xs : Bytes) (k : ℕ) (s : Addr)
      → IsCString m s xs
      → length xs < k
      → strpbrk_loop fuel k m s q
        ≡ some (if count_out chars xs == length xs then null else s + count_out chars xs)
  unfolding strpbrk_loop span_length
  strpbrk_loop-count_out xs zero s str h = absurd (omega arith)
  strpbrk_loop-count_out [] (suc k) s str h = ground arith
  strpbrk_loop-count_out (x ∷ xs) (suc k) s (here, ne, str) h =
      let (p, found, test) =
        strchr-has chars fuel m q (m s) set enough ne_null (bytes s) (omega arith) in
      rw (ne→== (m s) 0 (omega arith), found, test, here)
        (ground (arith, strpbrk_loop-count_out xs k (s + 1) str (omega arith)))

  -- strpbrk returns the address of the first byte that is in the set, null where there is none.
  pub strpbrk-count_out :
      (xs : Bytes) (s : Addr)
      → IsCString m s xs
      → length xs < fuel
      → strpbrk fuel m s q
        ≡ some (if count_out chars xs == length xs then null else s + count_out chars xs)
  unfolding strpbrk
  strpbrk-count_out xs s str h = strpbrk_loop-count_out xs fuel s str h
