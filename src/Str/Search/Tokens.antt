-- ===== src/Str/Search/Tokens.antt =====
-- strsep, strtok and strtok_r: the tokens and what is left.
use mathlib.Core.Path.{subst}
use c_lite.Base.{
  ℕ, zero, suc, ◌+◌, ◌≤◌, ◌<◌, ◌≡◌, ◌≢◌, refl, sym, ap, ◌∙◌, ◌⊎◌, inl, inr, true, not, [], ◌∷◌,
  some, arith, ==→ne, ==→eq, eq→==, ne→==, ◌==◌, if◌then◌else◌, Bool-cases, length, take, drop,
  length-drop,
}
use c_lite.Memory.{
  Addr, null, Mem, write, write_same, write_other, IsCString, IsCString-frame, IsCString-end,
  IsCString-ne, IsByteMem,
}
use c_lite.Text.{Bytes, has, span_length, span_length-le}
use c_lite.Str.Search.{Token, token, strsep, strtok, strtok_r, token_from}
use c_lite.Str.Search.Span.{
  count_in, count_out, strspn-count_in, strcspn-count_out, strpbrk-count_out,
}

-- Behind its first `n` bytes a string is the string of the rest.
IsCString-drop :
    (n : ℕ) (m : Mem) (s p : Addr) (xs : Bytes)
    → p ≡ s + n
    → n ≤ length xs
    → IsCString m s xs
    → IsCString m p (drop n xs)
IsCString-drop zero m s p xs e h str =
    let e' : s ≡ p = omega arith in subst (λ a. IsCString m a xs) e' str
IsCString-drop (suc n) m s p [] e h str = absurd (omega arith)
IsCString-drop (suc n) m s p (x ∷ xs) e h (_, _, str) =
    IsCString-drop n m (s + 1) p xs (omega arith) (omega arith) str

-- A NUL written over the byte `n` cuts the string in two.
IsCString-cut :
    (n : ℕ) (m : Mem) (s p : Addr) (xs : Bytes)
    → p ≡ s + n
    → n < length xs
    → IsCString m s xs
    → IsCString (write m p 0) s (take n xs) × IsCString (write m p 0) (p + 1) (drop (suc n) xs)
IsCString-cut n m s p [] e h str = absurd (omega arith)
IsCString-cut zero m s p (x ∷ xs) e h (here, ne, str) = (
  at_p,
  IsCString-frame m (write m p 0) (p + 1) xs (λ q lo hi. write_other m p 0 q (omega arith))
      (subst (λ a. IsCString m (a + 1) xs) e' str),
)
  where
    e' : s ≡ p
    e' = omega arith

    at_p : write m p 0 s ≡ 0
    at_p = ap (write m p 0) e' ∙ write_same m p 0
IsCString-cut (suc n) m s p (x ∷ xs) e h (here, ne, str) =
    let (front, back) = IsCString-cut n m (s + 1) p xs (omega arith) (omega arith) str in
    ((write_other m p 0 s (omega arith) ∙ here, ne, front), back)

take-length : (xs : Bytes) → take (length xs) xs ≡ xs
take-length [] = refl
take-length (x ∷ xs) = ap (λ t. x ∷ t) (take-length xs)

-- The token at `start` is the text up to the first delimiter, and the saved pointer leads to the
-- text behind that delimiter; it is null where there is no delimiter.
abbrev pub Field : Bytes → Addr → Bytes → Token → Type 0
Field chars start xs t =
    (t.start ≡ start)
    × IsCString t.mem start (take (count_out chars xs) xs)
    × (((count_out chars xs ≡ length xs) × (t.saved ≡ null))
        ⊎ ((count_out chars xs < length xs)
            × IsCString t.mem t.saved (drop (suc (count_out chars xs)) xs)))

last_Field :
    (chars : Bytes) (m : Mem) (s : Addr) (xs : Bytes)
    → IsCString m s xs
    → count_out chars xs ≡ length xs
    → Field chars s xs (token s m null)
last_Field chars m s xs str e =
    (refl, rw e (subst (IsCString m s) (sym (take-length xs)) str), inl (e, refl))

cut_Field :
    (chars : Bytes) (m : Mem) (s : Addr) (xs : Bytes)
    → IsCString m s xs
    → count_out chars xs < length xs
    → Field chars s xs (token s (write m (s + count_out chars xs) 0) (s + count_out chars xs + 1))
cut_Field chars m s xs str h =
    let (front, back) =
      IsCString-cut (count_out chars xs) m s (s + count_out chars xs) xs refl h str in
    (refl, front, inr (h, back))

-- Where strtok_r begins: at the text that is given, or at the saved pointer.
start_at :
    (str saveptr s : Addr)
    → ((str ≡ s) ⊎ ((str ≡ null) × (saveptr ≡ s)))
    → s ≢ null
    → (if str == null then saveptr else str) ≡ s
start_at str saveptr s (inl e) ns = rw (e, ne→== s 0 ns) refl
start_at str saveptr s (inr (e, f)) ns = rw e f

module _ (chars : Bytes) (fuel : ℕ) (m : Mem) (q : Addr) (bytes : IsByteMem m)
    (set : IsCString m q chars) (enough : length chars < fuel) (ne_null : q ≢ null) where
  -- strsep returns the text up to the first delimiter, which may be empty, and saves what follows
  -- the delimiter.
  pub strsep-Field :
      (xs : Bytes) (s : Addr)
      → IsCString m s xs
      → length xs < fuel
      → s ≢ null
      → (t : Token) × (strsep fuel m s q ≡ some t) × Field chars s xs t
  unfolding strsep
  strsep-Field xs s str h ns = elim (Bool-cases (count_out chars xs == length xs)) [
    | inl none_left ↦ (
      token s m null,
      rw (
        ne→== s 0 ns,
        strpbrk-count_out chars fuel m q bytes set enough ne_null xs s str h,
        none_left,
      ),
      last_Field chars m s xs str (==→eq _ _ none_left),
    )
    | inr more ↦ (
      token s (write m (s + count_out chars xs) 0) (s + count_out chars xs + 1),
      rw (
        ne→== s 0 ns,
        strpbrk-count_out chars fuel m q bytes set enough ne_null xs s str h,
        more,
        ne→== (s + count_out chars xs) 0 (omega arith),
      ),
      cut_Field chars m s xs str
          (omega (arith, ==→ne _ _ more, span_length-le (λ x. not (has x chars)) xs)),
    )
  ]

  token_from-Field :
      (ys : Bytes) (s : Addr)
      → IsCString m s ys
      → length ys < fuel
      → (t : Token) × (token_from fuel m s q ≡ some t)
        × (((length ys ≡ 0) × (t ≡ token null m null)) ⊎ ((0 < length ys) × Field chars s ys t))
  unfolding token_from
  token_from-Field [] s str h = (token null m null, rw (eq→== (m s) 0 str), inl (refl, refl))
  token_from-Field (y ∷ ys) s (here, ne, str) h =
      let n = count_out chars (y ∷ ys) in
      let few = span_length-le (λ x. not (has x chars)) (y ∷ ys) in
      let run =
        strcspn-count_out chars fuel m q bytes set enough ne_null (y ∷ ys) s (here, ne, str) h in
      elim (Bool-cases (n == length (y ∷ ys))) [
        | inl none_left ↦
            let e : n ≡ length (y ∷ ys) = ==→eq _ _ none_left in
            (
              token s m null,
              rw (
                ne→== (m s) 0 (omega arith),
                run,
                eq→== (m (s + n)) 0
                    (IsCString-end m s (s + n) (y ∷ ys) (omega arith) (here, ne, str)),
              ),
              inr (omega arith, last_Field chars m s (y ∷ ys) (here, ne, str) e),
            )
        | inr more ↦
            let lt : n < length (y ∷ ys) = omega (arith, ==→ne _ _ more, few) in
            (
              token s (write m (s + n) 0) (s + n + 1),
              rw (
                ne→== (m s) 0 (omega arith),
                run,
                ne→== (m (s + n)) 0 (IsCString-ne m s (s + n) n (y ∷ ys) refl lt (here, ne, str)),
              ),
              inr (omega arith, cut_Field chars m s (y ∷ ys) (here, ne, str) lt),
            )
      ]

  -- A call of strtok_r with a text, or one with a null pointer that goes on with the text at the saved
  -- pointer, in a memory of bytes, where that text and the set are NUL-terminated and not null, and the
  -- fuel exceeds both lengths. The call skips the leading delimiters. What is left gives the token up to the next
  -- delimiter, and the saved pointer then leads behind that one, or is null where there is none.
  -- Where nothing is left, the token and the saved pointer are null.
  pub strtok_r-Field :
      (xs : Bytes) (s str saveptr : Addr)
      → ((str ≡ s) ⊎ ((str ≡ null) × (saveptr ≡ s)))
      → IsCString m s xs
      → length xs < fuel
      → s ≢ null
      → (t : Token) × (strtok_r fuel m str q saveptr ≡ some t)
        × (((count_in chars xs ≡ length xs) × (t ≡ token null m null))
            ⊎ ((count_in chars xs < length xs)
                × Field chars (s + count_in chars xs) (drop (count_in chars xs) xs) t))
  unfolding strtok_r
  strtok_r-Field xs s str saveptr from text h ns =
      let n = count_in chars xs in
      let few = span_length-le (λ x. has x chars) xs in
      let part = IsCString-drop n m s (s + n) xs refl few text in
      let (t, run, got) =
        token_from-Field (drop n xs) (s + n) part (omega (arith, length-drop n xs)) in
      (
        t,
        rw
            (
              start_at str saveptr s from ns,
              ne→== s 0 ns,
              strspn-count_in chars fuel m q bytes set enough ne_null xs s text h,
            )
            run,
        elim got [
          | inl (e, f) ↦ inl (omega (arith, length-drop n xs), f)
          | inr (e, f) ↦ inr (omega (arith, length-drop n xs), f)
        ],
      )

  -- strtok hands the text to strsep, so leading delimiters are not skipped: for a NUL-terminated text
  -- that is given, not null, and begins with a delimiter, the token is the empty string at its start.
  -- The memory holds bytes, the set is a NUL-terminated string at an address that is not null, and
  -- the fuel exceeds both lengths.
  pub strtok_empty_token :
      (x : ℕ) (xs : Bytes) (s saved : Addr)
      → IsCString m s (x ∷ xs)
      → length (x ∷ xs) < fuel
      → s ≢ null
      → has x chars ≡ true
      → (t : Token) × (strtok fuel m s q saved ≡ some t) × (t.start ≡ s) × IsCString t.mem s []
  unfolding strtok span_length
  strtok_empty_token x xs s saved str h ns delim =
      let (t, run, (at_s, front, _)) = strsep-Field (x ∷ xs) s str h ns in
      (t, rw (ne→== s 0 ns) run, at_s, rw delim at front)
