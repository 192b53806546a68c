-- ===== src/Compat/Paths/Split.antt =====
-- dirname and basename take a path apart at its last slash.
use c_lite.Base.{
  ℕ, zero, suc, ◌+◌, ◌-◌, ◌≤◌, ◌<◌, ◌≡◌, refl, ap, ◌∙◌, inl, inr, Bool, true, false, ◌&&◌, [], ◌∷◌,
  ◌++◌, some, leb, ◌==◌, ne→==, ==→eq, ==→ne, if◌then◌else◌, length, length-append, take, drop,
  get_or, Bool-cases, arith,
}
use c_lite.Text.{Bytes, has}
use c_lite.Compat.Paths.{strip, start_of, directory, dir_of, base_of, dirname, base, basename}

get_or-append :
    (xs ys : Bytes) (n : ℕ) → length xs ≤ n → get_or (xs ++ ys) n 0 ≡ get_or ys (n - length xs) 0
get_or-append [] ys n h = ap (λ i. get_or ys i 0) (omega arith)
get_or-append (x ∷ xs) ys zero h = absurd (omega arith)
get_or-append (x ∷ xs) ys (suc n) h =
    let less : n - length xs ≡ suc n - suc (length xs) = omega arith in
    get_or-append xs ys n (omega arith) ∙ ap (λ i. get_or ys i 0) less

get_or-ne :
    (c : ℕ) (xs : Bytes) (i : ℕ) → has c xs ≡ false → i < length xs → (get_or xs i 0 == c) ≡ false
unfolding has
get_or-ne c [] i no_c h = absurd (omega arith)
get_or-ne c (x ∷ xs) zero no_c h = ground arith
get_or-ne c (x ∷ xs) (suc i) no_c h = get_or-ne c xs i (ground arith) (omega arith)

take-append : (xs ys : Bytes) → take (length xs) (xs ++ ys) ≡ xs
take-append [] ys = refl
take-append (x ∷ xs) ys = ap (λ r. x ∷ r) (take-append xs ys)

take-all : (xs : Bytes) (n : ℕ) → length xs ≤ n → take n xs ≡ xs
take-all [] zero h = refl
take-all [] (suc n) h = refl
take-all (x ∷ xs) zero h = absurd (omega arith)
take-all (x ∷ xs) (suc n) h = ap (λ r. x ∷ r) (take-all xs n (omega arith))

drop-append : (xs ys : Bytes) (c : ℕ) → drop (suc (length xs)) (xs ++ c ∷ ys) ≡ ys
drop-append [] ys c = refl
drop-append (x ∷ xs) ys c = drop-append xs ys c

no_shorter : (m n : ℕ) (c : Bool) → (if c && false then m else n) ≡ n
no_shorter m n true = refl
no_shorter m n false = refl

base-short : (b : Bytes) → 0 < length b → length b ≤ 1023 → base b ≡ b
unfolding base
base-short [] h fit = absurd (omega arith)
base-short (x ∷ b) h fit = take-all (x ∷ b) 1023 fit

module _ (d b : Bytes) (no_slash : has b'/' b ≡ false) where
  abbrev path : Bytes
  path = d ++ b'/' ∷ b

  length-path : length path ≡ suc (length d) + length b
  length-path = omega (arith, length-append d (b'/' ∷ b))

  at_slash : get_or path (length d) 0 ≡ b'/'
  at_slash =
      let here : length d - length d ≡ 0 = omega arith in
      get_or-append d (b'/' ∷ b) (length d) (omega arith) ∙ ap (λ i. get_or (b'/' ∷ b) i 0) here

  -- The bytes behind the slash are those of b, of which none is a slash.
  behind :
      (n : ℕ)
      → suc (length d) ≤ n
      → n < suc (length d) + length b
      → (get_or path n 0 == b'/') ≡ false
  behind n low high =
      let place : n - length d ≡ suc (n - suc (length d)) = omega arith in
      let byte : get_or path n 0 ≡ get_or b (n - suc (length d)) 0 =
        get_or-append d (b'/' ∷ b) n (omega arith) ∙ ap (λ i. get_or (b'/' ∷ b) i 0) place in
      ap (λ x. x == b'/') byte ∙ get_or-ne b'/' b (n - suc (length d)) no_slash (omega arith)

  start_of-slash :
      (n : ℕ)
      → suc (length d) ≤ n
      → n ≤ suc (length d) + length b
      → start_of n path ≡ suc (length d)
  unfolding start_of
  start_of-slash zero low high = absurd (omega arith)
  start_of-slash (suc n) low high = elim (Bool-cases (n == length d)) [
    | inl same ↦
        let e : n ≡ length d = ==→eq n (length d) same in
        let slash : (get_or path n 0 == b'/') ≡ true =
          ap (λ i. get_or path i 0 == b'/') e ∙ ap (λ x. x == b'/') at_slash in
        rw slash (ap suc e)
    | inr later ↦
        let more : suc (length d) ≤ n = omega (arith, ==→ne n (length d) later) in
        rw (behind n more (omega arith)) (start_of-slash n more (omega arith))
  ]

  strip-path : 0 < length b → strip (length path) path ≡ length path
  unfolding strip
  strip-path some_byte =
      let last : length path ≡ suc (length d + length b) = omega (arith, length-path) in
      rw (last, behind (length d + length b) (omega arith) (omega arith))
        (no_shorter _ _ (leb 1 (length d + length b)))

  rest-path : drop (suc (length d)) path ≡ b
  rest-path = drop-append d b b'/'

  directory-path : 0 < length d → directory path (suc (length d)) ≡ d
  unfolding directory
  directory-path more =
      let less : suc (length d) - 1 ≡ length d = omega arith in
      rw (ne→== (suc (length d)) 0 (omega arith), ne→== (suc (length d)) 1 (omega arith), less)
        (take-append d (b'/' ∷ b))

  dir_of-path : 0 < length d → 0 < length b → dir_of path ≡ d
  unfolding dir_of
  dir_of-path some_dir some_byte =
      rw
        (
          strip-path some_byte,
          take-all path (length path) (omega arith),
          start_of-slash (length path) (omega (arith, length-path)) (omega (arith, length-path)),
        )
        (directory-path some_dir)

  base_of-path : 0 < length b → length b ≤ 1023 → base_of path ≡ b
  unfolding base_of
  base_of-path some_byte fit =
      rw
        (
          strip-path some_byte,
          take-all path (length path) (omega arith),
          start_of-slash (length path) (omega (arith, length-path)) (omega (arith, length-path)),
          rest-path,
        )
        (base-short b some_byte fit)

-- A path of at most 1023 bytes that is a directory of at least one byte, a slash, and a name of at
-- least one byte without a slash: dirname returns the directory and basename returns the name.
pub dirname-basename :
    (c : ℕ) (d b : Bytes)
    → has b'/' b ≡ false
    → 0 < length b
    → length (c ∷ d) + suc (length b) ≤ 1023
    → (dirname (some ((c ∷ d) ++ b'/' ∷ b)) ≡ c ∷ d) × (basename (some ((c ∷ d) ++ b'/' ∷ b)) ≡ b)
unfolding dirname basename
dirname-basename c d b no_slash some_byte fit = (
  ap dir_of (take-all ((c ∷ d) ++ b'/' ∷ b) 1023 (omega (arith, length-path (c ∷ d) b no_slash)))
      ∙ dir_of-path (c ∷ d) b no_slash (omega arith) some_byte,
  base_of-path (c ∷ d) b no_slash some_byte (omega arith),
)
