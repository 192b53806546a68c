-- ===== src/Stdlib/Number.antt =====
-- strtol, strtoul, strtoll, strtoull, atoi, atol and itoa of src/stdlib.c on the bytes of a string.
-- An `int` or a `long` is its 32-bit word, a `long long` its 64-bit word. Where signed arithmetic
-- overflows in the C code the word wraps round.
pub mod RoundTrip
use c_lite.Base.{
  ℕ, zero, suc, ◌+◌, ◌-◌, ◌*◌, ◌/◌, ◌%◌, ◌^◌, ◌≡◌, Bool, true, false, ◌&&◌, ◌||◌, List, [], ◌∷◌,
  Option, none, some, leb, ltb, ◌==◌, if◌then◌else◌, length,
}
use c_lite.Text.{Bytes, first, rest_of}

-- The word of -v.
abbrev pub negate : ℕ → ℕ
negate v = (2 ^ 32 - v) % 2 ^ 32

abbrev pub is_negative : ℕ → Bool
is_negative w = leb (2 ^ 31) w

abbrev pub is_blank : ℕ → Bool
is_blank c = c == 32 || c == 9 || c == 10 || c == 13 || c == 12 || c == 11

unfoldable pub skip_blanks : Bytes → Bytes
skip_blanks [] = []
skip_blanks (c ∷ cs) = if is_blank c then skip_blanks cs else c ∷ cs

-- The value of a digit or letter.
unfoldable pub digit_of : ℕ → Option ℕ
digit_of c =
    if leb b'0' c && leb c b'9'
    then some (c - b'0')
    else if leb b'a' c && leb c b'z'
    then some (c - b'a' + 10)
    else if leb b'A' c && leb c b'Z'
    then some (c - b'A' + 10)
    else none

-- One step of the loop: `none` is the break.
unfoldable pub digit_step : ℕ → ℕ → ℕ → Option ℕ
unfolding digit_of
digit_step base val c = in_base (digit_of c)
  where
    in_base : Option ℕ → Option ℕ
    in_base none = none
    in_base (some d) = if leb base d then none else some ((val * base + d) % 2 ^ 32)

-- The loop over the digits: the value and what follows them.
unfoldable pub digits_loop : ℕ → ℕ → Bytes → ℕ × Bytes
unfolding digit_step
digits_loop base val [] = (val, [])
digits_loop base val (c ∷ cs) = elim (digit_step base val c) [
  | none ↦ (val, c ∷ cs)
  | some v ↦ digits_loop base v cs
]

-- Whether the text is negative, and what follows the sign.
unfoldable pub sign : Bytes → Bool × Bytes
sign s =
    if first s == b'-'
    then (true, rest_of s)
    else if first s == b'+'
    then (false, rest_of s)
    else (false, s)

-- The base and where the digits begin.
unfoldable pub prefix : ℕ → Bytes → ℕ × Bytes
prefix base s =
    if (base == 0 || base == 16)
      && first s == b'0'
      && (first (rest_of s) == b'x' || first (rest_of s) == b'X')
    then (16, rest_of (rest_of s))
    else if base == 0
    then (if first s == b'0' then 8 else 10, s)
    else (base, s)

-- `long` as a word, and `*endptr` as the rest of the text from there on.
unfoldable pub strtol : Bytes → ℕ → ℕ × Bytes
unfolding skip_blanks sign prefix digits_loop
strtol nptr base =
    let (negative, s) = sign (skip_blanks nptr) in
    let (base', start) = prefix base s in
    let (val, rest) = digits_loop base' 0 start in
    (if negative then negate val else val, if length rest == length start then nptr else rest)

unfoldable pub strtoul : Bytes → ℕ → ℕ × Bytes
unfolding strtol
strtoul nptr base = strtol nptr base

-- (long long) of a long extends the sign.
unfoldable pub strtoll : Bytes → ℕ → ℕ × Bytes
unfolding strtol
strtoll nptr base =
    let (w, rest) = strtol nptr base in (if is_negative w then w + 2 ^ 64 - 2 ^ 32 else w, rest)

unfoldable pub strtoull : Bytes → ℕ → ℕ × Bytes
unfolding strtoul
strtoull nptr base = strtoul nptr base

unfoldable pub atoi : Bytes → ℕ
unfolding strtol
atoi nptr = (strtol nptr 10).0

unfoldable pub atol : Bytes → ℕ
unfolding strtol
atol nptr = (strtol nptr 10).0

abbrev pub digit_char : ℕ → ℕ
digit_char rem = if ltb rem 10 then b'0' + rem else b'a' + rem - 10

-- The do loop writes the last digit first and the text is inverted afterwards: each digit is put in
-- front of those written before. `none` is running out of fuel.
unfoldable pub itoa_loop : ℕ → ℕ → ℕ → Bytes → Option Bytes
itoa_loop zero base uval acc = none
itoa_loop (suc f) base uval acc =
    let longer = itoa_loop f base (uval / base) (digit_char (uval % base) ∷ acc) in
    if uval / base == 0 then some (digit_char (uval % base) ∷ acc) else longer

abbrev pub minus : Option Bytes → Option Bytes
minus none = none
minus (some cs) = some (b'-' ∷ cs)

-- The text that is written to `str`. A word below 2 ^ 32 has at most 32 digits.
unfoldable pub itoa : ℕ → ℕ → Option Bytes
unfolding itoa_loop
itoa value base =
    if ltb base 2 || ltb 36 base
    then some []
    else if is_negative value && base == 10
    then minus (itoa_loop 32 base (negate value) [])
    else itoa_loop 32 base value []
