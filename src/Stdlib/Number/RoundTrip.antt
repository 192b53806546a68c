-- ===== src/Stdlib/Number/RoundTrip.antt =====
-- strtol reads back what itoa writes.
use c_lite.Base.{
  ℕ, zero, suc, ◌+◌, ◌*◌, ◌/◌, ◌%◌, ◌^◌, ◌≤◌, ◌<◌, ◌≡◌, ◌≢◌, refl, ap, ◌∙◌, inl, inr, false, ◌&&◌,
  ◌||◌, [], ◌∷◌, some, arith, ltb, ◌==◌, ==→ne, ne→==, gt→leb, Bool-cases, Option-cases, length,
}
use Prim.Native.Nat.pow
use c_lite.Text.{Bytes}
use c_lite.Stdlib.Number.{
  negate, is_negative, is_blank, skip_blanks, digit_of, digit_step, digits_loop, sign, prefix,
  strtol, strtoull, strtoul, digit_char, itoa_loop, itoa,
}

digit_of-digit_char : (d : ℕ) → d < 36 → digit_of (digit_char d) ≡ some d
unfolding digit_of
digit_of-digit_char d small = ground arith

digit_step-digit_char :
    (base val d : ℕ)
    → d < base
    → base ≤ 36
    → digit_step base val (digit_char d) ≡ some ((val * base + d) % 2 ^ 32)
unfolding digit_step
digit_step-digit_char base val d low top =
    rw (digit_of-digit_char d (omega arith), gt→leb base d low) refl

digits_loop-digit :
    (base val d : ℕ) (cs : Bytes)
    → d < base
    → base ≤ 36
    → digits_loop base val (digit_char d ∷ cs) ≡ digits_loop base ((val * base + d) % 2 ^ 32) cs
unfolding digits_loop
digits_loop-digit base val d cs low top =
    rw (digits_loop, digit_step-digit_char base val d low top) refl

-- All characters are digits of the base.
abbrev pub IsDigits : ℕ → Bytes → Type 0
IsDigits base [] = Unit
IsDigits base (c ∷ cs) = ((d : ℕ) × (d < base) × (c ≡ digit_char d)) × IsDigits base cs

pub some_fuel : (q f : ℕ) → q < 2 ^ f → q ≢ 0 → 0 < f
some_fuel q zero small ne = absurd (omega arith)
some_fuel q (suc f) small ne = omega arith

pub half_power : (q u f : ℕ) → q * 2 ≤ u → u < 2 ^ suc f → q < 2 ^ f
half_power q u f half small = omega (arith, pow.suc 2 f)

pub quotient_bounds : (u b : ℕ) → 2 ≤ b → (u / b * b + u % b ≡ u) × (u % b < b) × (u / b * 2 ≤ u)
quotient_bounds u b low =
    let whole : u / b * b + u % b ≡ u = grind arith in
    let below : u % b < b = grind arith in
    let grows : u / b * 2 ≤ u / b * b = grind arith in (whole, below, omega arith)

-- The loop of itoa on a value below 2 ^ f writes digits, and the loop of strtol reads the value.
itoa_loop-digits_loop :
    (f base u : ℕ) (acc : Bytes)
    → 2 ≤ base
    → base ≤ 36
    → u < 2 ^ 32
    → u < 2 ^ f
    → 0 < f
    → IsDigits base acc
    → (c : ℕ) × (cs : Bytes) × (itoa_loop f base u acc ≡ some (c ∷ cs))
      × IsDigits base (c ∷ cs)
      × (digits_loop base 0 (c ∷ cs) ≡ digits_loop base u acc)
unfolding itoa_loop
itoa_loop-digits_loop zero base u acc low top small enough pos digits = absurd (omega arith)
itoa_loop-digits_loop (suc f) base u acc low top small enough pos digits =
    let (whole, below, half) = quotient_bounds u base low in
    elim (Bool-cases (u / base == 0)) [
      | inl single ↦
          let e : u % base ≡ u = grind (arith, single) in
          (
            digit_char (u % base),
            acc,
            rw single refl,
            ((u % base, below, refl), digits),
            digits_loop-digit base 0 (u % base) acc below top
                ∙ ap (λ v. digits_loop base v acc) (omega (arith, e)),
          )
      | inr more ↦
          let lower = half_power (u / base) u f half enough in
          let (c, cs, run, good, back) =
            itoa_loop-digits_loop f base (u / base) (digit_char (u % base) ∷ acc) low top
              (omega arith) lower (some_fuel (u / base) f lower (==→ne _ _ more))
              ((u % base, below, refl), digits) in
          (
            c,
            cs,
            rw (more, run) refl,
            good,
            back
                ∙ digits_loop-digit base (u / base) (u % base) acc below top
                ∙ ap (λ v. digits_loop base v acc) (omega (arith, whole)),
          )
    ]

-- The first character of digits is no blank, no sign, and begins no prefix of the base.
digit_facts :
    (d : ℕ)
    → d < 36
    → (is_blank (digit_char d) ≡ false) × (digit_char d ≢ b'-') × (digit_char d ≢ b'+')
digit_facts d small = ground arith

digit_no_x : (d : ℕ) → d < 16 → (digit_char d == b'x' || digit_char d == b'X') ≡ false
digit_no_x d small = ground arith

skip_blanks-digits :
    (base c : ℕ) (cs : Bytes)
    → base ≤ 36
    → IsDigits base (c ∷ cs)
    → (skip_blanks (c ∷ cs) ≡ c ∷ cs) × (sign (c ∷ cs) ≡ (false, c ∷ cs))
unfolding skip_blanks sign
skip_blanks-digits base c cs top ((d, low, e), digits) =
    let (no_blank, no_minus, no_plus) = digit_facts d (omega arith) in
    (rw (e, no_blank) refl, rw (e, ne→== _ _ no_minus, ne→== _ _ no_plus) refl)

prefix-digits : (base : ℕ) (cs : Bytes) → base ≢ 0 → IsDigits base cs → prefix base cs ≡ (base, cs)
unfolding prefix
prefix-digits base [] ne digits = ground arith
prefix-digits base (c ∷ []) ne digits = ground arith
prefix-digits base (c ∷ d ∷ cs) ne (_, ((k, low, e), _)) =
    let test : ((base == 0 || base == 16) && c == b'0' && (d == b'x' || d == b'X')) ≡ false =
      ground (arith, digit_no_x k) in
    rw (test, ne→== base 0 ne) refl

moved : (n : ℕ) → (0 == suc n) ≡ false
moved n = ne→== 0 (suc n) (omega arith)

module _ (base c u : ℕ) (cs : Bytes) (ne : base ≢ 0) (top : base ≤ 36)
    (digits : IsDigits base (c ∷ cs)) (back : digits_loop base 0 (c ∷ cs) ≡ (u, [])) where
  strtol-digits : strtol (c ∷ cs) base ≡ (u, [])
  unfolding strtol
  strtol-digits =
      let (blank, plain) = skip_blanks-digits base c cs top digits in
      rw (blank, plain, prefix-digits base (c ∷ cs) ne digits, back, moved (length cs)) refl

  strtol-minus : strtol (b'-' ∷ c ∷ cs) base ≡ (negate u, [])
  unfolding strtol skip_blanks sign
  strtol-minus = rw (prefix-digits base (c ∷ cs) ne digits, back, moved (length cs)) refl

-- The text that itoa writes has a first byte, which is no blank, and strtol reads the word from it.
pub itoa-reads :
    (base w : ℕ)
    → 2 ≤ base
    → base ≤ 36
    → w < 2 ^ 32
    → (c : ℕ) × (cs : Bytes) × (itoa w base ≡ some (c ∷ cs))
      × (strtol (c ∷ cs) base ≡ (w, []))
      × (skip_blanks (c ∷ cs) ≡ c ∷ cs)
unfolding itoa digits_loop skip_blanks
itoa-reads base w low top small =
    let in_range : (ltb base 2 || ltb 36 base) ≡ false = ground arith in
    elim (Bool-cases (is_negative w && base == 10)) [
      | inl minus ↦
          let (c, cs, run, digits, back) =
            itoa_loop-digits_loop 32 base (negate w) [] low top (omega arith) (omega arith)
              (omega arith) tt in
          (
            b'-',
            c ∷ cs,
            rw (in_range, minus, run) refl,
            strtol-minus base c (negate w) cs (omega arith) top digits back
                ∙ ap (λ v. (v, [])) (ground arith),
            refl,
          )
      | inr plain ↦
          let (c, cs, run, digits, back) =
            itoa_loop-digits_loop 32 base w [] low top small small (omega arith) tt in
          (
            c,
            cs,
            rw (in_range, plain, run) refl,
            strtol-digits base c w cs (omega arith) top digits back,
            (skip_blanks-digits base c cs top digits).0,
          )
    ]

-- For a base from 2 to 36, itoa writes a text for every word, and strtol in that base reads exactly
-- this word from it, up to the end of the text.
pub itoa-strtol :
    (base w : ℕ)
    → 2 ≤ base
    → base ≤ 36
    → w < 2 ^ 32
    → (text : Bytes) × (itoa w base ≡ some text) × (strtol text base ≡ (w, []))
itoa-strtol base w low top small =
    let (c, cs, run, reads, start) = itoa-reads base w low top small in (c ∷ cs, run, reads)

digit_step-bounds : (base val c v : ℕ) → digit_step base val c ≡ some v → v < 2 ^ 32
unfolding digit_step
digit_step-bounds base val c v h = ground arith

digits_loop-bounds :
    (base val : ℕ) (cs : Bytes) → val < 2 ^ 32 → (digits_loop base val cs).0 < 2 ^ 32
unfolding digits_loop
digits_loop-bounds base val [] small = small
digits_loop-bounds base val (c ∷ cs) small = elim (Option-cases (digit_step base val c)) [
  | inl stop ↦ rw (digits_loop, stop) small
  | inr (v, go) ↦
      rw (digits_loop, go) (digits_loop-bounds base v cs (digit_step-bounds base val c v go))
]

-- strtoull, which ends in strtol, returns a value below 2 ^ 32 for every text.
pub strtoull-bounds : (text : Bytes) (base : ℕ) → (strtoull text base).0 < 2 ^ 32
unfolding strtoull strtoul strtol
strtoull-bounds text base =
    let (negative, s) = sign (skip_blanks text) in
    let (b, start) = prefix base s in
    let low = digits_loop-bounds b 0 start (omega arith) in
    elim (Bool-cases negative) [ inl minus ↦ rw minus (omega arith) | inr plain ↦ rw plain low ]
