-- ===== src/Compat/Scan/RoundTrip.antt =====
-- vsscanf reads back the number that snprintf prints.
use c_lite.Base.{
  ℕ, zero, suc, ◌+◌, ◌-◌, ◌/◌, ◌%◌, ◌^◌, ◌≤◌, ◌<◌, ◌≡◌, refl, ap, ◌∙◌, inl, inr, true, false, [],
  ◌∷◌, Option, none, some, ◌==◌, ne→==, if◌then◌else◌, length, take, arith, Bool-cases,
}
use c_lite.Text.{Bytes}
use c_lite.Ctype.{isspace, isdigit}
use c_lite.Stdlib.Number.{
  is_negative, negate, skip_blanks, strtol, strtoll, itoa_loop, itoa, minus, digit_char,
}
use c_lite.Stdlib.Number.RoundTrip.{itoa-reads}
use c_lite.Stdio.Format.Double.{Doubles}
use c_lite.Stdio.Format.Print.{printed, word, snprintf}
use c_lite.Stdio.Format.Print.Shows.{snprintf-itoa}
use c_lite.Compat.Scan.{
  Scanned, ended, Progress, stored_number, skip_space, width_loop, size_bits, field, conversion,
  scan_directive, scan_loop, vsscanf,
}

skip_space-skip_blanks : (cs : Bytes) → skip_space cs ≡ skip_blanks cs
unfolding skip_space skip_blanks isspace
skip_space-skip_blanks [] = refl
skip_space-skip_blanks (c ∷ cs) = rw (skip_space-skip_blanks cs) refl

abbrev sign_extended : ℕ × Bytes → ℕ × Bytes
sign_extended (w, rest) = (if is_negative w then w + 2 ^ 64 - 2 ^ 32 else w, rest)

strtoll-sign_extended :
    (text : Bytes) (base : ℕ) → strtoll text base ≡ sign_extended (strtol text base)
unfolding strtoll
strtoll-sign_extended text base = refl

low_word : (w : ℕ) → w < 2 ^ 32 → (sign_extended (w, [])).0 % 2 ^ 32 ≡ w
low_word w small = elim (Bool-cases (is_negative w)) [
  | inl minus ↦ rw minus (omega arith)
  | inr plain ↦ rw plain (omega arith)
]

-- The low word of what strtoll returns is what strtol returns.
strtoll-strtol :
    (text : Bytes) (base w : ℕ)
    → w < 2 ^ 32
    → strtol text base ≡ (w, [])
    → ((strtoll text base).0 % 2 ^ 32 ≡ w) × ((strtoll text base).1 ≡ [])
strtoll-strtol text base w small reads =
    let whole : strtoll text base ≡ sign_extended (w, []) =
      strtoll-sign_extended text base ∙ ap sign_extended reads in
    (
      ap (λ (r : ℕ × Bytes). r.0 % 2 ^ 32) whole ∙ low_word w small,
      ap (λ (r : ℕ × Bytes). r.1) whole,
    )

-- The number of a text that strtol reads whole, which begins with no blank.
module _ (c w : ℕ) (cs : Bytes) (small : w < 2 ^ 32) (reads : strtol (c ∷ cs) 10 ≡ (w, []))
    (start : skip_blanks (c ∷ cs) ≡ c ∷ cs) where
  field-number :
      field false 0 32 b'd' (record { matches = 0; stores = []; s = c ∷ cs })
      ≡ (true, record { matches = 1; stores = stored_number 32 w ∷ []; s = [] })
  unfolding field
  field-number =
      let (low, rest) = strtoll-strtol (c ∷ cs) 10 w small reads in
      let moved : (0 == suc (length cs)) ≡ false = ne→== 0 (suc (length cs)) (omega arith) in
      rw (rest, moved, low) refl

  conversion-number :
      (total : ℕ)
      → conversion total false 0 32 b'd' (record { matches = 0; stores = []; s = c ∷ cs })
        ≡ (true, record { matches = 1; stores = stored_number 32 w ∷ []; s = [] })
  unfolding conversion
  conversion-number total = rw (skip_space-skip_blanks (c ∷ cs), start, field-number) refl

  scan_directive-number :
      (total : ℕ) (go : Bytes → Progress → Scanned)
      → scan_directive total (b'd' ∷ []) (record { matches = 0; stores = []; s = c ∷ cs }) go
        ≡ go [] (record { matches = 1; stores = stored_number 32 w ∷ []; s = [] })
  unfolding scan_directive width_loop size_bits isdigit
  scan_directive-number total go = rw (conversion-number total) refl

  vsscanf-number :
      (f : ℕ)
      → vsscanf (suc (suc f)) (some (c ∷ cs)) (some (b'%' ∷ b'd' ∷ []))
        ≡ ended 1 (stored_number 32 w ∷ [])
  unfolding vsscanf scan_loop isspace
  vsscanf-number f = scan_directive-number (suc (length cs)) (scan_loop (suc f) (suc (length cs)))

unfoldable IsShort : ℕ → Option Bytes → Type 0
IsShort n none = Unit
IsShort n (some text) = length text ≤ n

IsShort-le : (n m : ℕ) (o : Option Bytes) → IsShort n o → n ≤ m → IsShort m o
unfolding IsShort
IsShort-le n m none h le = tt
IsShort-le n m (some text) h le = omega arith

itoa_loop-IsShort : (f base u : ℕ) (acc : Bytes) → IsShort (f + length acc) (itoa_loop f base u acc)
unfolding itoa_loop
itoa_loop-IsShort zero base u acc = unfold IsShort in tt
itoa_loop-IsShort (suc f) base u acc = elim (Bool-cases (u / base == 0)) [
  | inl single ↦ rw single (unfold IsShort in omega arith)
  | inr more ↦ rw more (
      IsShort-le _ _ (itoa_loop f base (u / base) (digit_char (u % base) ∷ acc))
        (itoa_loop-IsShort f base (u / base) (digit_char (u % base) ∷ acc)) (omega arith))
]

minus-IsShort : (n : ℕ) (o : Option Bytes) → IsShort n o → IsShort (suc n) (minus o)
unfolding IsShort
minus-IsShort n none h = tt
minus-IsShort n (some text) h = omega arith

itoa-IsShort : (w : ℕ) → IsShort 33 (itoa w 10)
unfolding itoa
itoa-IsShort w = elim (Bool-cases (is_negative w)) [
  | inl negative ↦
      rw negative
        (minus-IsShort 32 (itoa_loop 32 10 (negate w) []) (itoa_loop-IsShort 32 10 (negate w) []))
  | inr plain ↦
      rw plain
        (IsShort-le 32 33 (itoa_loop 32 10 w []) (itoa_loop-IsShort 32 10 w []) (omega arith))
]

short_of : (n : ℕ) (o : Option Bytes) (text : Bytes) → IsShort n o → o ≡ some text → length text ≤ n
unfolding IsShort
short_of n none text h e = cc
short_of n (some t) text h e = let same : t ≡ text = cc in rw (← same) h

take-short : (n : ℕ) (text : Bytes) → length text ≤ n → take n text ≡ text
take-short zero [] h = refl
take-short zero (c ∷ cs) h = absurd (omega arith)
take-short (suc n) [] h = refl
take-short (suc n) (c ∷ cs) h = ap (λ r. c ∷ r) (take-short n cs (omega arith))

same_bytes : (o : Option Bytes) (a b : Bytes) → o ≡ some a → o ≡ some b → a ≡ b
same_bytes o a b h k = cc

-- For every 32-bit word and a buffer of at least 34 bytes: snprintf prints the word with "%d" as a
-- text, and vsscanf with "%d" reads exactly this word from that text, as its one match.
pub vsscanf-snprintf :
    (D : Doubles) (w n f g : ℕ)
    → w < 2 ^ 32
    → 33 ≤ n
    → (text : Bytes) × (snprintf D (suc (suc f)) (suc n) (b'%' ∷ b'd' ∷ []) (word w ∷ [])
        ≡ printed text)
      × (vsscanf (suc (suc g)) (some text) (some (b'%' ∷ b'd' ∷ []))
          ≡ ended 1 (stored_number 32 w ∷ []))
vsscanf-snprintf D w n f g small room =
    let (c, cs, run, reads, start) = itoa-reads 10 w (omega arith) (omega arith) small in
    let (text, run', prints) = snprintf-itoa D f n w small in
    let same : text ≡ c ∷ cs = same_bytes (itoa w 10) text (c ∷ cs) run' run in
    let short : length (c ∷ cs) ≤ 33 = short_of 33 (itoa w 10) (c ∷ cs) (itoa-IsShort w) run in
    (
      c ∷ cs,
      prints ∙ ap (λ t. printed (take n t)) same ∙ ap printed (take-short n (c ∷ cs) (omega arith)),
      vsscanf-number c w cs small reads start g,
    )
