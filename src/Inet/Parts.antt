-- ===== src/Inet/Parts.antt =====
-- The byte order is its own inverse, and which addresses are refused.
use c_lite.Base.{
  ℕ, zero, suc, ◌+◌, ◌-◌, ◌*◌, ◌%◌, ◌^◌, ◌<◌, ◌≡◌, ◌≢◌, refl, ap, true, false, ◌&&◌, List, [], ◌∷◌,
  ◌++◌, none, ◌==◌, ne→==, arith, length,
}
use c_lite.Ctype.{isdigit}
use c_lite.Text.{Bytes}
use c_lite.Inet.{htonl, htons, ntohl, ntohs, part_base, part_loop, part, parts_loop, inet_aton}

-- ntohl undoes htonl on every 32-bit value, and ntohs undoes htons on every 16-bit value.
pub ntohl-htonl :
    (l s : ℕ)
    → l < 2 ^ 32
    → s < 2 ^ 16
    → (ntohl (htonl l) ≡ l) × (htonl l < 2 ^ 32) × (ntohs (htons s) ≡ s) × (htons s < 2 ^ 16)
unfolding ntohl htonl ntohs htons
ntohl-htonl l s ll ss = (omega arith, omega arith, omega arith, omega arith)

-- All bytes are decimal digits.
abbrev pub IsDecimal : Bytes → Type 0
IsDecimal [] = Unit
IsDecimal (c ∷ cs) = (isdigit c ≡ true) × IsDecimal cs

part_loop-digits :
    (ds rest : Bytes) (base val n m : ℕ)
    → IsDecimal ds
    → m ≡ n + length ds
    → (v : ℕ) × (part_loop base val n (ds ++ b'.' ∷ rest) ≡ (v, m, b'.' ∷ rest))
unfolding part_loop
part_loop-digits [] rest base val n m all e =
    let same : n ≡ m = omega arith in
    (val, rw (not_hex base) (ap (λ k. (val, k, b'.' ∷ rest)) same))
  where
    not_hex : (base : ℕ) → (base == 16 && false) ≡ false
    not_hex base = ground arith
part_loop-digits (c ∷ ds) rest base val n m (dig, all) e =
    let (v, run) =
      part_loop-digits ds rest base ((val * base + (c - b'0')) % 2 ^ 32) (n + 1) m all
        (omega arith) in
    (v, rw dig run)

-- A part of decimal digits, the first of them not 0, is read up to its dot.
part_decimal :
    (d : ℕ) (ds rest : Bytes)
    → d ≢ b'0'
    → IsDecimal (d ∷ ds)
    → (v : ℕ) × (part (d ∷ ds ++ b'.' ∷ rest) ≡ (v, suc (length ds), b'.' ∷ rest))
unfolding part part_base
part_decimal d ds rest ne all =
    let (v, run) = part_loop-digits (d ∷ ds) rest 10 0 0 (suc (length ds)) all (omega arith) in
    (v, rw (ne→== d b'0' ne) run)

-- A part 0 is read as the prefix of an octal number without digits.
part_zero : (rest : Bytes) → part (b'0' ∷ b'.' ∷ rest) ≡ (0, 0, b'.' ∷ rest)
unfolding part part_base part_loop
part_zero rest = refl

zero_refused : (room : ℕ) (parts rest : List ℕ) → parts_loop room parts (b'0' ∷ b'.' ∷ rest) ≡ none
unfolding parts_loop
zero_refused zero parts rest = unfold part part_base part_loop in refl
zero_refused (suc room) parts rest = unfold part part_base part_loop in refl

-- inet_aton refuses every text in which a part that is "0" and followed by a dot stands behind a
-- first part of decimal digits that does not begin with 0, such as "127.0.0.1".
pub inet_aton-zero_part :
    (d : ℕ) (ds rest : Bytes)
    → d ≢ b'0'
    → IsDecimal (d ∷ ds)
    → inet_aton (d ∷ ds ++ b'.' ∷ b'0' ∷ b'.' ∷ rest) ≡ none
unfolding inet_aton parts_loop
inet_aton-zero_part d ds rest ne all =
    let (v, run) = part_decimal d ds (b'0' ∷ b'.' ∷ rest) ne all in
    rw (run, zero_refused 2 (v ∷ []) rest) (ground arith)
