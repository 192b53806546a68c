-- ===== src/Compat/Scan.antt =====
-- vsscanf and sscanf of src/compat.c on the bytes of text and format. A call returns the number of
-- conversions and what it stores, in the order of the pointers that it is given.
pub mod Ends
pub mod Kinds
pub mod RoundTrip
use c_lite.Base.{
  ℕ, zero, suc, ◌+◌, ◌-◌, ◌*◌, ◌%◌, ◌^◌, Bool, true, false, not, ◌&&◌, ◌||◌, List, [], ◌∷◌, ◌++◌,
  Option, none, some, ltb, ◌==◌, if◌then◌else◌, length, take, drop,
}
use c_lite.Text.{Bytes, first, rest_of}
use c_lite.Ctype.{isspace, isdigit}
use c_lite.Stdlib.Number.{strtoll}

-- What is stored at a pointer: the low bits of a number, bytes, or bytes and a NUL.
pub data Store : Type 0 where
  stored_number : ℕ → ℕ → Store
  stored_chars : Bytes → Store
  stored_string : Bytes → Store

-- `past_end` is undefined in C: the format ends in a directive, and the code reads on behind its NUL.
pub data Scanned : Type 0 where
  ended : ℕ → List Store → Scanned
  past_end : Scanned
  out_of_fuel : Scanned

-- matches, the stores so far, and the rest of the text
pub record Progress : Type 0 where
  pub matches : ℕ
  pub stores : List Store
  pub s : Bytes

unfoldable pub skip_space : Bytes → Bytes
unfolding isspace
skip_space [] = []
skip_space (c ∷ cs) = if isspace c then skip_space cs else c ∷ cs

unfoldable pub width_loop : ℕ → Bytes → ℕ × Bytes
unfolding isdigit
width_loop n [] = (n, [])
width_loop n (c ∷ cs) =
    let more = width_loop (n * 10 + (c - b'0')) cs in if isdigit c then more else (n, c ∷ cs)

-- is_long, as the number of bits that are stored.
unfoldable pub size_bits : Bytes → ℕ × Bytes
size_bits f =
    if first f == b'l'
    then if first (rest_of f) == b'l' then (64, rest_of (rest_of f)) else (32, rest_of f)
    else if first f == b'h'
    then if first (rest_of f) == b'h' then (8, rest_of (rest_of f)) else (16, rest_of f)
    else (32, f)

abbrev pub put_store : Bool → Store → Progress → Progress
put_store suppress x st = if suppress then st else record st { stores = st.stores ++ x ∷ [] }

abbrev pub count_match : Bytes → Progress → Progress
count_match rest st = record st { matches = st.matches + 1; s = rest }

-- The bytes of %s, at most `left` of them where there is a width.
unfoldable pub word_loop : Bool → ℕ → Bytes → Bytes × Bytes
unfolding isspace
word_loop limited left [] = ([], [])
word_loop limited left (c ∷ cs) =
    let (word, rest) = word_loop limited (left - 1) cs in
    if not (isspace c) && (not limited || ltb 0 left) then (c ∷ word, rest) else ([], c ∷ cs)

abbrev pub is_number : ℕ → Bool
is_number conv = conv == b'd' || conv == b'i' || conv == b'u' || conv == b'x' || conv == b'X'

abbrev pub base_of_conv : ℕ → ℕ
base_of_conv conv = if conv == b'x' || conv == b'X' then 16 else if conv == b'i' then 0 else 10

abbrev pub at_end : Bytes → Bool
at_end [] = true
at_end (c ∷ cs) = false

-- %s and the numbers, on a text that does not begin with a space. The Boolean is whether to go on.
unfoldable pub field : Bool → ℕ → ℕ → ℕ → Progress → Bool × Progress
field suppress width bits conv st =
    let (word, after) = word_loop (not (width == 0)) width st.s in
    let (val, rest) = strtoll st.s (base_of_conv conv) in
    if at_end st.s
    then (false, st)
    else if conv == b's'
    then (true, count_match after (put_store suppress (stored_string word) st))
    else if is_number conv
    then if length rest == length st.s
      then (false, st)
      else (true, count_match rest (put_store suppress (stored_number bits (val % 2 ^ bits)) st))
    else (true, st)

-- One conversion. `total` is the length of the whole text.
unfoldable pub conversion : ℕ → Bool → ℕ → ℕ → ℕ → Progress → Bool × Progress
conversion total suppress width bits conv st =
    let count = if ltb 0 width then width else 1 in
    if conv == b'n'
    then (true, put_store suppress (stored_number 32 ((total - length st.s) % 2 ^ 32)) st)
    else if conv == b'c'
    then if at_end st.s then (false, st) else (
      true,
      count_match (drop count st.s) (put_store suppress (stored_chars (take count st.s)) st),
    )
    else field suppress width bits conv (record st { s = skip_space st.s })

abbrev pub give : Progress → Scanned
give st = ended st.matches st.stores

-- Behind a conversion: the loop goes on behind `conv`, which may be the NUL.
abbrev pub go_on : (Bytes → Progress → Scanned) → Bytes → Bool × Progress → Scanned
go_on go f (goes_on, st) =
    let later = go (rest_of f) st in
    if not goes_on then give st else if first f == 0 then past_end else later

-- `f` stands behind '%'.
unfoldable pub scan_directive : ℕ → Bytes → Progress → (Bytes → Progress → Scanned) → Scanned
scan_directive total f st go =
    let suppress = first f == b'*' in
    let (width, sizes) = width_loop 0 (if suppress then rest_of f else f) in
    let (bits, conv) = size_bits sizes in
    go_on go conv (conversion total suppress width bits (first conv) st)

-- while (*f): one unit of fuel is one round.
unfoldable pub scan_loop : ℕ → ℕ → Bytes → Progress → Scanned
scan_loop zero total f st = out_of_fuel
scan_loop (suc n) total [] st = give st
scan_loop (suc n) total (c ∷ cs) st =
    let spaces = scan_loop n total (skip_space cs) (record st { s = skip_space st.s }) in
    let plain = scan_loop n total cs (record st { s = rest_of st.s }) in
    let percent = scan_loop n total (rest_of cs) (record st { s = rest_of st.s }) in
    let directed = scan_directive total cs st (scan_loop n total) in
    if isspace c
    then spaces
    else if not (c == b'%')
    then if not (first st.s == c) then give st else plain
    else if first cs == b'%'
    then if not (first st.s == b'%') then give st else percent
    else directed

-- A null pointer for `str` or `format` gives 0.
unfoldable pub vsscanf : ℕ → Option Bytes → Option Bytes → Scanned
vsscanf fuel none format = ended 0 []
vsscanf fuel (some str) none = ended 0 []
vsscanf fuel (some str) (some format) =
    scan_loop fuel (length str) format (record { matches = 0; stores = []; s = str })

unfoldable pub sscanf : ℕ → Option Bytes → Option Bytes → Scanned
unfolding vsscanf
sscanf fuel str format = vsscanf fuel str format
