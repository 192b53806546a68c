-- ===== src/Stdio/Format.antt =====
-- The parts of vsnprintf of src/stdio.c: the output with its room, the flags of a directive, and the
-- conversion of one argument. A `long` is as wide as an `int`, a 32-bit word. A width or a precision
-- is the number written: from 2 ^ 31 on the C code overflows.
pub mod Double
pub mod Print
use c_lite.Base.{
  ℕ, zero, suc, ◌+◌, ◌-◌, ◌*◌, ◌/◌, ◌%◌, ◌^◌, Bool, true, false, not, ◌&&◌, ◌||◌, List, [], ◌∷◌,
  ◌++◌, Option, none, some, leb, ltb, ◌==◌, if◌then◌else◌, length, take, ◌>>=◌,
}
use c_lite.Text.{Bytes, first, rest_of}
use c_lite.Stdlib.Number.{negate, is_negative}

-- The bytes written so far, and `rem`, the room that is left.
pub record Out : Type 0 where
  pub text : Bytes
  pub rem : ℕ

-- if (rem > 1) { *out++ = c; rem--; }
unfoldable pub put : ℕ → Out → Out
put c o = if ltb 1 o.rem then record { text = o.text ++ c ∷ []; rem = o.rem - 1 } else o

unfoldable pub put_all : Bytes → Out → Out
unfolding put
put_all [] o = o
put_all (c ∷ cs) o = put_all cs (put c o)

-- while (pad_count-- > 0)
unfoldable pub put_pad : ℕ → ℕ → Out → Out
unfolding put
put_pad zero c o = o
put_pad (suc n) c o = put_pad n c (put c o)

abbrev pub digit : Bool → ℕ → ℕ
digit uppercase d =
    if ltb d 10 then b'0' + d else if uppercase then b'A' + d - 10 else b'a' + d - 10

-- while (val > 0): the text is read from the end of `buf`, so each digit is put in front of those
-- before. A word has at most 11 digits to a base from 8 on, and `buf` has 32 places.
unfoldable pub num_loop : ℕ → ℕ → Bool → ℕ → Bytes → Bytes
num_loop zero base uppercase val acc = acc
num_loop (suc f) base uppercase val acc =
    let more = num_loop f base uppercase (val / base) (digit uppercase (val % base) ∷ acc) in
    if val == 0 then acc else more

unfoldable pub num_text : ℕ → Bool → ℕ → Bytes
unfolding num_loop
num_text base uppercase val = if val == 0 then b'0' ∷ [] else num_loop 32 base uppercase val []

unfoldable pub format_num : ℕ → ℕ → Bool → ℕ → ℕ → Bool → Bool → Out → Out
unfolding num_text put put_all put_pad
format_num val base uppercase width pad negative left_align o =
    let digits = num_text base uppercase val in
    let signed = if negative then b'-' ∷ digits else digits in
    let pad_count = width - length signed in
    if left_align
    then put_pad pad_count b' ' (put_all signed o)
    else if pad == b'0' && negative
    then put_all digits (put_pad pad_count pad (put b'-' o))
    else put_all signed (put_pad pad_count pad o)

-- A text between spaces, as for the conversions c, s and f.
unfoldable pub pad_text : ℕ → Bool → Bytes → Out → Out
unfolding put_all put_pad
pad_text width left_align text o =
    let pad_count = width - length text in
    if left_align
    then put_pad pad_count b' ' (put_all text o)
    else put_all text (put_pad pad_count b' ' o)

-- What stands between '%' and the conversion; no precision is -1.
pub record Spec : Type 0 where
  pub left_align : Bool
  pub pad : ℕ
  pub width : ℕ
  pub precision : Option ℕ

-- The loop over the flags: left_align, whether there is a 0, and what follows.
unfoldable pub flags_loop : Bool → Bool → Bytes → Bool × Bool × Bytes
flags_loop left zeros [] = (left, zeros, [])
flags_loop left zeros (c ∷ cs) =
    let skip = flags_loop left zeros cs in
    let minus = flags_loop true zeros cs in
    let nought = flags_loop left true cs in
    if c == b'-'
    then minus
    else if c == b'0'
    then nought
    else if c == b'+' || c == b' ' || c == b'#'
    then skip
    else (left, zeros, c ∷ cs)

unfoldable pub number_loop : ℕ → Bytes → ℕ × Bytes
number_loop n [] = (n, [])
number_loop n (c ∷ cs) =
    let more = number_loop (n * 10 + (c - b'0')) cs in
    if leb b'0' c && leb c b'9' then more else (n, c ∷ cs)

unfoldable pub length_loop : Bytes → Bytes
length_loop [] = []
length_loop (c ∷ cs) =
    let rest = length_loop cs in
    if c == b'l' || c == b'h' || c == b'z' || c == b'j' || c == b't' then rest else c ∷ cs
