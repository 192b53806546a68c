-- ===== src/Inet.antt =====
-- The byte order and the numeric addresses of src/net.c, on the bytes of a string. A uint32_t is a
-- number below 2 ^ 32.
pub mod Parts
pub mod Hosts
use Prim.Native.Nat.{bit_or}
use c_lite.Base.{
  ℕ, zero, suc, ◌+◌, ◌-◌, ◌*◌, ◌/◌, ◌%◌, ◌^◌, Bool, true, false, not, ◌&&◌, ◌||◌, List, [], ◌∷◌,
  ◌++◌, Option, none, some, leb, ltb, ◌==◌, if◌then◌else◌, ◌>>=◌,
}
use c_lite.Ctype.{isdigit, isxdigit, isspace, toupper}
use c_lite.Text.{Bytes, first, rest_of}

-- A mask with a byte and a shift is the byte at its new place.
unfoldable pub htonl : ℕ → ℕ
htonl hostlong =
    hostlong / 2 ^ 24 % 2 ^ 8
    + hostlong / 2 ^ 16 % 2 ^ 8 * 2 ^ 8
    + hostlong / 2 ^ 8 % 2 ^ 8 * 2 ^ 16
    + hostlong % 2 ^ 8 * 2 ^ 24

unfoldable pub htons : ℕ → ℕ
htons hostshort = hostshort / 2 ^ 8 % 2 ^ 8 + hostshort % 2 ^ 8 * 2 ^ 8

unfoldable pub ntohl : ℕ → ℕ
unfolding htonl
ntohl netlong = htonl netlong

unfoldable pub ntohs : ℕ → ℕ
unfolding htons
ntohs netshort = htons netshort

-- The base of a part and where its digits begin.
unfoldable pub part_base : Bytes → ℕ × Bytes
part_base cp =
    if first cp == b'0'
    then if first (rest_of cp) == b'x' || first (rest_of cp) == b'X'
      then (16, rest_of (rest_of cp))
      else (8, rest_of cp)
    else (10, cp)

-- The value of the digits, their number, and what follows them. The low four bits of `val << 4` are 0.
unfoldable pub part_loop : ℕ → ℕ → ℕ → Bytes → ℕ × ℕ × Bytes
unfolding isdigit isxdigit toupper
part_loop base val n [] = (val, n, [])
part_loop base val n (c ∷ cs) =
    let digit = part_loop base ((val * base + (c - b'0')) % 2 ^ 32) (n + 1) cs in
    let letter = part_loop base (val * 16 % 2 ^ 32 + (toupper c + 10 - b'A')) (n + 1) cs in
    if isdigit c then digit else if base == 16 && isxdigit c then letter else (val, n, c ∷ cs)

unfoldable pub part : Bytes → ℕ × ℕ × Bytes
unfolding part_base part_loop
part cp = let (base, digits) = part_base cp in part_loop base 0 0 digits

-- What follows the loop over the parts.
pub last_part : List ℕ → ℕ × ℕ × Bytes → Option (List ℕ)
unfolding isspace
last_part parts (val, n, rest) =
    if not (first rest == 0) && not (isspace (first rest))
    then none
    else if n == 0
    then none
    else some (parts ++ val ∷ [])

-- `room` more parts may follow the current one.
unfoldable pub parts_loop : ℕ → List ℕ → Bytes → Option (List ℕ)
unfolding part last_part
parts_loop zero parts cp =
    let (val, n, rest) = part cp in
    if first rest == b'.' then none else last_part parts (val, n, rest)
parts_loop (suc room) parts cp =
    let (val, n, rest) = part cp in
    let more = parts_loop room (parts ++ val ∷ []) (rest_of rest) in
    if first rest == b'.' then if n == 0 then none else more else last_part parts (val, n, rest)

abbrev pub shift : ℕ → ℕ → ℕ
shift v by = v * 2 ^ by % 2 ^ 32

-- The switch over the number of parts.
unfoldable pub address : List ℕ → Option ℕ
address (a ∷ []) = some a
address (a ∷ b ∷ []) = if ltb 0xffffff b then none else some (bit_or (shift a 24) b)
address (a ∷ b ∷ c ∷ []) =
    if ltb 0xffff c then none else some (bit_or (bit_or (shift a 24) (shift b 16)) c)
address (a ∷ b ∷ c ∷ d ∷ []) =
    if ltb 0xff (bit_or (bit_or (bit_or a b) c) d)
    then none
    else some (bit_or (bit_or (bit_or (shift a 24) (shift b 16)) (shift c 8)) d)
address parts = none

-- `some` is a return of 1 with the value of `s_addr`, `none` a return of 0.
unfoldable pub inet_aton : Bytes → Option ℕ
unfolding parts_loop address htonl
inet_aton cp = do parts ← parts_loop 3 [] cp; val ← address parts; some (htonl val)

unfoldable pub inet_addr : Bytes → ℕ
unfolding inet_aton
inet_addr cp = or_none (inet_aton cp)
  where
    or_none : Option ℕ → ℕ
    or_none none = 2 ^ 32 - 1
    or_none (some a) = a
