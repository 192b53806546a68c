-- ===== src/Str/Search.antt =====
-- The searches of src/string.c, and strcasestr of src/compat.c.
-- A pointer result is an address, `null` where nothing is found. Nested loops run on one fuel each.
pub mod Find
pub mod Span
pub mod Substring
pub mod Tokens
use c_lite.Base.{ℕ, zero, suc, ◌+◌, Option, none, some, not, ◌&&◌, ◌==◌, if◌then◌else◌, ◌>>=◌}
use c_lite.Base.Int.{is_zero}
use c_lite.Memory.{Addr, null, Mem, write}
use c_lite.Str.Block.{byte}
use c_lite.Str.Compare.{strncasecmp}
use c_lite.Str.Copy.{strlen}

unfoldable pub strchr : ℕ → Mem → Addr → ℕ → Option Addr
strchr zero m s c = none
strchr (suc k) m s c =
    let rest = strchr k m (s + 1) c in
    if m s == byte c then some s else if m s == 0 then some null else rest

unfoldable pub strchrnul : ℕ → Mem → Addr → ℕ → Option Addr
strchrnul zero m s c = none
strchrnul (suc k) m s c =
    let rest = strchrnul k m (s + 1) c in
    if not (m s == 0) && not (m s == byte c) then rest else some s

-- do { … } while (*s++), with `last`
strrchr_loop : ℕ → Mem → Addr → ℕ → Addr → Option Addr
strrchr_loop zero m s c last = none
strrchr_loop (suc k) m s c last =
    let last' = if m s == byte c then s else last in
    let rest = strrchr_loop k m (s + 1) c last' in if m s == 0 then some last' else rest

unfoldable pub strrchr : ℕ → Mem → Addr → ℕ → Option Addr
unfolding strrchr_loop
strrchr fuel m s c = strrchr_loop fuel m s c null

-- while (*h && *n && (*h == *n)) { h++; n++; }, with the final `n`
match_loop : ℕ → Mem → Addr → Addr → Option Addr
match_loop zero m h n = none
match_loop (suc k) m h n =
    let rest = match_loop k m (h + 1) (n + 1) in
    if not (m h == 0) && not (m n == 0) && m h == m n then rest else some n

strstr_loop : ℕ → ℕ → Mem → Addr → Addr → Option Addr
strstr_loop fuel zero m h n = none
strstr_loop fuel (suc k) m h n =
    let rest = strstr_loop fuel k m (h + 1) n in
    let from = (do e ← match_loop fuel m h n; if m e == 0 then some h else rest) in
    if m h == 0 then some null else if m h == m n then from else rest

unfoldable pub strstr : ℕ → Mem → Addr → Addr → Option Addr
unfolding strstr_loop match_loop
strstr fuel m haystack needle =
    if m needle == 0 then some haystack else strstr_loop fuel fuel m haystack needle

strcasestr_loop : ℕ → Mem → Addr → Addr → ℕ → Option Addr
strcasestr_loop zero m h n nl = none
strcasestr_loop (suc k) m h n nl =
    let rest = strcasestr_loop k m (h + 1) n nl in
    if m h == 0 then some null else if is_zero (strncasecmp m h n nl) then some h else rest

unfoldable pub strcasestr : ℕ → Mem → Addr → Addr → Option Addr
unfolding strcasestr_loop strncasecmp strlen
strcasestr fuel m haystack needle =
    if m needle == 0
    then some haystack
    else (do nl ← strlen fuel m needle; strcasestr_loop fuel m haystack needle nl)

strspn_loop : ℕ → ℕ → Mem → Addr → Addr → ℕ → Option ℕ
strspn_loop fuel zero m s accept count = none
strspn_loop fuel (suc k) m s accept count =
    let rest = strspn_loop fuel k m (s + 1) accept (count + 1) in
    let test = (do p ← strchr fuel m accept (m s); if p == null then some count else rest) in
    if m s == 0 then some count else test

unfoldable pub strspn : ℕ → Mem → Addr → Addr → Option ℕ
unfolding strspn_loop strchr
strspn fuel m s accept = strspn_loop fuel fuel m s accept 0

strcspn_loop : ℕ → ℕ → Mem → Addr → Addr → ℕ → Option ℕ
strcspn_loop fuel zero m s reject count = none
strcspn_loop fuel (suc k) m s reject count =
    let rest = strcspn_loop fuel k m (s + 1) reject (count + 1) in
    let test = (do p ← strchr fuel m reject (m s); if p == null then rest else some count) in
    if m s == 0 then some count else test

unfoldable pub strcspn : ℕ → Mem → Addr → Addr → Option ℕ
unfolding strcspn_loop strchr
strcspn fuel m s reject = strcspn_loop fuel fuel m s reject 0

strpbrk_loop : ℕ → ℕ → Mem → Addr → Addr → Option Addr
strpbrk_loop fuel zero m s accept = none
strpbrk_loop fuel (suc k) m s accept =
    let rest = strpbrk_loop fuel k m (s + 1) accept in
    let test = (do p ← strchr fuel m accept (m s); if p == null then rest else some s) in
    if m s == 0 then some null else test

unfoldable pub strpbrk : ℕ → Mem → Addr → Addr → Option Addr
unfolding strpbrk_loop strchr
strpbrk fuel m s accept = strpbrk_loop fuel fuel m s accept

-- What a tokeniser returns: the token, the new memory, and the pointer it saves for the next call.
pub record Token : Type 0 where
  pub start : Addr
  pub mem : Mem
  pub saved : Addr

abbrev pub token : Addr → Mem → Addr → Token
token p m s = record { start = p; mem = m; saved = s }

-- `stringp` is not null; the argument is `*stringp`.
unfoldable pub strsep : ℕ → Mem → Addr → Addr → Option Token
unfolding strpbrk
strsep fuel m start delim = if start == null then some (token null m start) else (do
  p ← strpbrk fuel m start delim
  if p == null then some (token start m null) else some (token start (write m p 0) (p + 1)))

-- The last argument is the static `saved`.
unfoldable pub strtok : ℕ → Mem → Addr → Addr → Addr → Option Token
unfolding strsep
strtok fuel m str delim saved = strsep fuel m (if str == null then saved else str) delim

-- The part of strtok_r behind the skipped delimiters.
token_from : ℕ → Mem → Addr → Addr → Option Token
unfolding strcspn
token_from fuel m s delim = if m s == 0 then some (token null m null) else (do
  len ← strcspn fuel m s delim
  let end = s + len
  if m end == 0 then some (token s m null) else some (token s (write m end 0) (end + 1)))

unfoldable pub strtok_r : ℕ → Mem → Addr → Addr → Addr → Option Token
unfolding strspn token_from
strtok_r fuel m str delim saveptr =
    let s = if str == null then saveptr else str in
    if s == null
    then some (token null m s)
    else (do skipped ← strspn fuel m s delim; token_from fuel m (s + skipped) delim)
