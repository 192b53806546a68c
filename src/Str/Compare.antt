-- ===== src/Str/Compare.antt =====
-- The comparisons of C strings of src/string.c, and strverscmp of src/compat.c.
pub mod Order
use c_lite.Base.{ℕ, zero, suc, ◌+◌, Option, none, some, not, ◌&&◌, ◌||◌, ◌==◌, if◌then◌else◌}
use c_lite.Base.Int.{ℤ, pos, sub_ℕ}
use c_lite.Ctype.{tolower}
use c_lite.Memory.{Addr, Mem}

unfoldable pub strcmp : ℕ → Mem → Addr → Addr → Option ℤ
strcmp zero m a b = none
strcmp (suc k) m a b =
    let rest = strcmp k m (a + 1) (b + 1) in
    if not (m a == 0) && m a == m b then rest else some (sub_ℕ (m a) (m b))

strncmp_loop : ℕ → ℕ → Mem → Addr → Addr → ℤ
strncmp_loop zero i m a b = pos 0
strncmp_loop (suc n) i m a b =
    let rest = strncmp_loop n (i + 1) m a b in
    if not (m (a + i) == m (b + i)) || m (a + i) == 0 then sub_ℕ (m (a + i)) (m (b + i)) else rest

unfoldable pub strncmp : Mem → Addr → Addr → ℕ → ℤ
unfolding strncmp_loop
strncmp m a b n = strncmp_loop n 0 m a b

unfoldable pub strcasecmp : ℕ → Mem → Addr → Addr → Option ℤ
strcasecmp zero m a b = none
strcasecmp (suc k) m a b =
    let rest = strcasecmp k m (a + 1) (b + 1) in
    if not (m a == 0) && tolower (m a) == tolower (m b)
    then rest
    else some (sub_ℕ (tolower (m a)) (tolower (m b)))

strncasecmp_loop : ℕ → ℕ → Mem → Addr → Addr → ℤ
strncasecmp_loop zero i m a b = pos 0
strncasecmp_loop (suc n) i m a b =
    let rest = strncasecmp_loop n (i + 1) m a b in
    let c = tolower (m (a + i)) in
    let d = tolower (m (b + i)) in if not (c == d) || m (a + i) == 0 then sub_ℕ c d else rest

unfoldable pub strncasecmp : Mem → Addr → Addr → ℕ → ℤ
unfolding strncasecmp_loop
strncasecmp m a b n = strncasecmp_loop n 0 m a b

unfoldable pub strverscmp : ℕ → Mem → Addr → Addr → Option ℤ
unfolding strcmp
strverscmp fuel m a b = strcmp fuel m a b
