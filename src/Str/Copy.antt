-- ===== src/Str/Copy.antt =====
-- The functions of src/string.c (and stpncpy of src/compat.c) that measure and copy C strings.
-- A loop that ends at a NUL runs on fuel, and `none` means that the fuel ran out.
-- A function that returns a pointer returns it beside the new memory.
pub mod Copies
pub mod Bounded
use c_lite.Base.{ℕ, zero, suc, ◌+◌, ◌-◌, Option, none, some, ltb, ◌==◌, if◌then◌else◌, ◌>>=◌}
use c_lite.Memory.{Addr, Mem, write}

strlen_loop : ℕ → Mem → Addr → ℕ → Option ℕ
strlen_loop zero m s len = none
strlen_loop (suc k) m s len =
    let rest = strlen_loop k m s (len + 1) in if m (s + len) == 0 then some len else rest

unfoldable pub strlen : ℕ → Mem → Addr → Option ℕ
unfolding strlen_loop
strlen fuel m s = strlen_loop fuel m s 0

strnlen_loop : ℕ → Mem → Addr → ℕ → ℕ
strnlen_loop zero m s len = len
strnlen_loop (suc n) m s len =
    let rest = strnlen_loop n m s (len + 1) in if m (s + len) == 0 then len else rest

unfoldable pub strnlen : Mem → Addr → ℕ → ℕ
unfolding strnlen_loop
strnlen m s maxlen = strnlen_loop maxlen m s 0

-- while (*src) *d++ = *src++; with the final `d`
pub copy_loop : ℕ → Mem → Addr → Addr → Option (Mem × Addr)
copy_loop zero m d src = none
copy_loop (suc k) m d src =
    let rest = copy_loop k (write m d (m src)) (d + 1) (src + 1) in
    if m src == 0 then some (m, d) else rest

unfoldable pub strcpy : ℕ → Mem → Addr → Addr → Option (Mem × Addr)
unfolding copy_loop
strcpy fuel m dest src = do (m', d) ← copy_loop fuel m dest src; some (write m' d 0, dest)

unfoldable pub stpcpy : ℕ → Mem → Addr → Addr → Option (Mem × Addr)
unfolding copy_loop
stpcpy fuel m dest src = do (m', d) ← copy_loop fuel m dest src; some (write m' d 0, d)

-- while (*d) d++;
skip_loop : ℕ → Mem → Addr → Option Addr
skip_loop zero m d = none
skip_loop (suc k) m d = let rest = skip_loop k m (d + 1) in if m d == 0 then some d else rest

unfoldable pub strcat : ℕ → Mem → Addr → Addr → Option (Mem × Addr)
unfolding copy_loop skip_loop
strcat fuel m dest src = do
  d ← skip_loop fuel m dest
  (m', e) ← copy_loop fuel m d src
  some (write m' e 0, dest)

-- while (i < n && *src) { *d++ = *src++; i++; }, on the rounds left
copy_at_most : ℕ → Mem → Addr → Addr → Mem × Addr
copy_at_most zero m d src = (m, d)
copy_at_most (suc n) m d src =
    let rest = copy_at_most n (write m d (m src)) (d + 1) (src + 1) in
    if m src == 0 then (m, d) else rest

unfoldable pub strncat : ℕ → Mem → Addr → Addr → ℕ → Option (Mem × Addr)
unfolding copy_at_most skip_loop
strncat fuel m dest src n = do
  d ← skip_loop fuel m dest
  let (m', e) = copy_at_most n m d src
  some (write m' e 0, dest)

-- for (i = 0; i < n && src[i] != '\0'; i++) dest[i] = src[i]; with the final `i`
copy_indexed : ℕ → ℕ → Mem → Addr → Addr → Mem × ℕ
copy_indexed zero i m d s = (m, i)
copy_indexed (suc n) i m d s =
    let rest = copy_indexed n (i + 1) (write m (d + i) (m (s + i))) d s in
    if m (s + i) == 0 then (m, i) else rest

-- for (; i < n; i++) dest[i] = '\0'; on the rounds left
pad : ℕ → ℕ → Mem → Addr → Mem
pad zero i m d = m
pad (suc n) i m d = pad n (i + 1) (write m (d + i) 0) d

unfoldable pub strncpy : Mem → Addr → Addr → ℕ → Mem × Addr
unfolding copy_indexed pad
strncpy m dest src n = let (m', i) = copy_indexed n 0 m dest src in (pad (n - i) i m' dest, dest)

-- The result is computed on the memory that the copy has left.
unfoldable pub stpncpy : Mem → Addr → Addr → ℕ → Mem × Addr
unfolding copy_indexed pad strnlen
stpncpy m dest src n =
    let (m', i) = copy_indexed n 0 m dest src in
    let m'' = pad (n - i) i m' dest in
    (m'', dest + (if ltb (strnlen m'' src n) n then strnlen m'' src n else n))
