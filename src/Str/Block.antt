-- ===== src/Str/Block.antt =====
-- The mem* functions of src/string.c, and memrchr and memmem of src/compat.c: blocks of `n` bytes.
-- The proofs are in the modules below.
-- A byte argument `int c` is its 32-bit pattern, and a loop counts its rounds.
pub mod Moves
pub mod Search
use c_lite.Base.{ℕ, zero, suc, ◌+◌, ◌-◌, ◌%◌, ltb, ◌==◌, if◌then◌else◌}
use c_lite.Base.Int.{ℤ, pos, sub_ℕ, is_zero}
use c_lite.Memory.{Addr, null, Mem, write}

-- `(unsigned char)c`
abbrev pub byte : ℕ → ℕ
byte c = c % 256

-- for (i = i; n rounds; i++) d[i] = s[i];
copy_up : ℕ → ℕ → Addr → Addr → Mem → Mem
copy_up zero i d s m = m
copy_up (suc n) i d s m = copy_up n (i + 1) d s (write m (d + i) (m (s + i)))

-- for (i = n; i > 0; i--) d[i - 1] = s[i - 1];
copy_down : ℕ → Addr → Addr → Mem → Mem
copy_down zero d s m = m
copy_down (suc i) d s m = copy_down i d s (write m (d + i) (m (s + i)))

-- A function that returns `dest` returns it beside the new memory.
unfoldable pub memcpy : Mem → Addr → Addr → ℕ → Mem × Addr
unfolding copy_up
memcpy m dest src n = (copy_up n 0 dest src m, dest)

unfoldable pub mempcpy : Mem → Addr → Addr → ℕ → Mem × Addr
unfolding memcpy
mempcpy m dest src n = let (m', d) = memcpy m dest src n in (m', d + n)

unfoldable pub memmove : Mem → Addr → Addr → ℕ → Mem × Addr
unfolding copy_up copy_down
memmove m dest src n =
    if ltb dest src
    then (copy_up n 0 dest src m, dest)
    else if ltb src dest
    then (copy_down n dest src m, dest)
    else (m, dest)

fill : ℕ → ℕ → Addr → ℕ → Mem → Mem
fill zero i s c m = m
fill (suc n) i s c m = fill n (i + 1) s c (write m (s + i) (byte c))

unfoldable pub memset : Mem → Addr → ℕ → ℕ → Mem × Addr
unfolding fill
memset m s c n = (fill n 0 s c m, s)

memcmp_loop : ℕ → ℕ → Mem → Addr → Addr → ℤ
memcmp_loop zero i m a b = pos 0
memcmp_loop (suc n) i m a b =
    let rest = memcmp_loop n (i + 1) m a b in
    if m (a + i) == m (b + i) then rest else sub_ℕ (m (a + i)) (m (b + i))

unfoldable pub memcmp : Mem → Addr → Addr → ℕ → ℤ
unfolding memcmp_loop
memcmp m a b n = memcmp_loop n 0 m a b

memchr_loop : ℕ → ℕ → Mem → Addr → ℕ → Addr
memchr_loop zero i m p c = null
memchr_loop (suc n) i m p c =
    let rest = memchr_loop n (i + 1) m p c in if m (p + i) == byte c then p + i else rest

unfoldable pub memchr : Mem → Addr → ℕ → ℕ → Addr
unfolding memchr_loop
memchr m s c n = memchr_loop n 0 m s c

-- for (i = n; i > 0; i--), the last match first
unfoldable pub memrchr : Mem → Addr → ℕ → ℕ → Addr
memrchr m p c zero = null
memrchr m p c (suc i) = let rest = memrchr m p c i in if m (p + i) == byte c then p + i else rest

-- The rounds left count the starts `i` with `i + needlelen <= haystacklen`.
memmem_loop : ℕ → ℕ → Mem → Addr → Addr → ℕ → Addr
memmem_loop zero i m h n len = null
memmem_loop (suc k) i m h n len =
    let rest = memmem_loop k (i + 1) m h n len in
    if is_zero (memcmp m (h + i) n len) then h + i else rest

unfoldable pub memmem : Mem → Addr → ℕ → Addr → ℕ → Addr
unfolding memmem_loop memcmp
memmem m haystack haystacklen needle needlelen =
    if needlelen == 0
    then haystack
    else if ltb haystacklen needlelen
    then null
    else memmem_loop (haystacklen - needlelen + 1) 0 m haystack needle needlelen
