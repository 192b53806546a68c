-- ===== src/Dirent/Steady.antt =====
-- readdir on any buffer whose record lengths do not wrap round: it returns, and moves on.
use c_lite.Base.{
  ℕ, zero, suc, ◌+◌, ◌%◌, ◌^◌, ◌≤◌, ◌<◌, ◌≡◌, ◌≢◌, refl, sym, ◌∙◌, Bool, true, false, [], ◌∷◌,
  Option, none, some, ltb, ◌==◌, if◌then◌else◌, ltb→ge, ==→ne, arith,
}
use c_lite.Base.Int.{ℤ, pos, is_neg}
use c_lite.Text.{Bytes}
use c_lite.Syscall.{Os, World, Sys, syscall, word, buffer}
use c_lite.Syscall.Files.{open_file}
use c_lite.Syscall.Numbers.{sys_getdents}
use c_lite.Dirent.{
  Entry, Dir, uint_at, name_at, readdir_loop, read_buffer, at_index, readdir, filled_over, getdents,
  positive, fill_buffer, opendir,
}

-- The places of the records in the `len` bytes of a buffer: the first, and behind each record the next.
pub data IsPlace (b : ℕ → ℕ) (len : ℕ) : ℕ → Type 0 where
  start : IsPlace b len 0
  next : {p : ℕ} → IsPlace b len p → p + 8 ≤ len → IsPlace b len (p + uint_at b (p + 4))

-- The length of each record is below 2 GB.
abbrev pub IsSteady : (ℕ → ℕ) → ℕ → Type 0
IsSteady b len = (p : ℕ) → IsPlace b len p → p + 8 ≤ len → uint_at b (p + 4) < 2 ^ 31

-- What a call leaves: the end, or an entry, which lay in the buffer, with the index behind it.
unfoldable pub Moved : (ℕ → ℕ) → ℕ → ℕ → Option (Option Entry × ℕ) → Type 0
Moved b len p none = ⊥
Moved b len p (some (none, i)) = Unit
Moved b len p (some (some e, i)) = (p + 8 ≤ len) × (p < i) × (i + 8 < 2 ^ 32) × IsPlace b len i

if-Moved :
    (b : ℕ → ℕ) (len p : ℕ) (c : Bool) (m n : Option (Option Entry × ℕ))
    → (c ≡ true → Moved b len p m)
    → (c ≡ false → Moved b len p n)
    → Moved b len p (if c then m else n)
if-Moved b len p true m n h k = h refl
if-Moved b len p false m n h k = k refl

Moved-later :
    (b : ℕ → ℕ) (len p q : ℕ) (o : Option (Option Entry × ℕ))
    → p < q
    → Moved b len q o
    → Moved b len p o
unfolding Moved
Moved-later b len p q none lt h = h
Moved-later b len p q (some (none, i)) lt h = h
Moved-later b len p q (some (some e, i)) lt (inside, further, low, place) =
    (omega arith, omega arith, low, place)

ended-Moved : (b : ℕ → ℕ) (len p i : ℕ) → Moved b len p (some (none, i))
unfolding Moved
ended-Moved b len p i = tt

entry-Moved :
    (b : ℕ → ℕ) (len p i : ℕ) (e : Entry)
    → p + 8 ≤ len
    → p < i
    → i + 8 < 2 ^ 32
    → IsPlace b len i
    → Moved b len p (some (some e, i))
unfolding Moved
entry-Moved b len p i e inside further low place = (inside, further, low, place)

-- A round goes on by the length of a record.
next_place :
    (len p size : ℕ)
    → len ≤ 4096
    → p + 8 < 2 ^ 32
    → (p + 8 ≤ len → size < 2 ^ 31)
    → ltb len ((p + 8) % 2 ^ 32) ≡ false
    → (size == 0) ≡ false
    → (p + 8 ≤ len)
      × (p < (p + size) % 2 ^ 32)
      × ((p + size) % 2 ^ 32 + 8 < 2 ^ 32)
      × ((p + size) % 2 ^ 32 ≡ p + size)
next_place len p size fit low below inside nz =
    let same : (p + 8) % 2 ^ 32 ≡ p + 8 = omega arith in
    let le : p + 8 ≤ len = omega (arith, same, ltb→ge len ((p + 8) % 2 ^ 32) inside) in
    let ne : size ≢ 0 = ==→ne size 0 nz in
    let small : size < 2 ^ 31 = below le in
    let whole : (p + size) % 2 ^ 32 ≡ p + size = omega arith in
    (le, omega arith, omega arith, whole)

readdir_loop-Moved :
    (f : ℕ) (b : ℕ → ℕ) (len index p : ℕ)
    → IsSteady b len
    → IsPlace b len p
    → len ≤ 4096
    → p + 8 < 2 ^ 32
    → 0 < f
    → len < p + f
    → Moved b len p (readdir_loop f b len index p)
unfolding readdir_loop
readdir_loop-Moved zero b len index p steady place fit low some_fuel enough = absurd (omega arith)
readdir_loop-Moved (suc f) b len index p steady place fit low some_fuel enough =
    let size = uint_at b (p + 4) in
    let i : ℕ = (p + size) % 2 ^ 32 in
    if-Moved b len p _ _ _ (λ _. ended-Moved b len p _)
      (λ inside.
        if-Moved b len p _ _ _ (λ _. ended-Moved b len p _)
          (λ nz.
            let (le, lt, high, whole) = next_place len p size fit low (steady p place) inside nz in
            let further : IsPlace b len i = rw whole (next place le) in
            if-Moved b len p (b (p + 8) == 0) _ _
              (λ _. Moved-later b len p i _ lt (
                readdir_loop-Moved f b len i i steady further fit high (omega arith) (omega arith)))
              (λ _.
                entry-Moved b len p i
                  (record { d_ino = uint_at b p; d_name = name_at 255 b (p + 8) }) le lt high
                  further)))

-- A buffer of at most 4096 bytes, which is steady, and an index that is the place of a record and does
-- not wrap round.
pub record IsOrderly (d : Dir) : Type 0 where
  pub fit : d.buflen ≤ 4096
  pub steady : (b : ℕ → ℕ) → d.buf ≡ some b → IsSteady b d.buflen × IsPlace b d.buflen d.index
  pub low : d.index + 8 < 2 ^ 32

-- What readdir leaves: the end, or an entry and an orderly stream with a greater index.
unfoldable pub Advanced : Dir → Option (Option Entry × Dir) → Type 0
Advanced d none = ⊥
Advanced d (some (none, d')) = Unit
Advanced d (some (some e, d')) =
    (d.index + 8 ≤ d.buflen) × (d.index < d'.index) × (d'.buflen ≡ d.buflen) × IsOrderly d'

same_place : (b b' : ℕ → ℕ) (len i : ℕ) → some b ≡ some b' → IsPlace b len i → IsPlace b' len i
same_place b b' len i e place = let same : b ≡ b' = cc in rw (sym same) place

at_index-Advanced :
    (d : Dir) (b : ℕ → ℕ) (o : Option (Option Entry × ℕ))
    → d.buf ≡ some b
    → IsOrderly d
    → Moved b d.buflen d.index o
    → Advanced d (at_index d o)
unfolding Moved Advanced
at_index-Advanced d b none e h m = m
at_index-Advanced d b (some (none, i)) e h m = tt
at_index-Advanced d b (some (some entry, i)) e h (inside, further, low, place) = (
  inside,
  further,
  refl,
  record {
    fit = h.fit;
    steady = λ b' e'. ((h.steady b' e').0, same_place b b' d.buflen i (sym e ∙ e') place);
    low = low;
  },
)

read_buffer-Advanced :
    (f : ℕ) (d : Dir) (o : Option (ℕ → ℕ))
    → d.buf ≡ o
    → IsOrderly d
    → 0 < f
    → d.buflen < d.index + f
    → Advanced d (read_buffer f d o)
unfolding read_buffer
read_buffer-Advanced f d none e h some_fuel enough = unfold Advanced in tt
read_buffer-Advanced f d (some b) e h some_fuel enough =
    let (steady, place) = h.steady b e in
    at_index-Advanced d b _ e h
      (readdir_loop-Moved f b d.buflen d.index d.index steady place h.fit h.low some_fuel enough)

pub readdir-Advanced :
    (f : ℕ) (d : Dir) → IsOrderly d → 0 < f → d.buflen < d.index + f → Advanced d (readdir f d)
unfolding readdir
readdir-Advanced f d h some_fuel enough = read_buffer-Advanced f d d.buf refl h some_fuel enough

no_buffer : (b : ℕ → ℕ) → none ≡ some b → ⊥
no_buffer b e = cc

same_buffer : (b b' : ℕ → ℕ) (len : ℕ) → some b ≡ some b' → IsSteady b len → IsSteady b' len
same_buffer b b' len e steady = let same : b ≡ b' = cc in rw (sym same) steady

module _ (O : Os) (junk : ℕ → ℕ) where
  -- The kernel fills at most 4096 bytes of the buffer, with records whose lengths are below 2 GB.
  -- `junk` is what the buffer held before.
  unfoldable pub IsOrderlyKernel : Type 0
  IsOrderlyKernel =
      (fd : ℤ) (s : O.State)
      → let reply = (O.answer sys_getdents (word fd ∷ buffer true ∷ word (pos 4096) ∷ []) s).0 in
        (positive O reply.ret ≤ 4096)
        × IsSteady (filled_over reply.filled junk) (positive O reply.ret)

  -- A stream that opendir gives is at its first record.
  unfoldable pub IsOpened : Option Dir → Type 0
  IsOpened none = Unit
  IsOpened (some d) = IsOrderly d × (d.index ≡ 0)

  fill_buffer-IsOpened :
      (fd : ℤ) (name : Bytes) (b : Bool) (w : World O)
      → IsOrderlyKernel
      → IsOpened (fill_buffer O fd name (if b then some junk else none) w).0
  unfolding fill_buffer IsOpened getdents syscall IsOrderlyKernel
  fill_buffer-IsOpened fd name false w orderly = (
    record { fit = omega arith; steady = λ b e. absurd (no_buffer b e); low = omega arith },
    refl,
  )
  fill_buffer-IsOpened fd name true w orderly =
      let (fit, steady) = orderly fd w.os in
      (
        record {
          fit = fit;
          steady = λ b e. (same_buffer _ b _ e steady, start);
          low = omega arith;
        },
        refl,
      )

  either_stream :
      (c : Bool) (m n : Sys O (Option Dir)) (w : World O)
      → IsOpened (m w).0
      → IsOpened (n w).0
      → IsOpened ((if c then m else n) w).0
  either_stream true m n w h k = h
  either_stream false m n w h k = k

  pub opendir-IsOpened :
      (granted b : Bool) (name : Bytes) (w : World O)
      → IsOrderlyKernel
      → IsOpened (opendir O granted (if b then some junk else none) (some name) w).0
  unfolding opendir
  opendir-IsOpened granted b name w orderly =
      let (fd, w') = open_file O (some name) 0 0 w in
      either_stream (is_neg fd) _ _ w' (unfold IsOpened in tt) (
        either_stream granted _ _ w' (fill_buffer-IsOpened fd name b w' orderly)
          (unfold IsOpened in tt))
