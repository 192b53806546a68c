-- ===== src/Dirent/Listing.antt =====
-- readdir lists the records of the buffer.
use c_lite.Base.{
  ℕ, zero, suc, ◌+◌, ◌%◌, ◌^◌, ◌≤◌, ◌<◌, ◌≡◌, refl, sym, ap, ◌∙◌, inl, inr, Bool, true, false, List,
  [], ◌∷◌, Option, none, some, ltb, lt→ltb, ge→ltb, ◌==◌, ne→==, if◌then◌else◌, Bool-cases, length,
  arith,
}
use c_lite.Text.{Bytes}
use c_lite.Dirent.{Entry, Dir, uint_at, name_at, readdir_loop, read_buffer, at_index, readdir}

abbrev is_empty : Bytes → Bool
is_empty [] = true
is_empty (c ∷ cs) = false

-- The records of a buffer from an offset on: each is inside of the buffer, and has a length.
unfoldable pub Layout : (ℕ → ℕ) → ℕ → ℕ → List Entry → Type 0
Layout b len p [] = (p ≤ len) × (len < p + 8)
Layout b len p (e ∷ es) =
    (p + 8 ≤ len)
    × (uint_at b p ≡ e.d_ino)
    × (name_at 255 b (p + 8) ≡ e.d_name)
    × (0 < uint_at b (p + 4))
    × (p + uint_at b (p + 4) ≤ len)
    × Layout b len (p + uint_at b (p + 4)) es

-- The first record with a name, and the records after it.
unfoldable pub first_named : List Entry → Option Entry
first_named [] = none
first_named (e ∷ es) = if is_empty e.d_name then first_named es else some e

unfoldable pub after_named : List Entry → List Entry
after_named [] = []
after_named (e ∷ es) = if is_empty e.d_name then after_named es else es

is_empty-name_at : (n : ℕ) (b : ℕ → ℕ) (p : ℕ) → is_empty (name_at (suc n) b p) ≡ (b p == 0)
unfolding name_at
is_empty-name_at n b p = elim (Bool-cases (b p == 0)) [
  | inl nul ↦ rw nul refl
  | inr byte ↦ rw byte refl
]

small : (n : ℕ) → n ≤ 4104 → n % 2 ^ 32 ≡ n
small n h = omega arith

readdir_loop-Layout :
    (b : ℕ → ℕ) (len : ℕ) (es : List Entry) (f p : ℕ)
    → len ≤ 4096
    → length es < f
    → Layout b len p es
    → (i : ℕ) × (readdir_loop f b len p p ≡ some (first_named es, i))
      × Layout b len i (after_named es)
unfolding readdir_loop first_named after_named Layout
readdir_loop-Layout b len es zero p fit enough h = absurd (omega arith)
readdir_loop-Layout b len [] (suc f) p fit enough (low, high) =
    (p, rw (small (p + 8) (omega arith), lt→ltb len (p + 8) high) refl, (low, high))
readdir_loop-Layout b len (e ∷ es) (suc f) p fit enough
      (inside, ino, name, some_length, end, more) =
    let go_on : ltb len (p + 8) ≡ false = ge→ltb len (p + 8) inside in
    let more_than_none : (uint_at b (p + 4) == 0) ≡ false = ne→== _ 0 (omega arith) in
    let named : is_empty e.d_name ≡ (b (p + 8) == 0) =
      ap is_empty (sym name) ∙ is_empty-name_at 254 b (p + 8) in
    elim (Bool-cases (b (p + 8) == 0)) [
      | inl nul ↦
          let (i, result, rest) =
            readdir_loop-Layout b len es f (p + uint_at b (p + 4)) fit (omega arith) more in
          (
            i,
            rw
                (
                  small (p + 8) (omega arith),
                  go_on,
                  more_than_none,
                  small (p + uint_at b (p + 4)) (omega arith),
                  named,
                  nul,
                )
                result,
            rw (named, nul) rest,
          )
      | inr byte ↦ (
        p + uint_at b (p + 4),
        rw
            (
              small (p + 8) (omega arith),
              go_on,
              more_than_none,
              small (p + uint_at b (p + 4)) (omega arith),
              named,
              byte,
              ino,
              name,
            )
            refl,
        rw (named, byte) more,
      )
    ]

at_buffer :
    (fuel : ℕ) (d : Dir) (b : ℕ → ℕ) (o : Option (ℕ → ℕ))
    → o ≡ some b
    → read_buffer fuel d o ≡ at_index d (readdir_loop fuel b d.buflen d.index d.index)
unfolding read_buffer
at_buffer fuel d b o h = rw h refl

-- A directory stream whose buffer of at most 4096 bytes holds records from the index on: with more
-- fuel than there are records, readdir returns the first record with a name, or NULL where there is
-- none, and leaves the index at the records after it.
pub readdir-Layout :
    (d : Dir) (b : ℕ → ℕ) (es : List Entry) (fuel : ℕ)
    → d.buf ≡ some b
    → d.buflen ≤ 4096
    → length es < fuel
    → Layout b d.buflen d.index es
    → (i : ℕ) × (readdir fuel d ≡ some (first_named es, record d { index = i }))
      × Layout b d.buflen i (after_named es)
unfolding readdir
readdir-Layout d b es fuel filled fit enough h =
    let (i, result, rest) = readdir_loop-Layout b d.buflen es fuel d.index fit enough h in
    (i, at_buffer fuel d b d.buf filled ∙ ap (at_index d) result, rest)
