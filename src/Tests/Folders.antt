-- ===== src/Tests/Folders.antt =====
-- Runs of readdir and of the signal functions.
use c_lite.Base.{ℕ, ◌≡◌, refl, List, [], ◌∷◌, some, get_or, arith}
use c_lite.Base.Int.{pos}
use c_lite.Text.{Bytes}
use c_lite.Dirent.{Entry, Dir, uint_at, name_at, readdir}
use c_lite.Dirent.Listing.{Layout, first_named, after_named, readdir-Layout}
use c_lite.Signal.{Word, Handlers, bit, sigaddset, sigdelset}
use c_lite.Signal.Sets.{signals, sigismember-sigaddset}

-- A record without a name, and one with the name "a".
abbrev records : Bytes
records =
    5 ∷ 0 ∷ 0 ∷ 0 ∷ 12 ∷ 0 ∷ 0 ∷ 0 ∷ 0 ∷ 0 ∷ 0 ∷ 0 ∷ 7 ∷ 0 ∷ 0 ∷ 0 ∷ 12 ∷ 0 ∷ 0 ∷ 0 ∷ 97 ∷ 0 ∷ 0 ∷ 0
    ∷ []

abbrev byte_at : ℕ → ℕ
byte_at i = get_or records i 0

abbrev folder : Dir
folder = record { fd = pos 3; index = 0; buflen = 24; buf = some byte_at; path = b'/' ∷ [] }

abbrev entries : List Entry
entries = record { d_ino = 5; d_name = [] } ∷ record { d_ino = 7; d_name = 97 ∷ [] } ∷ []

folder-Layout : Layout byte_at 24 0 entries
unfolding Layout uint_at name_at
folder-Layout = (
  omega arith,
  refl,
  refl,
  omega arith,
  omega arith,
  (omega arith, refl, refl, omega arith, omega arith, (omega arith, omega arith)),
)

readdir-Layout_example :
    (i : ℕ) × (readdir 3 folder ≡ some (first_named entries, record folder { index = i }))
    × Layout byte_at 24 i (after_named entries)
readdir-Layout_example =
    readdir-Layout folder byte_at entries 3 refl (omega arith) (omega arith) folder-Layout

abbrev only_two : Word
only_two = bit 1

sigismember-sigaddset_example :
    (signals (sigaddset (some only_two) (pos 5)).1 4 ≡ pos 1)
    × (signals (sigdelset (some only_two) (pos 5)).1 4 ≡ pos 0)
sigismember-sigaddset_example = sigismember-sigaddset only_two 4 4 (omega arith) (omega arith)

abbrev defaults : Handlers
defaults signum = 0
