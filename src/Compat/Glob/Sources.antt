-- ===== src/Compat/Glob/Sources.antt =====
-- What glob leaves in its glob_t.
use c_lite.Base.{ℕ, zero, suc, ◌<◌, ◌≤◌, ◌≡◌, ◌⊎◌, true, false, List, ◌∷◌, none, some, length}
use c_lite.Text.{Bytes}
use c_lite.Syscall.{Os}
use c_lite.Compat.Glob.{glob_has_meta, glob_unescape_to, components}
use c_lite.Compat.Glob.Walk.{Work, Job}
use c_lite.Compat.Glob.Keeps.{Every, Keeps}
use c_lite.Compat.Glob.Found.{Expands, root_of}
use c_lite.Compat.Glob.Call.{GlobFlags, Glob, Globbed, returned, writes_past, no_fuel, seeds}

pub data IsIn (x : Bytes) : List Bytes → Type 0 where
  here : {xs : List Bytes} → IsIn x (x ∷ xs)
  there : {y : Bytes} {xs : List Bytes} → IsIn x xs → IsIn x (y ∷ xs)

-- Where a path comes from: the results before, the pattern without its escapes where it has no
-- special byte or GLOB_NOCHECK is set, or the walk along its components.
pub data Source (fl : GlobFlags) (pattern : Bytes) (g : Glob) (path : Bytes) : Type 0 where
  before : IsIn path (seeds fl g) → Source fl pattern g path
  itself :
      path ≡ glob_unescape_to fl.noescape pattern
      → (glob_has_meta fl.noescape pattern ≡ false) ⊎ (fl.nocheck ≡ true)
      → Source fl pattern g path
  walked :
      glob_has_meta fl.noescape pattern ≡ true
      → Expands fl pattern (components fl.noescape pattern) (root_of pattern) path
      → Source fl pattern g path

-- A result of 0 comes with at least one path, their number, and a source for each. Any other result
-- comes with the glob_t as it was, or without an array. The buffer is overrun only by a pattern that is too long for it.
unfoldable pub IsListed : GlobFlags → Bytes → Glob → Globbed → Type 0
IsListed fl pattern g (returned zero g') =
    (paths : List Bytes) × (g'.gl_pathv ≡ some paths)
    × (g'.gl_pathc ≡ length paths)
    × (0 < length paths)
    × Every (Source fl pattern g) paths
IsListed fl pattern g (returned (suc r) g') = (g' ≡ g) ⊎ (g'.gl_pathv ≡ none)
IsListed fl pattern g writes_past = 1024 ≤ length (glob_unescape_to fl.noescape pattern)
IsListed fl pattern g no_fuel = ⊥

module _ (O : Os) (junk : ℕ → ℕ) (fl : GlobFlags) (pattern : Bytes) (g : Glob) where
  abbrev From : Bytes → Type 0
  From = Source fl pattern g

  -- The jobs behind done:.
  unfoldable Lists : Job O junk Globbed → Type 0
  Lists m = (w : Work O junk) → IsListed fl pattern g (m w).0
