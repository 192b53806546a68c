-- ===== src/Tests/Paths.antt =====
-- Runs of the path functions.
use c_lite.Base.{ℕ, ◌≡◌, refl, true, false, List, [], ◌∷◌, some, arith}
use c_lite.Base.Int.{pos}
use c_lite.Text.{Bytes, codes, has}
use c_lite.Compat.Paths.{dirname, basename, realpath}
use c_lite.Compat.Paths.Split.{dirname-basename}
use c_lite.Compat.Paths.Collapse.{slashed, kept, rooted, AreComponents, realpath-kept}
use c_lite.Syscall.{Os, World}

dirname-basename_example :
    (dirname (some (codes "/usr/lib")) ≡ codes "/usr")
    × (basename (some (codes "/usr/lib")) ≡ codes "lib")
unfolding has
dirname-basename_example =
    dirname-basename b'/' (codes "usr") (codes "lib") refl (omega arith) (omega arith)

abbrev silent : Os
silent = record { State = ℕ; answer = λ number args n. (record { ret = pos 0; filled = [] }, n) }

abbrev silent_world : World silent
silent_world = record { os = 0; errno = 0 }

-- "/a//b/./c/"
abbrev parts : List Bytes
parts = codes "a" ∷ [] ∷ codes "b" ∷ codes "." ∷ codes "c" ∷ [] ∷ []

parts-AreComponents : AreComponents parts
unfolding AreComponents has
parts-AreComponents =
    (refl, refl, (refl, refl, (refl, refl, (refl, refl, (refl, refl, (refl, refl, tt))))))

realpath-kept_example :
    realpath silent 20 true false (some (slashed parts)) silent_world
    ≡ (some (some (rooted (kept parts))), silent_world)
unfolding slashed
realpath-kept_example =
    realpath-kept silent 20 true false (codes "a")
      ([] ∷ codes "b" ∷ codes "." ∷ codes "c" ∷ [] ∷ []) silent_world parts-AreComponents
      (omega arith) (omega arith) refl

realpath_run : rooted (kept parts) ≡ codes "/a/b/c/"
unfolding kept
realpath_run = refl
