-- ===== src/Stdlib/Atexit.antt =====
-- atexit of src/stdlib.c: the table of functions, by their addresses.
use c_lite.Base.{ℕ, ◌||◌, List, [], ◌∷◌, ◌++◌, leb, ◌==◌, if◌then◌else◌, length}
use c_lite.Base.Int.{ℤ, pos, negsuc}

abbrev pub max_atexit : ℕ
max_atexit = 32

unfoldable pub atexit : List ℕ → ℕ → ℤ × List ℕ
atexit funcs function =
    if leb max_atexit (length funcs) || function == 0
    then (negsuc 0, funcs)
    else (pos 0, funcs ++ function ∷ [])
