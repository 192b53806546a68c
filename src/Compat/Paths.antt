-- ===== src/Compat/Paths.antt =====
-- dirname, basename and realpath of src/compat.c.
pub mod Split
pub mod Collapse
use c_lite.Base.{
  ℕ, zero, suc, ◌+◌, ◌-◌, Bool, true, false, not, ◌&&◌, ◌||◌, List, [], ◌∷◌, ◌++◌, Option, none,
  some, ltb, leb, ◌==◌, if◌then◌else◌, length, take, drop, get_or,
}
use c_lite.Base.Int.{ℤ}
use c_lite.Text.{Bytes, first, rest_of}
use c_lite.Stdio.Output.{up_to_nul}
use c_lite.Syscall.{Os, Sys, ◌>>=◌, pure, fail}
use c_lite.Syscall.Files.{getcwd}
use c_lite.Syscall.Numbers.{einval, enametoolong}

-- while (len > 1 && path[len - 1] == '/') len--;
unfoldable pub strip : ℕ → Bytes → ℕ
strip zero path = 0
strip (suc n) path =
    let shorter = strip n path in if leb 1 n && get_or path n 0 == b'/' then shorter else suc n

-- The place behind the last slash among the first `end` bytes, or 0.
unfoldable pub start_of : ℕ → Bytes → ℕ
start_of zero path = 0
start_of (suc n) path =
    let before = start_of n path in if get_or path n 0 == b'/' then suc n else before

-- `last` of dirname is the byte before `start`.
unfoldable pub directory : Bytes → ℕ → Bytes
directory buf start =
    if start == 0 then b'.' ∷ [] else if start == 1 then b'/' ∷ [] else take (start - 1) buf

-- dirname of a path in `buf`.
unfoldable pub dir_of : Bytes → Bytes
unfolding directory strip start_of
dir_of buf = let len = strip (length buf) buf in directory (take len buf) (start_of len buf)

unfoldable pub dirname : Option Bytes → Bytes
unfolding dir_of
dirname none = b'.' ∷ []
dirname (some []) = b'.' ∷ []
dirname (some (c ∷ cs)) = dir_of (take 1023 (c ∷ cs))

unfoldable pub base : Bytes → Bytes
base [] = b'/' ∷ []
base (c ∷ cs) = take 1023 (c ∷ cs)

-- basename of a path.
unfoldable pub base_of : Bytes → Bytes
unfolding strip start_of base
base_of path = let len = strip (length path) path in base (drop (start_of len path) (take len path))

unfoldable pub basename : Option Bytes → Bytes
unfolding base_of
basename none = b'.' ∷ []
basename (some []) = b'.' ∷ []
basename (some (c ∷ cs)) = base_of (c ∷ cs)

-- At "//", and at "/." before a slash or the end.
abbrev pub at_double : ℕ → Bytes → Bool
at_double c cs = c == b'/' && first cs == b'/'

abbrev pub at_dot : ℕ → Bytes → Bool
at_dot c cs =
    c == b'/' && first cs == b'.' && (first (rest_of cs) == b'/' || first (rest_of cs) == 0)

abbrev pub put_first : ℕ → Option Bytes → Option Bytes
put_first c none = none
put_first c (some cs) = some (c ∷ cs)

-- The loop over `tmp`, with room for so many bytes in `out`. One unit of fuel is one round.
unfoldable pub collapse : ℕ → ℕ → Bytes → Option Bytes
collapse zero room tmp = none
collapse (suc f) room [] = some []
collapse (suc f) room (c ∷ cs) =
    let skip_one = collapse f room cs in
    let skip_two = collapse f room (rest_of cs) in
    let keep = put_first c (collapse f (room - 1) cs) in
    if room == 0
    then some []
    else if at_double c cs
    then skip_one
    else if at_dot c cs
    then skip_two
    else keep

-- An empty path is the root.
abbrev pub or_root : Option Bytes → Option Bytes
or_root none = none
or_root (some []) = some (b'/' ∷ [])
or_root (some (c ∷ cs)) = some (c ∷ cs)

module _ (O : Os) where
  -- tmp, or a null pointer.
  unfoldable pub absolute : Bytes → Sys O (Option Bytes)
  unfolding getcwd up_to_nul
  absolute path =
      if first path == b'/'
      then pure (some (take 1023 path))
      else (do cwd ← getcwd O 1024; joined path cwd)
    where
      joined : Bytes → Option Bytes → Sys O (Option Bytes)
      joined path none = pure none
      joined path (some cwd) =
          if ltb 1024 (length (up_to_nul cwd) + 1 + length path + 1)
          then fail enametoolong none
          else pure (some (up_to_nul cwd ++ b'/' ∷ path))

  -- The inner `none` is a null pointer, the outer one the end of the fuel. Where `resolved_path` is
  -- null, the result is a copy, for which malloc may give no block.
  unfoldable pub realpath : ℕ → Bool → Bool → Option Bytes → Sys O (Option (Option Bytes))
  unfolding absolute collapse
  realpath fuel granted resolved none = fail einval (some none)
  realpath fuel granted resolved (some path) = do tmp ← absolute path; pure (outcome fuel tmp)
    where
      handed : Option Bytes → Option (Option Bytes)
      handed none = none
      handed (some out) = some (if resolved || granted then some out else none)

      outcome : ℕ → Option Bytes → Option (Option Bytes)
      outcome fuel none = some none
      outcome fuel (some tmp) = handed (or_root (collapse fuel 1023 tmp))
