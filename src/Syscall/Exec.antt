-- ===== src/Syscall/Exec.antt =====
-- execvp of src/syscall.c: the search for a program along PATH.
pub mod Search
use c_lite.Base.{
  ℕ, zero, suc, ◌+◌, Bool, true, false, not, ◌&&◌, List, [], ◌∷◌, ◌++◌, Option, none, some, ltb,
  ◌==◌, if◌then◌else◌, length,
}
use c_lite.Base.Int.{ℤ, pos, is_zero, is_neg}
use c_lite.Text.{Bytes, has, rest_of}
use c_lite.Stdlib.Env.{Environ, getenv}
use c_lite.Syscall.{Os, Sys, ◌>>=◌, pure, fail, minus_one, execve}
use c_lite.Syscall.Files.{access}
use c_lite.Syscall.Numbers.{enoent}

-- "PATH" and "/bin:/sbin:/usr/bin:/usr/sbin"
abbrev pub path_name : Bytes
path_name = b'P' ∷ b'A' ∷ b'T' ∷ b'H' ∷ []

abbrev pub default_path : Bytes
default_path =
    b'/' ∷ b'b' ∷ b'i' ∷ b'n' ∷ b':' ∷ b'/' ∷ b's' ∷ b'b' ∷ b'i' ∷ b'n' ∷ b':' ∷ b'/' ∷ b'u' ∷ b's'
    ∷ b'r' ∷ b'/' ∷ b'b' ∷ b'i' ∷ b'n' ∷ b':' ∷ b'/' ∷ b'u' ∷ b's' ∷ b'r' ∷ b'/' ∷ b's' ∷ b'b'
    ∷ b'i' ∷ b'n' ∷ []

-- The bytes from `p` to `end`, and those from `end`.
unfoldable pub entry : Bytes → Bytes
entry [] = []
entry (c ∷ cs) = if c == b':' then [] else c ∷ entry cs

unfoldable pub end_of_entry : Bytes → Bytes
end_of_entry [] = []
end_of_entry (c ∷ cs) = if c == b':' then c ∷ cs else end_of_entry cs

-- What is put together in `buf`, which has 256 bytes.
unfoldable pub candidate : Bytes → Bytes → Bytes
candidate [] file = b'.' ∷ b'/' ∷ file
candidate (c ∷ cs) file = (c ∷ cs) ++ b'/' ∷ file

abbrev pub fits_buffer : Bytes → Bytes → Bool
fits_buffer dir file = ltb (length dir + length file + 2) 256

-- The value of PATH, or the default.
abbrev pub path_of : Option Bytes → Bytes
path_of none = default_path
path_of (some path) = path

module _ (O : Os) where
  -- One round: `some` is a return from execvp.
  unfoldable pub try_entry : Environ → Bytes → List Bytes → Bytes → Sys O (Option ℤ)
  unfolding access execve candidate
  try_entry environ file argv dir =
      if fits_buffer dir file
      then (do
        found ← access O (some (candidate dir file)) 0
        if is_zero found
            then (do ret ← execve O (candidate dir file) argv environ; pure (some ret))
            else pure none)
      else pure none

  -- while (*p): one unit of fuel is one round, and `none` means that the fuel ran out.
  unfoldable pub path_loop : ℕ → Environ → Bytes → List Bytes → Bytes → Sys O (Option ℤ)
  unfolding try_entry entry end_of_entry
  path_loop zero environ file argv p w = (none, w)
  path_loop (suc f) environ file argv [] w = fail enoent (some minus_one) w
  path_loop (suc f) environ file argv (c ∷ cs) w =
      let (ret, w') = try_entry environ file argv (entry (c ∷ cs)) w in
      let later = path_loop f environ file argv (rest_of (end_of_entry (c ∷ cs))) w' in
      elim ret [ none ↦ later | some r ↦ (some r, w') ]

  unfoldable pub execvp : ℕ → Environ → Option Bytes → List Bytes → Sys O (Option ℤ)
  unfolding execve path_loop getenv has
  execvp fuel environ none argv = fail enoent (some minus_one)
  execvp fuel environ (some []) argv = fail enoent (some minus_one)
  execvp fuel environ (some (c ∷ cs)) argv =
      if has b'/' (c ∷ cs)
      then (do
        r ← execve O (c ∷ cs) argv environ
        if is_neg r then fail enoent (some r) else pure (some r))
      else path_loop fuel environ (c ∷ cs) argv (path_of (getenv environ (some path_name)))
