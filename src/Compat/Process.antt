-- ===== src/Compat/Process.antt =====
-- The exec family, the sessions, the terminals and the limits of src/compat.c.
use c_lite.Base.{
  ℕ, ◌+◌, Bool, true, List, [], ◌∷◌, ◌++◌, Option, none, some, ltb, if◌then◌else◌, length,
}
use c_lite.Base.Int.{ℤ, pos, negsuc, is_zero}
use c_lite.Text.{Bytes, codes, has}
use c_lite.Stdlib.Env.{Environ}
use c_lite.Syscall.{Os, Sys, ◌>>=◌, pure, fail, minus_one, execve, getpid}
use c_lite.Syscall.Files.{stat}
use c_lite.Syscall.Exec.{execvp}
use c_lite.Syscall.Numbers.{enoent, enosys, enotty, erange, einval}

module _ (O : Os) where
  unfoldable pub execv : Environ → Bytes → List Bytes → Sys O ℤ
  unfolding execve
  execv environ path argv = execve O path argv environ

  -- The arguments before the null pointer. With more than 62 of them the array has none, and the call
  -- reads what it was not given: `none`.
  unfoldable pub execl : Environ → Bytes → List Bytes → Sys O (Option ℤ)
  unfolding execve
  execl environ path args =
      if ltb 62 (length args)
      then pure none
      else (do ret ← execve O path args environ; pure (some ret))

  unfoldable pub execlp : ℕ → Environ → Bytes → List Bytes → Sys O (Option ℤ)
  unfolding execvp
  execlp fuel environ file args =
      if ltb 62 (length args) then pure none else execvp O fuel environ (some file) args

  -- The path is tried where it fits in 256 bytes and stat finds it.
  unfoldable pub try_path : Bool → Bytes → List Bytes → Environ → Sys O ℤ → Sys O ℤ
  unfolding stat execve
  try_path fits_path path argv envp otherwise =
      if fits_path
      then (do
        found ← stat O (some path) true
        if is_zero found then execve O path argv envp else otherwise)
      else otherwise

  unfoldable pub execvpe : Option Bytes → List Bytes → Environ → Sys O ℤ
  unfolding execve try_path has
  execvpe none argv envp = fail enoent minus_one
  execvpe (some []) argv envp = fail enoent minus_one
  execvpe (some (c ∷ cs)) argv envp =
      if has b'/' (c ∷ cs)
      then execve O (c ∷ cs) argv envp
      else try_path (ltb (length (c ∷ cs) + 6) 256) (codes "/bin/" ++ c ∷ cs) argv envp (
          try_path (ltb (length (c ∷ cs) + 2) 256) (b'/' ∷ c ∷ cs) argv envp
            (execve O (c ∷ cs) argv envp))

  unfoldable pub setsid : Sys O ℤ
  unfolding getpid
  setsid = getpid O

  unfoldable pub getsid : ℤ → Sys O ℤ
  unfolding getpid
  getsid pid = if is_zero pid then getpid O else pure pid

  unfoldable pub getpgrp : Sys O ℤ
  unfolding getpid
  getpgrp = getpid O

  unfoldable pub getpgid : ℤ → Sys O ℤ
  unfolding getpid
  getpgid pid = if is_zero pid then getpid O else pure pid

  unfoldable pub chroot : Bytes → Sys O ℤ
  chroot path = fail enosys minus_one

  unfoldable pub fchdir : ℤ → Sys O ℤ
  fchdir fd = fail enosys minus_one

  -- The result, and the name that is copied to `buf`.
  unfoldable pub ttyname_r : ℤ → ℕ → Sys O (ℤ × Option Bytes)
  ttyname_r (negsuc n) buflen = fail enotty (pos enotty, none)
  ttyname_r (pos fd) buflen =
      if ltb 2 fd
      then fail enotty (pos enotty, none)
      else if ltb buflen (length (codes "/dev/console") + 1)
      then fail erange (pos erange, none)
      else pure (pos 0, some (codes "/dev/console"))

  unfoldable pub ttyname : ℤ → Sys O (Option Bytes)
  unfolding ttyname_r
  ttyname fd = do (ret, name) ← ttyname_r fd 32; pure (if is_zero ret then name else none)

  unfoldable pub gethostname : ℕ → Sys O (ℤ × Option Bytes)
  gethostname len =
      if ltb len (length (codes "litebsd") + 1)
      then fail einval (minus_one, none)
      else pure (pos 0, some (codes "litebsd"))
