-- ===== src/Syscall.antt =====
-- The wrappers of src/syscall.c. The kernel behind `int $0x80` is a parameter: a call is given its
-- number and arguments, and answers with a number and the bytes that it wrote to a buffer.
pub mod Numbers
pub mod Files
pub mod Exec
pub mod Stat
use c_lite.Base.{
  ℕ, zero, suc, ◌+◌, Bool, true, false, not, ◌&&◌, ◌||◌, List, [], ◌∷◌, Option, none, some, leb,
  ltb, ◌==◌, if◌then◌else◌,
}
use c_lite.Base.Int.{ℤ, pos, negsuc, is_zero, is_neg}
use c_lite.Text.{Bytes}
use c_lite.Syscall.Numbers.*

-- An argument of a call: a number, a string or null, an array of strings or null, bytes to be written,
-- a pair of times or null, and a buffer to be filled, which may be null.
pub data Arg : Type 0 where
  word : ℤ → Arg
  string : Option Bytes → Arg
  strings : Option (List Bytes) → Arg
  bytes : Bytes → Arg
  times : Option (List (ℤ × ℤ)) → Arg
  buffer : Bool → Arg

pub record Reply : Type 0 where
  pub ret : ℤ
  pub filled : Bytes

pub record Os : Type 1 where
  pub State : Type 0
  pub answer : ℕ → List Arg → State → Reply × State

abbrev pub minus_one : ℤ
minus_one = negsuc 0

abbrev pub nil : Arg
nil = word (pos 0)

module _ (O : Os) where
  -- The kernel and errno.
  pub record World : Type 0 where
    pub os : O.State
    pub errno : ℕ

  abbrev pub Sys : Type 0 → Type 0
  Sys A = World → A × World

infixl 5 ◌>>=◌
module _ {O : Os} {A : Type 0} where
  abbrev pub ◌>>=◌ : {B : Type 0} → Sys O A → (A → Sys O B) → Sys O B
  ◌>>=◌ m f w = let (a, w') = m w in f a w'

  abbrev pub pure : A → Sys O A
  pure a w = (a, w)

  -- errno = code; return a;
  abbrev pub fail : ℕ → A → Sys O A
  fail code a w = (a, record w { errno = code })

module _ (O : Os) where
  -- `long` and `int` have the same width.
  unfoldable pub syscall : ℕ → List Arg → Sys O Reply
  syscall number args w = let (reply, s) = O.answer number args w.os in (reply, record w { os = s })

  -- return (int)syscall(…)
  unfoldable pub call : ℕ → List Arg → Sys O ℤ
  unfolding syscall
  call number args = do reply ← syscall number args; pure reply.ret

  -- if (ret < 0) errno = code; return ret;
  unfoldable pub checked : ℕ → ℕ → List Arg → Sys O ℤ
  unfolding call
  checked code number args = do
    ret ← call number args
    if is_neg ret then fail code ret else pure ret

  unfoldable pub write : ℤ → Bytes → Sys O ℤ
  unfolding call
  write fd buf = call sys_write (word fd ∷ bytes buf ∷ nil ∷ [])

  unfoldable pub read : ℤ → ℕ → Sys O Reply
  unfolding syscall
  read fd count = syscall sys_read (word fd ∷ buffer true ∷ word (pos count) ∷ [])

  unfoldable pub getpid : Sys O ℤ
  unfolding call
  getpid = call sys_getpid (nil ∷ nil ∷ nil ∷ [])

  unfoldable pub fork : Sys O ℤ
  unfolding call
  fork = call sys_fork (nil ∷ nil ∷ nil ∷ [])

  unfoldable pub vfork : Sys O ℤ
  unfolding fork
  vfork = fork

  unfoldable pub execve : Bytes → List Bytes → Option (List Bytes) → Sys O ℤ
  unfolding checked
  execve path argv envp =
      checked enoent sys_execve (string (some path) ∷ strings (some argv) ∷ strings envp ∷ [])

  unfoldable pub wait4 : ℤ → Bool → ℤ → Sys O ℤ
  unfolding checked
  wait4 pid status options = checked echild sys_wait4 (word pid ∷ buffer status ∷ word options ∷ [])

  unfoldable pub waitpid : ℤ → Bool → ℤ → Sys O ℤ
  unfolding wait4
  waitpid pid status options = wait4 pid status options

  unfoldable pub wait : Bool → Sys O ℤ
  unfolding waitpid
  wait status = waitpid minus_one status (pos 0)

  unfoldable pub getppid : Sys O ℤ
  unfolding call
  getppid = call sys_getppid (nil ∷ nil ∷ nil ∷ [])

  unfoldable pub brk : ℤ → Sys O ℤ
  unfolding call
  brk addr = do new_brk ← call sys_brk (word addr ∷ nil ∷ nil ∷ []); pure (minus_unless new_brk)
    where
      minus_unless : ℤ → ℤ
      minus_unless (negsuc zero) = minus_one
      minus_unless (negsuc (suc n)) = pos 0
      minus_unless (pos n) = pos 0

  unfoldable pub mmap : ℤ → ℤ → ℤ → Sys O ℤ
  unfolding call
  mmap length fd offset = call sys_mmap (word length ∷ word fd ∷ word offset ∷ [])

  unfoldable pub munmap : ℤ → ℤ → Sys O ℤ
  unfolding call
  munmap addr length = call sys_munmap (word addr ∷ word length ∷ nil ∷ [])

  unfoldable pub pipe : Bool → Sys O ℤ
  unfolding call
  pipe pipefd = call sys_pipe (buffer pipefd ∷ nil ∷ nil ∷ [])

  unfoldable pub dup : ℤ → Sys O ℤ
  unfolding call
  dup oldfd = call sys_dup (word oldfd ∷ nil ∷ nil ∷ [])

  unfoldable pub dup2 : ℤ → ℤ → Sys O ℤ
  unfolding call
  dup2 oldfd newfd = call sys_dup2 (word oldfd ∷ word newfd ∷ nil ∷ [])

  unfoldable pub kill : ℤ → ℤ → Sys O ℤ
  unfolding call
  kill pid sig = call sys_kill (word pid ∷ word sig ∷ nil ∷ [])

  unfoldable pub ioctl : ℤ → ℤ → Arg → Sys O ℤ
  unfolding call
  ioctl fd request arg = call sys_ioctl (word fd ∷ word request ∷ arg ∷ [])

  unfoldable pub tcgetpgrp : ℤ → Sys O ℤ
  unfolding getpid
  tcgetpgrp fd = getpid

  -- getuid, geteuid, getgid, getegid and getgroups
  unfoldable pub getuid : ℤ
  getuid = pos 0

  unfoldable pub isatty : ℤ → Bool
  isatty (pos fd) = leb fd 2
  isatty (negsuc n) = false
