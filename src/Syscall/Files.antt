-- ===== src/Syscall/Files.antt =====
-- The wrappers of src/syscall.c for files and paths.
use c_lite.Base.{
  ℕ, ◌+◌, ◌*◌, Bool, true, false, not, ◌&&◌, List, [], ◌∷◌, Option, none, some, ◌==◌, if◌then◌else◌,
}
use c_lite.Base.Int.{ℤ, pos, negsuc, is_zero, is_neg}
use c_lite.Text.{Bytes}
use c_lite.Syscall.{
  word, string, times, buffer, Reply, Os, minus_one, nil, Sys, ◌>>=◌, pure, fail, syscall, call,
  checked,
}
use c_lite.Syscall.Numbers.{
  sys_open, sys_close, sys_lseek, sys_stat, sys_fstat, sys_lstat, sys_unlink, sys_rmdir, sys_mkdir,
  sys_chdir, sys_getcwd, sys_ftruncate, sys_truncate, sys_access, sys_rename, sys_link, sys_symlink,
  sys_readlink, sys_utimens, sys_futimens, enoent, eexist, ebadf, einval,
}

-- AT_SYMLINK_NOFOLLOW of include/sys/stat.h and O_WRONLY of include/fcntl.h
abbrev pub at_symlink_nofollow : ℕ
at_symlink_nofollow = 0x100

abbrev pub o_wronly : ℕ
o_wronly = 1

module _ (O : Os) where
  unfoldable pub open_file : Option Bytes → ℕ → ℕ → Sys O ℤ
  unfolding checked
  open_file path flags mode =
      checked O enoent sys_open (string path ∷ word (pos flags) ∷ word (pos mode) ∷ [])

  unfoldable pub close : ℤ → Sys O ℤ
  unfolding call
  close fd = call O sys_close (word fd ∷ nil ∷ nil ∷ [])

  unfoldable pub lseek : ℤ → ℤ → ℤ → Sys O ℤ
  unfolding call
  lseek fd offset whence = call O sys_lseek (word fd ∷ word offset ∷ word whence ∷ [])

  -- The loop over the bytes of `buf` clears what the kernel then fills.
  unfoldable pub stat : Option Bytes → Bool → Sys O ℤ
  unfolding checked
  stat path buf = checked O enoent sys_stat (string path ∷ buffer buf ∷ nil ∷ [])

  unfoldable pub fstat : ℤ → Bool → Sys O ℤ
  unfolding call
  fstat fd buf = call O sys_fstat (word fd ∷ buffer buf ∷ nil ∷ [])

  unfoldable pub lstat : Option Bytes → Bool → Sys O ℤ
  unfolding call stat
  lstat path buf = do
    ret ← call O sys_lstat (string path ∷ buffer buf ∷ nil ∷ [])
    if is_zero ret then pure (pos 0) else stat path buf

  unfoldable pub unlink : Option Bytes → Sys O ℤ
  unfolding checked
  unlink path = checked O enoent sys_unlink (string path ∷ nil ∷ nil ∷ [])

  unfoldable pub rmdir : Option Bytes → Sys O ℤ
  unfolding checked
  rmdir path = checked O enoent sys_rmdir (string path ∷ nil ∷ nil ∷ [])

  unfoldable pub mkdir : Option Bytes → ℕ → Sys O ℤ
  unfolding checked
  mkdir path mode = checked O eexist sys_mkdir (string path ∷ word (pos mode) ∷ nil ∷ [])

  unfoldable pub chdir : Option Bytes → Sys O ℤ
  unfolding checked
  chdir path = checked O enoent sys_chdir (string path ∷ nil ∷ nil ∷ [])

  -- `none` is NULL, and `some` has what the kernel wrote to `buf`.
  unfoldable pub getcwd : ℕ → Sys O (Option Bytes)
  unfolding syscall
  getcwd size = do
    reply ← syscall O sys_getcwd (buffer true ∷ word (pos size) ∷ nil ∷ [])
    if is_neg reply.ret then fail enoent none else pure (some reply.filled)

  unfoldable pub ftruncate : ℤ → ℤ → Sys O ℤ
  unfolding call
  ftruncate fd length = call O sys_ftruncate (word fd ∷ word length ∷ nil ∷ [])

  -- The way of an old kernel: open, ftruncate, close.
  unfoldable pub truncate_open : Option Bytes → ℤ → Sys O ℤ
  unfolding open_file ftruncate close
  truncate_open path size = do
    fd ← open_file path o_wronly 0
    if is_neg fd then pure minus_one else (do ret ← ftruncate fd size; _ ← close fd; pure ret)

  unfoldable pub truncate : Option Bytes → ℤ → Sys O ℤ
  unfolding call truncate_open
  truncate path size = do
    ret ← call O sys_truncate (string path ∷ word size ∷ nil ∷ [])
    if is_zero ret then pure (pos 0) else truncate_open path size

  unfoldable pub access : Option Bytes → ℕ → Sys O ℤ
  unfolding call stat
  access pathname mode = do
    ret ← call O sys_access (string pathname ∷ word (pos mode) ∷ nil ∷ [])
    if is_zero ret
        then pure (pos 0)
        else if is_neg ret
        then (do probe ← stat pathname true; if is_zero probe then pure (pos 0) else pure minus_one)
        else pure minus_one

  unfoldable pub rename : Option Bytes → Option Bytes → Sys O ℤ
  unfolding checked
  rename oldpath newpath = checked O enoent sys_rename (string oldpath ∷ string newpath ∷ nil ∷ [])

  unfoldable pub link : Option Bytes → Option Bytes → Sys O ℤ
  unfolding checked
  link oldpath newpath = checked O enoent sys_link (string oldpath ∷ string newpath ∷ nil ∷ [])

  unfoldable pub symlink : Option Bytes → Option Bytes → Sys O ℤ
  unfolding checked
  symlink target linkpath =
      checked O enoent sys_symlink (string target ∷ string linkpath ∷ nil ∷ [])

  unfoldable pub readlink : Option Bytes → ℕ → Sys O Reply
  unfolding syscall
  readlink pathname bufsiz = do
    reply ← syscall O sys_readlink (string pathname ∷ buffer true ∷ word (pos bufsiz) ∷ [])
    if is_neg reply.ret then fail enoent reply else pure reply

  -- umask, and the calls that pretend to succeed: chmod, fchmod, mknod, chown, fchown, lchown
  unfoldable pub umask : ℕ → ℕ
  umask mask = 18

  unfoldable pub chmod : Option Bytes → ℕ → ℤ
  chmod path mode = pos 0

  unfoldable pub fchmod : ℤ → ℕ → ℤ
  fchmod fd mode = pos 0

  unfoldable pub mknod : Option Bytes → ℕ → ℕ → ℤ
  mknod pathname mode dev = pos 0

  unfoldable pub chown : Option Bytes → ℕ → ℕ → ℤ
  chown pathname owner group = pos 0

  unfoldable pub fchown : ℤ → ℕ → ℕ → ℤ
  fchown fd owner group = pos 0

  unfoldable pub lchown : Option Bytes → ℕ → ℕ → ℤ
  lchown pathname owner group = pos 0

  -- ts[i].tv_nsec = times[i].tv_usec * 1000
  abbrev pub to_timespec : List (ℤ × ℤ) → List (ℤ × ℤ)
  to_timespec [] = []
  to_timespec ((sec, usec) ∷ ts) = (sec, thousand usec) ∷ to_timespec ts
    where
      thousand : ℤ → ℤ
      thousand (pos n) = pos (n * 1000)
      thousand (negsuc n) = negsuc (n * 1000 + 999)

  abbrev pub timespecs : Option (List (ℤ × ℤ)) → Option (List (ℤ × ℤ))
  timespecs none = none
  timespecs (some ts) = some (to_timespec ts)

  unfoldable pub utimes : Option Bytes → Option (List (ℤ × ℤ)) → Sys O ℤ
  unfolding call
  utimes filename ts = do
    _ ← call O sys_utimens (string filename ∷ times (timespecs ts) ∷ nil ∷ [])
    pure (pos 0)

  unfoldable pub lutimes : Option Bytes → Option (List (ℤ × ℤ)) → Sys O ℤ
  unfolding call
  lutimes filename ts = do
    _ ←
        call O sys_utimens
          (string filename ∷ times (timespecs ts) ∷ word (pos at_symlink_nofollow) ∷ [])
    pure (pos 0)

  unfoldable pub futimens : ℤ → Option (List (ℤ × ℤ)) → Sys O ℤ
  unfolding call fstat
  futimens fd ts = do
    ret ← call O sys_futimens (word fd ∷ times ts ∷ nil ∷ [])
    if is_zero ret then pure (pos 0) else (do
      probe ← fstat fd true
      if is_zero probe then pure (pos 0) else fail ebadf minus_one)

  abbrev pub is_null : Option Bytes → Bool
  is_null none = true
  is_null (some s) = false

  unfoldable pub utimensat : Option Bytes → Option (List (ℤ × ℤ)) → ℕ → Sys O ℤ
  unfolding call stat lstat
  utimensat pathname ts flags =
      if not (flags == 0) && not (flags == at_symlink_nofollow) then fail einval minus_one else (do
        ret ← call O sys_utimens (string pathname ∷ times ts ∷ word (pos flags) ∷ [])
        if is_zero ret
            then pure (pos 0)
            else if is_null pathname
            then fail enoent minus_one
            else (do
              ok ← if flags == at_symlink_nofollow then lstat pathname true else stat pathname true
              if is_zero ok then pure (pos 0) else fail enoent minus_one))
