-- ===== src/Dirent.antt =====
-- src/dirent.c: the directory streams, over the buffer that the kernel fills once.
pub mod Listing
pub mod Steady
use c_lite.Base.{
  ℕ, zero, suc, ◌+◌, ◌*◌, ◌-◌, ◌%◌, ◌^◌, Bool, true, false, not, ◌&&◌, List, [], ◌∷◌, Option, none,
  some, ltb, ◌==◌, if◌then◌else◌, length, take, get_or,
}
use c_lite.Base.Int.{ℤ, pos, negsuc, is_neg}
use c_lite.Text.{Bytes}
use c_lite.Syscall.{Os, Reply, Sys, ◌>>=◌, pure, minus_one, syscall, word, buffer}
use c_lite.Syscall.Files.{open_file, close}
use c_lite.Syscall.Numbers.{sys_getdents}

pub record Entry : Type 0 where
  pub d_ino : ℕ
  pub d_name : Bytes

-- DIR. `buf` is none for a null pointer, and otherwise gives the byte at each offset.
pub record Dir : Type 0 where
  pub fd : ℤ
  pub index : ℕ
  pub buflen : ℕ
  pub buf : Option (ℕ → ℕ)
  pub path : Bytes

-- *(unsigned int *)(buf + p)
unfoldable pub uint_at : (ℕ → ℕ) → ℕ → ℕ
uint_at b p = b p + 256 * b (p + 1) + 65536 * b (p + 2) + 16777216 * b (p + 3)

-- The bytes that strncpy copies before the NUL, at most n of them.
unfoldable pub name_at : ℕ → (ℕ → ℕ) → ℕ → Bytes
name_at zero b p = []
name_at (suc n) b p = if b p == 0 then [] else b p ∷ name_at n b (suc p)

-- while (pos + 8 <= dirp->buflen): what is returned, and the new index. One unit of fuel is one
-- round, and `none` means that the fuel ran out.
unfoldable pub readdir_loop : ℕ → (ℕ → ℕ) → ℕ → ℕ → ℕ → Option (Option Entry × ℕ)
readdir_loop zero b buflen index p = none
readdir_loop (suc f) b buflen index p =
    let after = (p + uint_at b (p + 4)) % 2 ^ 32 in
    let later = readdir_loop f b buflen after after in
    if ltb buflen ((p + 8) % 2 ^ 32)
    then some (none, index)
    else if uint_at b (p + 4) == 0
    then some (none, index)
    else if b (p + 8) == 0
    then later
    else some (some (record { d_ino = uint_at b p; d_name = name_at 255 b (p + 8) }), after)

abbrev pub at_index : Dir → Option (Option Entry × ℕ) → Option (Option Entry × Dir)
at_index d none = none
at_index d (some (e, index)) = some (e, record d { index = index })

unfoldable pub read_buffer : ℕ → Dir → Option (ℕ → ℕ) → Option (Option Entry × Dir)
unfolding readdir_loop
read_buffer fuel d none = some (none, d)
read_buffer fuel d (some b) = at_index d (readdir_loop fuel b d.buflen d.index d.index)

-- `dirp` is not null.
unfoldable pub readdir : ℕ → Dir → Option (Option Entry × Dir)
unfolding read_buffer
readdir fuel d = read_buffer fuel d d.buf

unfoldable pub rewinddir : Dir → Dir
rewinddir d = record d { index = 0 }

-- The bytes of a block, of which the kernel filled the first.
abbrev pub filled_over : Bytes → (ℕ → ℕ) → ℕ → ℕ
filled_over [] block i = block i
filled_over (c ∷ cs) block zero = c
filled_over (c ∷ cs) block (suc i) = filled_over cs (λ j. block (suc j)) i

-- The number of bytes of the name that are kept: without a slash at the end, and at most 255.
unfoldable pub path_length : Bytes → ℕ
path_length name =
    let len = length name in
    let short = if ltb 1 len && get_or name (len - 1) 0 == b'/' then len - 1 else len in
    if ltb short 256 then short else 255

module _ (O : Os) where
  unfoldable pub getdents : ℤ → ℕ → Sys O Reply
  unfolding syscall
  getdents fd size = syscall O sys_getdents (word fd ∷ buffer true ∷ word (pos size) ∷ [])

  abbrev pub positive : ℤ → ℕ
  positive (pos n) = n
  positive (negsuc n) = 0

  unfoldable pub fill_buffer : ℤ → Bytes → Option (ℕ → ℕ) → Sys O (Option Dir)
  unfolding getdents path_length
  fill_buffer fd name none = pure (
      some (record {
        fd = fd;
        index = 0;
        buflen = 0;
        buf = none;
        path = take (path_length name) name;
      }))
  fill_buffer fd name (some block) = do
    reply ← getdents fd 4096
    pure (
        some (record {
          fd = fd;
          index = 0;
          buflen = positive reply.ret;
          buf = some (filled_over reply.filled block);
          path = take (path_length name) name;
        }))

  -- open is called without a mode, for which 0 stands here.
  -- `granted` is whether malloc gives the DIR, and `block` the buffer that it gives.
  unfoldable pub opendir : Bool → Option (ℕ → ℕ) → Option Bytes → Sys O (Option Dir)
  unfolding open_file close fill_buffer
  opendir granted block none = pure none
  opendir granted block (some name) = do
    fd ← open_file O (some name) 0 0
    if is_neg fd
        then pure none
        else if granted
        then fill_buffer fd name block
        else (do _ ← close O fd; pure none)

  unfoldable pub closedir : Option Dir → Sys O ℤ
  unfolding close
  closedir none = pure minus_one
  closedir (some d) = do _ ← close O d.fd; pure (pos 0)
