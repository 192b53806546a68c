-- ===== src/Stdio/Stream.antt =====
-- The streams of src/stdio.c, over the wrappers of src/syscall.c. A stream is passed on and returned
-- with what the call made of it; `none` is a null pointer. A character is its code, EOF is `none`.
-- An `int` that is returned as a character or EOF is an `Option ℕ`.
pub mod Lines
use c_lite.Base.{
  ℕ, zero, suc, ◌+◌, ◌-◌, ◌*◌, ◌/◌, ◌%◌, ◌^◌, Bool, true, false, not, ◌&&◌, ◌||◌, List, [], ◌∷◌,
  ◌++◌, Option, none, some, leb, ltb, ◌==◌, if◌then◌else◌, length,
}
use c_lite.Base.Int.{ℤ, pos, negsuc, is_zero, is_neg}
use c_lite.Text.{Bytes, has, first}
use c_lite.Syscall.{Os, Reply, Sys, ◌>>=◌, pure, minus_one, write, read}
use c_lite.Syscall.Files.{close, lseek, open_file}

-- `struct FILE`; `flags` is never read.
pub record File : Type 0 where
  pub fd : ℤ
  pub flags : ℕ
  pub error : Bool
  pub eof : Bool
  pub unget : Option ℕ

abbrev pub fresh_file : ℤ → File
fresh_file fd = record { fd = fd; flags = 0; error = false; eof = false; unget = none }

abbrev pub is_one : ℤ → Bool
is_one (pos n) = n == 1
is_one (negsuc n) = false

-- The byte in a buffer of one byte.
abbrev pub byte_of : Reply → ℕ
byte_of reply = first reply.filled

abbrev pub count_of : ℤ → ℕ
count_of (pos n) = n
count_of (negsuc n) = 0

-- The flags of `open` for a mode: O_RDWR, O_RDONLY, O_WRONLY | O_CREAT | O_TRUNC, and
-- O_WRONLY | O_CREAT | O_APPEND.
unfoldable pub mode_flags : Bytes → ℕ
unfolding has
mode_flags mode =
    if has b'+' mode
    then 0x2
    else if first mode == b'r'
    then 0
    else if first mode == b'w'
    then 0x241
    else if first mode == b'a'
    then 0x441
    else 0

unfoldable pub taken : File → Reply → Option ℕ × File
taken f reply =
    if is_one reply.ret then (some (byte_of reply), f) else (none, record f { eof = true })

-- What fgets returns: NULL where EOF came first. A buffer of one byte holds the empty string.
unfoldable pub finished : ℕ → Bytes → Option Bytes
finished size [] = if size == 1 then some [] else none
finished size (c ∷ cs) = some (c ∷ cs)

module _ (O : Os) where
  unfoldable pub putchar : ℕ → Sys O (Option ℕ)
  unfolding write
  putchar c = do
    ret ← write O (pos 1) (c % 256 ∷ [])
    pure (if is_one ret then some (c % 256) else none)

  unfoldable pub getchar : Sys O (Option ℕ)
  unfolding read
  getchar = do
    reply ← read O (pos 0) 1
    pure (if is_one reply.ret then some (byte_of reply) else none)

  unfoldable pub puts : Option Bytes → Sys O (Option ℕ)
  unfolding write
  puts none = pure none
  puts (some s) = do
    ret ← write O (pos 1) s
    if is_neg ret then pure none else (do
      end ← write O (pos 1) (10 ∷ [])
      pure (if is_neg end then none else some (length s + 1)))

  unfoldable pub fputs : Option Bytes → Option File → Sys O (Option ℕ)
  unfolding write
  fputs none stream = pure none
  fputs (some s) none = pure none
  fputs (some s) (some f) = do ret ← write O f.fd s; pure (if is_neg ret then none else some 0)

  unfoldable pub fputc : ℕ → Option File → Sys O (Option ℕ)
  unfolding write
  fputc c none = pure none
  fputc c (some f) = do
    ret ← write O f.fd (c % 256 ∷ [])
    pure (if is_one ret then some (c % 256) else none)

  unfoldable pub putc : ℕ → Option File → Sys O (Option ℕ)
  unfolding fputc
  putc c stream = fputc c stream

  -- fgetc without a byte that was pushed back
  unfoldable pub read_byte : File → Sys O (Option ℕ × File)
  unfolding read
  read_byte f = do reply ← read O f.fd 1; pure (taken f reply)

  -- The byte that was pushed back, if there is one.
  unfoldable pub pushed_or_read : Option ℕ → File → Sys O (Option ℕ × File)
  unfolding read_byte
  pushed_or_read none f = read_byte f
  pushed_or_read (some c) f = pure (some c, record f { unget = none })

  unfoldable pub fgetc : File → Sys O (Option ℕ × File)
  unfolding pushed_or_read
  fgetc f = pushed_or_read f.unget f

  unfoldable pub getc : File → Sys O (Option ℕ × File)
  unfolding fgetc
  getc f = fgetc f

  -- while (i < size - 1), on the rounds left: the bytes that are written to `s`.
  unfoldable pub fgets_loop : ℕ → File → Sys O (Bytes × File)
  unfolding fgetc
  fgets_loop zero f w = (([], f), w)
  fgets_loop (suc n) f w =
      let ((c, f'), w') = fgetc f w in
      let ((cs, f''), w'') = fgets_loop n f' w' in
      elim c [
        | none ↦ (([], f'), w')
        | some x ↦ if x == 10 then ((x ∷ [], f'), w') else ((x ∷ cs, f''), w'')
      ]

  -- `some` has the bytes before the NUL; `s` and `stream` are not null.
  unfoldable pub fgets : ℕ → File → Sys O (Option Bytes × File)
  unfolding fgets_loop finished
  fgets size f =
      if size == 0
      then pure (none, f)
      else (do (cs, f') ← fgets_loop (size - 1) f; pure (finished size cs, f'))

  unfoldable pub ungetc : Option ℕ → File → Option ℕ × File
  ungetc none f = (none, f)
  ungetc (some c) f = (some c, record f { unget = some c; eof = false })

  -- The number of elements read, the bytes at `ptr`, and the stream. `ptr` is not null.
  unfoldable pub fread : ℕ → ℕ → File → Sys O (ℕ × Bytes × File)
  unfolding read
  fread size nmemb f = if size == 0 || nmemb == 0 then pure (0, [], f) else (do
    reply ← read O f.fd (size * nmemb % 2 ^ 32)
    pure (
        if is_neg reply.ret
        then (0, [], record f { error = true })
        else if is_zero reply.ret
        then (0, [], record f { eof = true })
        else (count_of reply.ret / size, reply.filled, f)))

  -- `bytes` are the `size * nmemb` bytes at `ptr`.
  unfoldable pub fwrite : Bytes → ℕ → ℕ → File → Sys O (ℕ × File)
  unfolding write
  fwrite bytes size nmemb f = if size == 0 || nmemb == 0 then pure (0, f) else (do
    n ← write O f.fd bytes
    pure (if is_neg n then (0, record f { error = true }) else (count_of n / size, f)))

  unfoldable pub fflush : Option File → ℤ
  fflush stream = pos 0

  -- Whether the stream is freed, and the result of close.
  unfoldable pub fclose : Bool → File → Sys O (ℤ × Bool)
  unfolding close
  fclose standard f = do ret ← close O f.fd; pure (ret, not standard)

  -- `granted` is whether malloc gives a block.
  unfoldable pub fdopen : Bool → ℤ → Option File
  fdopen granted fd = if granted then some (fresh_file fd) else none

  unfoldable pub fopen : Bool → Bytes → Bytes → Sys O (Option File)
  unfolding open_file mode_flags fdopen
  fopen granted pathname mode = do
    fd ← open_file O (some pathname) (mode_flags mode) 438
    pure (if is_neg fd then none else fdopen granted fd)

  unfoldable pub fileno : Option File → ℤ
  fileno none = minus_one
  fileno (some f) = f.fd

  unfoldable pub feof : Option File → Bool
  feof none = true
  feof (some f) = f.eof

  unfoldable pub ferror : Option File → Bool
  ferror none = true
  ferror (some f) = f.error

  unfoldable pub clearerr : File → File
  clearerr f = record f { error = false; eof = false }

  unfoldable pub fseek : ℤ → ℤ → File → Sys O (ℤ × File)
  unfolding lseek
  fseek offset whence f = do
    ret ← lseek O f.fd offset whence
    pure (if is_neg ret then minus_one else pos 0, record f { unget = none })

  unfoldable pub fseeko : ℤ → ℤ → File → Sys O (ℤ × File)
  unfolding fseek
  fseeko offset whence f = fseek offset whence f

  unfoldable pub ftell : Option File → Sys O ℤ
  unfolding lseek
  ftell none = pure minus_one
  ftell (some f) = lseek O f.fd (pos 0) (pos 1)

  unfoldable pub ftello : Option File → Sys O ℤ
  unfolding ftell
  ftello stream = ftell stream

  unfoldable pub rewind : File → Sys O File
  unfolding fseek
  rewind f = do (ret, f') ← fseek (pos 0) (pos 0) f; pure f'

  -- The stream is returned, with whether the result is null.
  unfoldable pub reopen : Bytes → Bytes → File → Sys O (Bool × File)
  unfolding open_file mode_flags
  reopen pathname mode f = do
    fd ← open_file O (some pathname) (mode_flags mode) 438
    pure (if is_neg fd then (false, f) else (true, fresh_file fd))

  unfoldable pub freopen : Bytes → Bytes → File → Sys O (Bool × File)
  unfolding close reopen
  freopen pathname mode f =
      if is_neg f.fd then reopen pathname mode f else (do _ ← close O f.fd; reopen pathname mode f)
