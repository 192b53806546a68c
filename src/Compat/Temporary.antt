-- ===== src/Compat/Temporary.antt =====
-- mkstemp, mkdtemp and mktemp of src/compat.c. The state is mktemp_counter.
use c_lite.Base.{
  ℕ, zero, suc, ◌+◌, ◌-◌, ◌*◌, ◌/◌, ◌%◌, ◌^◌, Bool, true, false, not, ◌&&◌, [], ◌∷◌, ◌++◌, Option,
  none, some, ltb, ◌==◌, if◌then◌else◌, length, take, drop, get_or,
}
use c_lite.Base.Int.{ℤ, pos, negsuc, is_zero}
use c_lite.Text.{Bytes, codes}
use c_lite.Syscall.{Os, Sys, ◌>>=◌, pure, fail, minus_one, getpid}
use c_lite.Syscall.Files.{open_file, mkdir}
use c_lite.Syscall.Numbers.{einval}

abbrev pub chars : Bytes
chars = codes "ABCDEFGHIJKLMNOPQRSTUVWXYZabcdefghijklmnopqrstuvwxyz0123456789"

unfoldable pub all_x : Bytes → Bool
all_x [] = true
all_x (c ∷ cs) = c == b'X' && all_x cs

-- The last n characters of the name, from the end.
unfoldable pub fresh_name : ℕ → ℕ → Bytes → Bytes
fresh_name zero v acc = acc
fresh_name (suc n) v acc = fresh_name n (v / 62) (get_or chars (v % 62) 0 ∷ acc)

-- An int as an unsigned int.
abbrev pub unsigned : ℤ → ℕ
unsigned (pos n) = n % 2 ^ 32
unsigned (negsuc n) = 2 ^ 32 - 1 - n % 2 ^ 32

module _ (O : Os) where
  -- The template and the counter after the call.
  unfoldable pub mktemp_replace : Bytes → ℕ → Sys O (Bytes × ℕ)
  unfolding all_x fresh_name getpid
  mktemp_replace t counter =
      if ltb (length t) 6
      then pure (t, counter)
      else if not (all_x (drop (length t - 6) t))
      then pure (t, counter)
      else (do
        pid ← getpid O
        pure (
          take (length t - 6) t ++ fresh_name 6 ((unsigned pid * 2654435761 + counter) % 2 ^ 32) [],
          (counter + 1) % 2 ^ 32,
        ))

  -- O_RDWR | O_CREAT | O_EXCL, and the mode 0600
  unfoldable pub mkstemp : Option Bytes → ℕ → Sys O (ℤ × Option Bytes × ℕ)
  unfolding mktemp_replace open_file
  mkstemp none counter = fail einval (minus_one, none, counter)
  mkstemp (some t) counter = do
    (t', counter') ← mktemp_replace t counter
    fd ← open_file O (some t') 0xc2 384
    pure (fd, some t', counter')

  -- Whether the result is not null, the template and the counter. The mode is 0700.
  unfoldable pub mkdtemp : Option Bytes → ℕ → Sys O (Bool × Option Bytes × ℕ)
  unfolding mktemp_replace mkdir
  mkdtemp none counter = fail einval (false, none, counter)
  mkdtemp (some []) counter = fail einval (false, some [], counter)
  mkdtemp (some (c ∷ cs)) counter = do
    (t', counter') ← mktemp_replace (c ∷ cs) counter
    ret ← mkdir O (some t') 448
    pure (is_zero ret, some t', counter')

  unfoldable pub mktemp : Option Bytes → ℕ → Sys O (Option Bytes × ℕ)
  unfolding mktemp_replace
  mktemp none counter = pure (none, counter)
  mktemp (some t) counter = do (t', counter') ← mktemp_replace t counter; pure (some t', counter')
