-- ===== src/Stdio/Output.antt =====
-- The formatted output of src/stdio.c that formats into a buffer of 1024 bytes first: to a
-- descriptor, to a stream, and to a block that malloc gives. `none` is a call that is undefined, or
-- for which the fuel of vsnprintf runs out.
pub mod Truncation
use c_lite.Base.{
  ℕ, ◌+◌, Bool, true, false, ◌&&◌, List, [], ◌∷◌, Option, none, some, ltb, ◌==◌, if◌then◌else◌,
  length,
}
use c_lite.Base.Int.{ℤ, pos}
use c_lite.Text.{Bytes}
use c_lite.Syscall.{Os, Sys, ◌>>=◌, pure, minus_one, write}
use c_lite.Stdio.Format.Double.{Doubles}
use c_lite.Stdio.Format.Print.{
  Printed, refused, printed, no_argument, past_end, out_of_fuel, Arg, vsnprintf,
}
use c_lite.Stdio.Stream.{File}

-- strdup: the bytes before the first NUL.
unfoldable pub up_to_nul : Bytes → Bytes
up_to_nul [] = []
up_to_nul (c ∷ cs) = if c == 0 then [] else c ∷ up_to_nul cs

module _ (O : Os) where
  -- if (len > 0) return write(fd, buf, len); return 0;
  unfoldable pub put_out : ℤ → Printed → Sys O (Option ℤ)
  unfolding write
  put_out fd refused = pure (some (pos 0))
  put_out fd (printed text) =
      if ltb 0 (length text)
      then (do ret ← write O fd text; pure (some ret))
      else pure (some (pos 0))
  put_out fd no_argument = pure none
  put_out fd past_end = pure none
  put_out fd out_of_fuel = pure none

module _ (O : Os) (D : Doubles) where
  unfoldable pub vdprintf : ℕ → ℤ → Bytes → List (Arg D) → Sys O (Option ℤ)
  unfolding vsnprintf put_out
  vdprintf fuel fd format args = put_out O fd (vsnprintf D fuel 1024 format args)

  unfoldable pub dprintf : ℕ → ℤ → Bytes → List (Arg D) → Sys O (Option ℤ)
  unfolding vdprintf
  dprintf fuel fd format args = vdprintf fuel fd format args

  unfoldable pub printf : ℕ → Bytes → List (Arg D) → Sys O (Option ℤ)
  unfolding vdprintf
  printf fuel format args = vdprintf fuel (pos 1) format args

  unfoldable pub vfprintf : ℕ → Option File → Bytes → List (Arg D) → Sys O (Option ℤ)
  unfolding vdprintf
  vfprintf fuel none format args = pure (some minus_one)
  vfprintf fuel (some stream) format args = vdprintf fuel stream.fd format args

  unfoldable pub fprintf : ℕ → Option File → Bytes → List (Arg D) → Sys O (Option ℤ)
  unfolding vfprintf
  fprintf fuel stream format args = vfprintf fuel stream format args

-- What vasprintf returns, and the block at `*strp` if it stores one.
abbrev pub Stored : Type 0
Stored = ℤ × Option Bytes

-- The result of the first vsnprintf; `second` is that of the one into a block of its length.
-- `granted` is whether malloc gives a block.
unfoldable pub stored_text : Bool → Bytes → Stored
unfolding up_to_nul
stored_text granted text =
    if granted then (pos (length text), some (up_to_nul text)) else (minus_one, none)

-- The block that the second vsnprintf fills.
unfoldable pub filled_block : Printed → Option Stored
filled_block refused = some (pos 0, some [])
filled_block (printed text) = some (pos (length text), some text)
filled_block no_argument = none
filled_block past_end = none
filled_block out_of_fuel = none

unfoldable pub store : Bool → (ℕ → Printed) → Printed → Option Stored
unfolding stored_text filled_block
store granted again refused = some (stored_text granted [])
store granted again (printed text) =
    if ltb (length text) 1024
    then some (stored_text granted text)
    else if granted
    then filled_block (again (length text + 1))
    else some (minus_one, none)
store granted again no_argument = none
store granted again past_end = none
store granted again out_of_fuel = none

module _ (D : Doubles) where
  -- `strp` is whether the pointer is not null.
  unfoldable pub vasprintf : Bool → ℕ → Bool → Option Bytes → List (Arg D) → Option Stored
  unfolding vsnprintf store
  vasprintf granted fuel strp none args = some (minus_one, none)
  vasprintf granted fuel strp (some format) args =
      if strp
      then store granted (λ size. vsnprintf D fuel size format args)
          (vsnprintf D fuel 1024 format args)
      else some (minus_one, none)

  unfoldable pub asprintf : Bool → ℕ → Bool → Option Bytes → List (Arg D) → Option Stored
  unfolding vasprintf
  asprintf granted fuel strp format args = vasprintf granted fuel strp format args
