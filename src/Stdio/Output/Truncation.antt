-- ===== src/Stdio/Output/Truncation.antt =====
-- What reaches the descriptor or the block: at most 1023 bytes.
use c_lite.Base.{
  ℕ, suc, ◌≤◌, ◌<◌, ◌≡◌, refl, inl, inr, ap, ◌∙◌, Bool, true, false, List, [], ◌∷◌, Option, none,
  some, lt→ltb, ◌==◌, length, take, arith, Bool-cases,
}
use c_lite.Base.Int.{pos}
use c_lite.Text.{Bytes, has}
use c_lite.Syscall.{Os, World, minus_one, write}
use c_lite.Stdio.Format.Double.{Doubles}
use c_lite.Stdio.Format.Print.{
  Printed, refused, printed, no_argument, past_end, out_of_fuel, Arg, vsnprintf, snprintf,
}
use c_lite.Stdio.Format.Print.Ends.{IsSafe, vsnprintf-IsSafe}
use c_lite.Stdio.Format.Print.Shows.{snprintf-plain}
use c_lite.Stdio.Output.{
  put_out, printf, vdprintf, up_to_nul, Stored, stored_text, store, vasprintf, asprintf,
}

up_to_nul-le : (cs : Bytes) → length (up_to_nul cs) ≤ length cs
unfolding up_to_nul
up_to_nul-le [] = omega arith
up_to_nul-le (c ∷ cs) = elim (Bool-cases (c == 0)) [
  | inl nul ↦ rw nul (omega arith)
  | inr other ↦ rw other (omega (arith, up_to_nul-le cs))
]

-- A block that is handed out has fewer bytes than a bound.
unfoldable pub IsShort : ℕ → Option Stored → Type 0
IsShort size none = Unit
IsShort size (some (ret, none)) = ret ≡ minus_one
IsShort size (some (ret, some s)) = length s < size

stored_text-IsShort :
    (granted : Bool) (text : Bytes)
    → length text < 1024
    → IsShort 1024 (some (stored_text granted text))
unfolding IsShort stored_text
stored_text-IsShort false text small = refl
stored_text-IsShort true text small = omega (arith, up_to_nul-le text)

store-IsShort :
    (format : Bytes) (granted : Bool) (again : ℕ → Printed) (first_pass : Printed)
    → IsSafe format 1024 first_pass
    → IsShort 1024 (store granted again first_pass)
unfolding store
store-IsShort format granted again refused safe = absurd (omega (arith, safe))
store-IsShort format granted again (printed text) safe =
    rw (lt→ltb (length text) 1024 safe) (stored_text-IsShort granted text safe)
store-IsShort format granted again no_argument safe = (unfold IsShort in tt)
store-IsShort format granted again past_end safe = (unfold IsShort in tt)
store-IsShort format granted again out_of_fuel safe = elim safe [ ]

module _ (D : Doubles) where
  -- With more fuel than the format has bytes, a block that asprintf hands out has fewer than 1024
  -- bytes, whatever the format and the arguments.
  pub asprintf-IsShort :
      (granted strp : Bool) (fuel : ℕ) (format : Bytes) (args : List (Arg D))
      → length format < fuel
      → IsShort 1024 (asprintf D granted fuel strp (some format) args)
  unfolding asprintf vasprintf
  asprintf-IsShort granted false fuel format args enough = unfold IsShort in refl
  asprintf-IsShort granted true fuel format args enough =
      (store-IsShort format granted (λ size. vsnprintf D fuel size format args)
        (vsnprintf D fuel 1024 format args) (vsnprintf-IsSafe D fuel 1024 format args enough))

put_out-write :
    (O : Os) (text : Bytes) (w : World O)
    → 0 < length text
    → put_out O (pos 1) (printed text) w
      ≡ (some (write O (pos 1) text w).0, (write O (pos 1) text w).1)
unfolding put_out
put_out-write O text w more = rw (lt→ltb 0 (length text) more) refl

take_more : (n c : ℕ) (cs : Bytes) → 0 < length (take (suc n) (c ∷ cs))
take_more n c cs = omega arith

module _ (O : Os) (D : Doubles) where
  -- A format that is not empty and has no '%': with more fuel than it has bytes, printf hands its
  -- first 1023 bytes to write, and returns what write returns.
  pub printf-plain :
      (c : ℕ) (cs : Bytes) (f : ℕ) (args : List (Arg D)) (w : World O)
      → has b'%' (c ∷ cs) ≡ false
      → length (c ∷ cs) < f
      → let r = write O (pos 1) (take 1023 (c ∷ cs)) w in
        printf O D f (c ∷ cs) args w ≡ (some r.0, r.1)
  unfolding printf vdprintf
  printf-plain c cs f args w plain enough =
      let text : vsnprintf D f 1024 (c ∷ cs) args ≡ printed (take 1023 (c ∷ cs)) =
        unfold snprintf in snprintf-plain D (c ∷ cs) f 1023 args plain enough in
      ap (λ p. put_out O (pos 1) p w) text
      ∙ put_out-write O (take 1023 (c ∷ cs)) w (take_more 1022 c cs)
