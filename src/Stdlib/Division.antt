-- ===== src/Stdlib/Division.antt =====
-- abs, labs, div and ldiv of src/stdlib.c on an int, whose least value is -2^31. `none` is a call that
-- is undefined in C.
use c_lite.Base.{
  ℕ, zero, suc, ◌/◌, ◌%◌, ◌^◌, Bool, true, false, not, ◌&&◌, Option, none, some, ◌==◌,
  if◌then◌else◌,
}
use c_lite.Base.Int.{ℤ, pos, negsuc, is_neg, is_zero}

abbrev pub magnitude : ℤ → ℕ
magnitude (pos n) = n
magnitude (negsuc n) = suc n

abbrev pub signed : Bool → ℕ → ℤ
signed false n = pos n
signed true zero = pos 0
signed true (suc n) = negsuc n

abbrev pub differ : Bool → Bool → Bool
differ true b = not b
differ false b = b

-- INT_MIN
abbrev pub is_least : ℤ → Bool
is_least (pos n) = false
is_least (negsuc n) = suc n == 2 ^ 31

unfoldable pub abs : ℤ → Option ℤ
abs j = if is_least j then none else some (pos (magnitude j))

unfoldable pub labs : ℤ → Option ℤ
unfolding abs
labs j = abs j

abbrev pub is_minus_one : ℤ → Bool
is_minus_one (pos n) = false
is_minus_one (negsuc n) = n == 0

-- The quotient, towards zero, and the remainder, with the sign of the numerator.
unfoldable pub div : ℤ → ℤ → Option (ℤ × ℤ)
div numer denom =
    if is_zero denom
    then none
    else if is_least numer && is_minus_one denom
    then none
    else some (
      signed (differ (is_neg numer) (is_neg denom)) (magnitude numer / magnitude denom),
      signed (is_neg numer) (magnitude numer % magnitude denom),
    )

unfoldable pub ldiv : ℤ → ℤ → Option (ℤ × ℤ)
unfolding div
ldiv numer denom = div numer denom
