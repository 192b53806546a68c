-- ===== src/Tests/Library.antt =====
-- Runs of the environment, the numbers, sorting and searching.
use c_lite.Base.{
  ℕ, ◌-◌, ◌^◌, ◌<◌, ◌≡◌, refl, true, false, List, [], ◌∷◌, none, some, ltb, ◌==◌, if◌then◌else◌,
  arith,
}
use c_lite.Base.Int.{ℤ, pos, negsuc}
use c_lite.Memory.{Addr}
use c_lite.Text.{Bytes, has, is_prefix}
use c_lite.Stdlib.Env.{Environ, matches, lookup, getenv, bound, bad_name, setenv, unsetenv}
use c_lite.Stdlib.Env.Lookup.{IsUnique}
use c_lite.Stdlib.Env.Api.{Bound, setenv-getenv, unsetenv-getenv}
use c_lite.Stdlib.Number.{strtol, strtoull, itoa}
use c_lite.Stdlib.Number.RoundTrip.{itoa-strtol, strtoull-bounds}
use c_lite.Stdlib.Sort.{bsearch, qsort}
use c_lite.Stdlib.Sort.Search.{IsOrdered, Search, bsearch-Search}
use c_lite.Stdlib.Sort.Sorts.{IsOrder, Sorts, qsort-Sorts}

abbrev name_a : Bytes
name_a = b'A' ∷ []

-- "A=1"
abbrev entries : List Bytes
entries = (b'A' ∷ b'=' ∷ b'1' ∷ []) ∷ []

name_a-good : bad_name name_a ≡ false
unfolding bad_name has
name_a-good = refl

entries-IsUnique : IsUnique entries
unfolding bound
entries-IsUnique = (λ n h e. refl, tt)

setenv-getenv_example :
    (after : Environ) × (setenv true true (some entries) (some name_a) (some (b'2' ∷ [])) true
      ≡ (pos 0, after))
    × Bound (some entries) after name_a (some (b'2' ∷ []))
setenv-getenv_example =
    setenv-getenv (some entries) name_a (some (b'2' ∷ [])) true name_a-good
      (unfold getenv lookup matches is_prefix in refl)

unsetenv-getenv_example :
    (after : Environ) × (unsetenv (some entries) (some name_a) ≡ (pos 0, after))
    × Bound (some entries) after name_a none
unsetenv-getenv_example = unsetenv-getenv entries name_a name_a-good entries-IsUnique

itoa-strtol_example :
    (text : Bytes) × (itoa 4294967286 10 ≡ some text) × (strtol text 10 ≡ (4294967286, []))
itoa-strtol_example = itoa-strtol 10 4294967286 (omega arith) (omega arith) (omega arith)

strtoull-bounds_example : (strtoull (b'7' ∷ []) 10).0 < 2 ^ 32
strtoull-bounds_example = strtoull-bounds (b'7' ∷ []) 10

-- The comparison of two numbers.
abbrev numbers : ℕ → ℕ → ℤ
numbers x y = if ltb x y then negsuc 0 else if x == y then pos 0 else pos 1

numbers-IsOrder : IsOrder numbers
numbers-IsOrder = record { total = λ x y h. ground arith; trans = λ x y z h k. ground arith }

qsort-Sorts_example : Sorts numbers 2 5 (λ k. 10 - k) (qsort 4 numbers 2 3 (λ k. 10 - k))
qsort-Sorts_example = qsort-Sorts numbers numbers-IsOrder 4 2 3 (λ k. 10 - k) (omega arith)

-- An array of the addresses of its elements, from 8 on.
addresses-IsOrdered : IsOrdered (numbers 10) 8 5 1
addresses-IsOrdered = record {
  above_stay = λ i j ij top h. ground arith;
  below_stay = λ i j ij top h k. (ground arith, ground arith);
}

bsearch-Search_example :
    (p : Addr) × (bsearch 6 (numbers 10) 8 5 1 ≡ some p) × Search (numbers 10) 8 5 1 p
bsearch-Search_example = bsearch-Search (numbers 10) 8 5 1 6 addresses-IsOrdered (omega arith)
