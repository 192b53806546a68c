-- ===== src/Text.antt =====
-- Texts as lists of bytes, without memory: what the string functions compute, and what the parsers
-- of the library are modelled over.
use Prim.Native.Char.{code}
use Prim.Native.String.{String}
use c_lite.Base.{
  ℕ, suc, ◌≤◌, Bool, true, false, ◌&&◌, ◌||◌, List, [], ◌∷◌, Option, none, some, arith, ◌==◌,
  if◌then◌else◌, length,
}

abbrev pub Bytes : Type 0
Bytes = List ℕ

-- The bytes of a literal.
abbrev pub codes : String → Bytes
codes String.[] = []
codes (String.◌∷◌ c s) = code c ∷ codes s

-- `*s`: the first byte, or the NUL at the end.
abbrev pub first : Bytes → ℕ
first [] = 0
first (x ∷ xs) = x

-- `s + 1`, where `*s` is not NUL.
abbrev pub rest_of : Bytes → Bytes
rest_of [] = []
rest_of (x ∷ xs) = xs

unfoldable pub has : ℕ → Bytes → Bool
has c [] = false
has c (x ∷ xs) = x == c || has c xs

abbrev pub next : Option ℕ → Option ℕ
next none = none
next (some i) = some (suc i)

-- The place of the first byte `c`.
unfoldable pub index_of : ℕ → Bytes → Option ℕ
index_of c [] = none
index_of c (x ∷ xs) = if x == c then some 0 else next (index_of c xs)

-- How many bytes stand before the first that fails the test.
unfoldable pub span_length : (ℕ → Bool) → Bytes → ℕ
span_length p [] = 0
span_length p (x ∷ xs) = if p x then suc (span_length p xs) else 0

unfoldable pub is_prefix : Bytes → Bytes → Bool
is_prefix [] ys = true
is_prefix (x ∷ xs) [] = false
is_prefix (x ∷ xs) (y ∷ ys) = x == y && is_prefix xs ys

pub span_length-le : (p : ℕ → Bool) (xs : Bytes) → span_length p xs ≤ length xs
unfolding span_length
span_length-le p [] = omega arith
span_length-le p (x ∷ xs) = ground (arith, span_length-le p xs)
