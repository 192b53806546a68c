-- ===== src/Fnmatch/Wildcards.antt =====
-- What a pattern matches where no flag is set: the meaning of '*', '?', classes and escapes.
use c_lite.Base.{ℕ, ◌<◌, ◌≡◌, ◌≢◌, ◌⊎◌, inl, inr, true, false, [], ◌∷◌, none, some, arith}
use c_lite.Text.{Bytes, first, rest_of}
use c_lite.Fnmatch.{Flags, match_bracket}

abbrev pub no_flags : Flags
no_flags = record { pathname = false; noescape = false; period = false }

-- A byte that stands for itself: a backslash does at the end of the pattern.
abbrev pub IsLiteral : ℕ → Bytes → Type 0
IsLiteral c p = (c ≢ b'*') × (c ≢ b'?') × (c ≢ b'[') × (c ≡ b'\\' → first p ≡ 0)

-- `Matches pattern string`. A byte from 128 on matches neither itself nor its escape.
pub data Matches : Bytes → Bytes → Type 0 where
  done : Matches [] []
  escape :
      {c x : ℕ} {p s : Bytes}
      → c ≡ b'\\'
      → first p ≢ 0
      → x ≡ first p
      → x < 128
      → Matches (rest_of p) s
      → Matches (c ∷ p) (x ∷ s)
  leave : {c : ℕ} {p s : Bytes} → c ≡ b'*' → Matches p s → Matches (c ∷ p) s
  more : {c x : ℕ} {p s : Bytes} → c ≡ b'*' → Matches (c ∷ p) s → Matches (c ∷ p) (x ∷ s)
  any : {c x : ℕ} {p s : Bytes} → c ≡ b'?' → Matches p s → Matches (c ∷ p) (x ∷ s)
  class :
      {c x : ℕ} {p rest s : Bytes}
      → c ≡ b'['
      → match_bracket x p ≡ some (true, rest)
      → Matches rest s
      → Matches (c ∷ p) (x ∷ s)
  bracket :
      {c x : ℕ} {p s : Bytes}
      → c ≡ b'['
      → match_bracket x p ≡ none
      → x ≡ b'['
      → Matches p s
      → Matches (c ∷ p) (x ∷ s)
  byte :
      {c x : ℕ} {p s : Bytes}
      → IsLiteral c p
      → x ≡ c
      → x < 128
      → Matches p s
      → Matches (c ∷ p) (x ∷ s)

-- What a derivation tells for each kind of first byte.
pub no_empty : {x : ℕ} {s : Bytes} → Matches [] (x ∷ s) → ⊥
no_empty d = elim d [ ]

pub only_star : {c : ℕ} {p : Bytes} → Matches (c ∷ p) [] → c ≡ b'*'
only_star (leave e d) = e

pub leave_empty : {c : ℕ} {p : Bytes} → Matches (c ∷ p) [] → Matches p []
leave_empty (leave e d) = d

pub star_cases :
    {c x : ℕ} {p s : Bytes}
    → c ≡ b'*'
    → Matches (c ∷ p) (x ∷ s)
    → Matches p (x ∷ s) ⊎ Matches (c ∷ p) s
star_cases e (escape e' n m l d) = absurd (omega arith)
star_cases e (leave e' d) = inl d
star_cases e (more e' d) = inr d
star_cases e (any e' d) = absurd (omega arith)
star_cases e (class e' b d) = absurd (omega arith)
star_cases e (bracket e' b m d) = absurd (omega arith)
star_cases e (byte l m b d) = absurd (l.0 e)

pub escape_cases :
    {c x : ℕ} {p s : Bytes}
    → c ≡ b'\\'
    → first p ≢ 0
    → Matches (c ∷ p) (x ∷ s)
    → (x ≡ first p) × (x < 128) × Matches (rest_of p) s
escape_cases e nz (escape e' n m l d) = (m, l, d)
escape_cases e nz (leave e' d) = absurd (omega arith)
escape_cases e nz (more e' d) = absurd (omega arith)
escape_cases e nz (any e' d) = absurd (omega arith)
escape_cases e nz (class e' b d) = absurd (omega arith)
escape_cases e nz (bracket e' b m d) = absurd (omega arith)
escape_cases e nz (byte l m b d) = absurd (nz (l.3 e))

pub any_cases : {c x : ℕ} {p s : Bytes} → c ≡ b'?' → Matches (c ∷ p) (x ∷ s) → Matches p s
any_cases e (escape e' n m l d) = absurd (omega arith)
any_cases e (leave e' d) = absurd (omega arith)
any_cases e (more e' d) = absurd (omega arith)
any_cases e (any e' d) = d
any_cases e (class e' b d) = absurd (omega arith)
any_cases e (bracket e' b m d) = absurd (omega arith)
any_cases e (byte l m b d) = absurd (l.1 e)

-- A '[' matches by its class, or as itself where the class has no end.
pub class_cases :
    {c x : ℕ} {p s : Bytes}
    → c ≡ b'['
    → Matches (c ∷ p) (x ∷ s)
    → ((rest : Bytes) × (match_bracket x p ≡ some (true, rest)) × Matches rest s)
      ⊎ ((match_bracket x p ≡ none) × (x ≡ b'[') × Matches p s)
class_cases e (escape e' n m l d) = absurd (omega arith)
class_cases e (leave e' d) = absurd (omega arith)
class_cases e (more e' d) = absurd (omega arith)
class_cases e (any e' d) = absurd (omega arith)
class_cases e (class e' b d) = inl (_, b, d)
class_cases e (bracket e' b m d) = inr (b, m, d)
class_cases e (byte l m b d) = absurd (l.2 e)

pub byte_cases :
    {c x : ℕ} {p s : Bytes}
    → IsLiteral c p
    → Matches (c ∷ p) (x ∷ s)
    → (x ≡ c) × (x < 128) × Matches p s
byte_cases l (escape e' n m b d) = absurd (n (l.3 e'))
byte_cases l (leave e' d) = absurd (l.0 e')
byte_cases l (more e' d) = absurd (l.0 e')
byte_cases l (any e' d) = absurd (l.1 e')
byte_cases l (class e' b d) = absurd (l.2 e')
byte_cases l (bracket e' b m d) = absurd (l.2 e')
byte_cases l (byte l' m b d) = (m, b, d)
