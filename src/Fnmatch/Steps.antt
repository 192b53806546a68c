-- ===== src/Fnmatch/Steps.antt =====
-- One round of fnmatch without flags, by the byte that the pattern begins with.
use c_lite.Base.{
  ℕ, suc, ◌≡◌, ◌≢◌, inl, inr, refl, Bool, true, false, ◌||◌, ◌∷◌, some, ◌==◌, eq→==, ne→==, ==→eq,
  if◌then◌else◌, Bool-cases,
}
use c_lite.Text.{Bytes, first, rest_of}
use c_lite.Fnmatch.{match_bracket, skip_stars, try_ends, differs, after_bracket, match_from}
use c_lite.Fnmatch.Wildcards.{no_flags, IsLiteral}

-- A round, by the kind of byte that the pattern begins with.
pub step_escape :
    (f : ℕ) (at_start : Bool) (c : ℕ) (p s : Bytes)
    → c ≡ b'\\'
    → first p ≢ 0
    → match_from (suc f) no_flags at_start (c ∷ p) s ≡ (
        if differs s (first p) || first s == 0
        then some false
        else match_from f no_flags false (rest_of p) (rest_of s))
unfolding match_from
step_escape f at_start c p s e nz = rw (eq→== c _ e, ne→== (first p) 0 nz) refl

pub step_star :
    (f : ℕ) (at_start : Bool) (c : ℕ) (p s : Bytes)
    → c ≡ b'*'
    → match_from (suc f) no_flags at_start (c ∷ p) s ≡ (
        if first (skip_stars p) == 0
        then some true
        else try_ends (match_from f no_flags true (skip_stars p)) false s)
unfolding match_from
step_star f at_start c p s e = rw e refl

pub step_any :
    (f : ℕ) (at_start : Bool) (c : ℕ) (p s : Bytes)
    → c ≡ b'?'
    → match_from (suc f) no_flags at_start (c ∷ p) s ≡ (
        if first s == 0 || false || false
        then some false
        else match_from f no_flags false p (rest_of s))
unfolding match_from
step_any f at_start c p s e = rw e refl

pub step_class :
    (f : ℕ) (at_start : Bool) (c : ℕ) (p s : Bytes)
    → c ≡ b'['
    → match_from (suc f) no_flags at_start (c ∷ p) s ≡ (
        if first s == 0 || false || false
        then some false
        else after_bracket s
            (match_bracket (first s) p)
            (match_from f no_flags false p (rest_of s))
            (λ rest. match_from f no_flags false rest (rest_of s)))
unfolding match_from
step_class f at_start c p s e = rw e refl

pub step_byte :
    (f : ℕ) (at_start : Bool) (c : ℕ) (p s : Bytes)
    → IsLiteral c p
    → match_from (suc f) no_flags at_start (c ∷ p) s
      ≡ (if differs s c then some false else match_from f no_flags false p (rest_of s))
unfolding match_from
step_byte f at_start c p s (n1, n2, n3, n4) = elim (Bool-cases (c == b'\\')) [
  | inl e ↦
      rw (e, eq→== (first p) 0 (n4 (==→eq c _ e)), ne→== c _ n1, ne→== c _ n2, ne→== c _ n3) refl
  | inr e ↦ rw (e, ne→== c _ n1, ne→== c _ n2, ne→== c _ n3) refl
]
