-- ===== src/Fnmatch/Decides.antt =====
-- fnmatch without flags against what its patterns mean.
use c_lite.Base.{
  ℕ, zero, suc, ◌<◌, ◌≡◌, ◌≢◌, ◌⊎◌, ◌↔◌, inl, inr, refl, Bool, true, false, not, ◌&&◌, [], ◌∷◌,
  Option, none, some, ◌==◌, ne→==, ==→eq, ==→ne, length, arith, Bool-cases,
}
use c_lite.Text.{Bytes, first, rest_of}
use c_lite.Memory.{NoNul}
use c_lite.Fnmatch.{skip_stars, match_from, fnmatch}
use c_lite.Fnmatch.Rest.{Fits, match_bracket-Fits, skip_stars-Fits, rest_of-Fits, tail-Fits}
use c_lite.Fnmatch.Wildcards.{no_flags, IsLiteral, Matches, done, no_empty}
use c_lite.Fnmatch.Stars.{Decides}
use c_lite.Fnmatch.Rounds.{from_escape, from_star, from_any, from_class, from_byte}

-- What the first byte of a pattern does.
kinds :
    (c : ℕ) (p : Bytes)
    → ((c ≡ b'\\') × (first p ≢ 0)) ⊎ (c ≡ b'*') ⊎ (c ≡ b'?') ⊎ (c ≡ b'[') ⊎ IsLiteral c p
kinds c p = elim (Bool-cases (c == b'\\' && not (first p == 0))) [
  | inl e ↦ inl (ground arith)
  | inr e ↦ elim (Bool-cases (c == b'*')) [
    | inl star ↦ inr (inl (==→eq c _ star))
    | inr n1 ↦ elim (Bool-cases (c == b'?')) [
      | inl one ↦ inr (inr (inl (==→eq c _ one)))
      | inr n2 ↦ elim (Bool-cases (c == b'[')) [
        | inl set ↦ inr (inr (inr (inl (==→eq c _ set))))
        | inr n3 ↦
            inr (inr (inr (inr (==→ne c _ n1, ==→ne c _ n2, ==→ne c _ n3, λ h. ground arith))))
      ]
    ]
  ]
]

from_end :
    (f : ℕ) (at_start : Bool) (s : Bytes)
    → NoNul s
    → Decides (Matches [] s) (match_from (suc f) no_flags at_start [] s)
unfolding Decides match_from
from_end f at_start [] no_nul = done
from_end f at_start (x ∷ s) (nx, no_nul) = rw (ne→== x 0 nx) no_empty

match_from-Decides :
    (f : ℕ) (at_start : Bool) (p s : Bytes)
    → Fits f p
    → NoNul s
    → Decides (Matches p s) (match_from f no_flags at_start p s)
match_from-Decides zero at_start p s fits no_nul = let e = fits.enough in absurd (omega arith)
match_from-Decides (suc f) at_start [] s fits no_nul = from_end f at_start s no_nul
match_from-Decides (suc f) at_start (c ∷ p) s fits no_nul =
    let nz : c ≢ 0 = fits.no_nul.0 in
    let rest : Fits f p = tail-Fits fits in
    elim (kinds c p) [
      | inl (e, n) ↦
          from_escape f at_start c p s e n no_nul
            (λ t. match_from-Decides f false (rest_of p) t (rest_of-Fits p rest))
      | inr (inl e) ↦
          let skipped = skip_stars-Fits p rest in
          from_star f at_start c p s e skipped.no_nul no_nul
            (λ t. match_from-Decides f true (skip_stars p) t skipped)
      | inr (inr (inl e)) ↦
          from_any f at_start c p s e no_nul (λ t. match_from-Decides f false p t rest)
      | inr (inr (inr (inl e))) ↦
          from_class f at_start c p s e no_nul (λ t. match_from-Decides f false p t rest)
            (λ x r q t found.
              match_from-Decides f false q t (match_bracket-Fits x p r q found rest))
      | inr (inr (inr (inr l))) ↦
          from_byte f at_start c p s l nz no_nul (λ t. match_from-Decides f false p t rest)
    ]

Decides-answer :
    (G : Type 0) (o : Option Bool) → Decides G o → (r : Bool) × (o ≡ some r) × ((r ≡ true) ↔ G)
unfolding Decides
Decides-answer G none d = absurd d
Decides-answer G (some true) d = (true, refl, (λ _. d, λ _. refl))
Decides-answer G (some false) d = (false, refl, (λ h. cc, λ g. absurd (d g)))

-- For a pattern and a string without NUL, no flags, and more fuel than the pattern has bytes: fnmatch
-- returns, and it matches exactly where the pattern means the string by `Matches`: '*' any bytes,
-- '?' one byte, '[' one byte by its class or itself where the class has no end, a backslash the
-- byte behind it, and every other byte itself if it is below 128. What a class holds is the answer
-- of match_bracket.
pub fnmatch-Matches :
    (pattern string : Bytes) (fuel : ℕ)
    → NoNul pattern
    → NoNul string
    → length pattern < fuel
    → (r : Bool) × (fnmatch fuel pattern string no_flags ≡ some r)
      × ((r ≡ true) ↔ Matches pattern string)
unfolding fnmatch
fnmatch-Matches pattern string fuel no_nul no_nul_s enough = Decides-answer _ _ (
    match_from-Decides fuel true pattern string (record { no_nul = no_nul; enough = enough })
      no_nul_s)
