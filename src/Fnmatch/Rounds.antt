-- ===== src/Fnmatch/Rounds.antt =====
-- A round of fnmatch without flags decides what the pattern means, where the call behind it does.
use c_lite.Base.{
  ℕ, suc, ◌<◌, ◌≡◌, ◌≢◌, inl, inr, refl, sym, ◌∙◌, Bool, true, false, not, ◌||◌, [], ◌∷◌, Option,
  none, some, ◌==◌, ne→==, ==→eq, if◌then◌else◌, arith,
}
use c_lite.Text.{Bytes, first, rest_of}
use c_lite.Memory.{NoNul}
use c_lite.Fnmatch.{match_bracket, skip_stars, differs, after_bracket, match_from}
use c_lite.Fnmatch.Wildcards.{
  no_flags, IsLiteral, Matches, escape, any, class, bracket, byte, only_star, escape_cases,
  any_cases, class_cases, byte_cases,
}
use c_lite.Fnmatch.Stars.{
  Decides, Decides-iff, if-Decides, try_ends-Decides, all_matched, stars-skip, stars-unskip,
}
use c_lite.Fnmatch.Steps.{step_escape, step_star, step_any, step_class, step_byte}

-- One byte of the string against one that has to be there.
byte-Decides :
    (G H : Type 0) (c x : ℕ) (s : Bytes) (call : Option Bool)
    → c ≢ 0
    → (x ≡ c → x < 128 → G → H)
    → (H → (x ≡ c) × (x < 128) × G)
    → Decides G call
    → Decides H (if differs (x ∷ s) c then some false else call)
unfolding Decides
byte-Decides G H c x s call nz to from d =
    if-Decides H (differs (x ∷ s) c) (some false) call
      (λ miss h. let (e, small, _) = from h in ground arith)
      (λ hit. Decides-iff G H call (to (ground arith) (ground arith)) (λ h. (from h).2) d)

-- Where the string has ended only stars match.
empty-Decides : (c : ℕ) (p : Bytes) → c ≢ b'*' → Decides (Matches (c ∷ p) []) (some false)
unfolding Decides
empty-Decides c p n d = n (only_star d)

none_found : {A : Type 0} {x : A} → none ≡ some x → ⊥
none_found e = cc

same_found :
    {found : Option (Bool × Bytes)} (s : Bytes) (r : Bool) (rest rest' : Bytes)
    → found ≡ some (r, rest)
    → found ≡ some (true, rest')
    → Matches rest' s
    → (r ≡ true) × Matches rest s
same_found s r rest rest' this that d =
    let e : rest ≡ rest' = cc in let holds : r ≡ true = cc in (holds, rw e d)

-- A '[' whose class has no end, and one whose class has one.
open_cases :
    {c x : ℕ} {p s : Bytes}
    → c ≡ b'['
    → match_bracket x p ≡ none
    → Matches (c ∷ p) (x ∷ s)
    → (x ≡ b'[') × Matches p s
open_cases e b h = elim (class_cases e h) [
  | inl (rest, b', d) ↦ absurd (none_found (sym b ∙ b'))
  | inr (b', m, d) ↦ (m, d)
]

closed_cases :
    {c x : ℕ} {p s : Bytes} (r : Bool) (rest : Bytes)
    → c ≡ b'['
    → match_bracket x p ≡ some (r, rest)
    → Matches (c ∷ p) (x ∷ s)
    → (r ≡ true) × Matches rest s
closed_cases {s = s} r rest e b h = elim (class_cases e h) [
  | inl (rest', b', d) ↦ same_found s r rest rest' b b' d
  | inr (b', m, d) ↦ absurd (none_found (sym b' ∙ b))
]

-- A '[' on a byte.
class-Decides :
    (c x : ℕ) (p s : Bytes) (found : Option (Bool × Bytes)) (literal : Option Bool)
    (next : Bytes → Option Bool)
    → c ≡ b'['
    → match_bracket x p ≡ found
    → Decides (Matches p s) literal
    → ((r : Bool) (rest : Bytes) → found ≡ some (r, rest) → Decides (Matches rest s) (next rest))
    → Decides (Matches (c ∷ p) (x ∷ s)) (after_bracket (x ∷ s) found literal next)
unfolding Decides
class-Decides c x p s none literal next e b d k =
    if-Decides _ (not (x == b'[')) (some false) literal
      (λ miss h. let (m, _) = open_cases e b h in ground arith)
      (λ hit.
        let m : x ≡ b'[' = ground arith in
        Decides-iff _ _ literal (bracket e b m) (λ h. (open_cases e b h).1) d)
class-Decides c x p s (some (r, rest)) literal next e b d k =
    if-Decides _ (not r) (some false) (next rest)
      (λ no h. let (holds, _) = closed_cases r rest e b h in ground arith)
      (λ hit.
        let holds : r ≡ true = ground arith in
        Decides-iff _ _ (next rest) (class e (rw (sym holds) b))
          (λ h. (closed_cases r rest e b h).1) (k r rest refl))

or_false : (b e : Bool) → e ≡ false → (b || e) ≡ b
or_false true e h = refl
or_false false e h = h

end-Decides :
    (c : ℕ) (q s : Bytes)
    → c ≡ b'*'
    → NoNul q
    → first q ≡ 0
    → Decides (Matches (c ∷ q) s) (some true)
unfolding Decides
end-Decides c [] s e no_nul ended = all_matched c s e
end-Decides c (x ∷ q) s e (nz, no_nul) ended = absurd (nz ended)

-- The rounds, where the calls behind them decide.
module _ (f : ℕ) (at_start : Bool) (c : ℕ) (p : Bytes) where
  pub from_escape :
      (s : Bytes)
      → c ≡ b'\\'
      → first p ≢ 0
      → NoNul s
      → ((t : Bytes)
          → NoNul t
          → Decides (Matches (rest_of p) t) (match_from f no_flags false (rest_of p) t))
      → Decides (Matches (c ∷ p) s) (match_from (suc f) no_flags at_start (c ∷ p) s)
  from_escape [] e nz no_nul later = rw (step_escape f at_start c p [] e nz) (
      if-Decides _ (differs [] (first p) || true) (some false) _
        (λ _. empty-Decides c p (omega arith)) (λ h. absurd (ground arith)))
  from_escape (x ∷ s) e nz (nx, no_nul) later =
      rw
        (
          step_escape f at_start c p (x ∷ s) e nz,
          or_false (differs (x ∷ s) (first p)) (x == 0) (ne→== x 0 nx),
        )
        (byte-Decides _ _ (first p) x s _ nz (escape e nz) (escape_cases e nz) (later s no_nul))

  pub from_star :
      (s : Bytes)
      → c ≡ b'*'
      → NoNul (skip_stars p)
      → NoNul s
      → ((t : Bytes)
          → NoNul t
          → Decides (Matches (skip_stars p) t) (match_from f no_flags true (skip_stars p) t))
      → Decides (Matches (c ∷ p) s) (match_from (suc f) no_flags at_start (c ∷ p) s)
  from_star s e no_nul no_nul_s later =
      Decides-iff _ _ _ (stars-unskip c p s e) (stars-skip c p s e) (
        rw (step_star f at_start c p s e) (
          if-Decides _ (first (skip_stars p) == 0) (some true) _
            (λ ended.
              end-Decides c (skip_stars p) s e no_nul (==→eq (first (skip_stars p)) 0 ended))
            (λ _. try_ends-Decides _ c (skip_stars p) s e no_nul_s later)))

  pub from_any :
      (s : Bytes)
      → c ≡ b'?'
      → NoNul s
      → ((t : Bytes) → NoNul t → Decides (Matches p t) (match_from f no_flags false p t))
      → Decides (Matches (c ∷ p) s) (match_from (suc f) no_flags at_start (c ∷ p) s)
  from_any [] e no_nul later = rw (step_any f at_start c p [] e) (empty-Decides c p (omega arith))
  from_any (x ∷ s) e (nx, no_nul) later =
      rw (step_any f at_start c p (x ∷ s) e, ne→== x 0 nx)
        (Decides-iff _ _ _ (any e) (any_cases e) (later s no_nul))

  pub from_class :
      (s : Bytes)
      → c ≡ b'['
      → NoNul s
      → ((t : Bytes) → NoNul t → Decides (Matches p t) (match_from f no_flags false p t))
      → ((x : ℕ) (r : Bool) (rest t : Bytes)
          → match_bracket x p ≡ some (r, rest)
          → NoNul t
          → Decides (Matches rest t) (match_from f no_flags false rest t))
      → Decides (Matches (c ∷ p) s) (match_from (suc f) no_flags at_start (c ∷ p) s)
  from_class [] e no_nul later closed =
      rw (step_class f at_start c p [] e) (empty-Decides c p (omega arith))
  from_class (x ∷ s) e (nx, no_nul) later closed =
      rw (step_class f at_start c p (x ∷ s) e, ne→== x 0 nx)
        (class-Decides c x p s (match_bracket x p) _ _ e refl (later s no_nul)
          (λ r rest found. closed x r rest s found no_nul))

  pub from_byte :
      (s : Bytes)
      → IsLiteral c p
      → c ≢ 0
      → NoNul s
      → ((t : Bytes) → NoNul t → Decides (Matches p t) (match_from f no_flags false p t))
      → Decides (Matches (c ∷ p) s) (match_from (suc f) no_flags at_start (c ∷ p) s)
  from_byte [] l nz no_nul later = rw (step_byte f at_start c p [] l) (
      if-Decides _ (differs [] c) (some false) _ (λ _. empty-Decides c p l.0)
        (λ h. absurd (ground arith)))
  from_byte (x ∷ s) l nz (nx, no_nul) later =
      rw (step_byte f at_start c p (x ∷ s) l)
        (byte-Decides _ _ c x s _ nz (byte l) (byte_cases l) (later s no_nul))
