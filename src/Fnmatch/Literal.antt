-- ===== src/Fnmatch/Literal.antt =====
-- Patterns without special bytes.
use c_lite.Base.{
  ℕ, zero, suc, ◌<◌, ◌≡◌, ◌≢◌, ◌↔◌, refl, sym, ◌∙◌, inl, inr, Bool, true, false, ◌&&◌, [], ◌∷◌,
  Option, some, ltb, ◌==◌, ne→==, if◌then◌else◌, arith, Bool-cases, length,
}
use c_lite.Text.{Bytes, rest_of}
use c_lite.Memory.{NoNul}
use c_lite.Fnmatch.{Flags, differs, match_from, fnmatch}

-- Every byte of the pattern stands for itself.
abbrev pub IsPlain : Bytes → Type 0
IsPlain [] = Unit
IsPlain (c ∷ cs) = (c ≢ 0) × (c ≢ b'\\') × (c ≢ b'*') × (c ≢ b'?') × (c ≢ b'[') × IsPlain cs

abbrev pub IsAscii : Bytes → Type 0
IsAscii [] = Unit
IsAscii (c ∷ cs) = (c < 128) × IsAscii cs

-- A round on a plain byte.
plain_step :
    (f : ℕ) (fl : Flags) (at_start : Bool) (c : ℕ) (cs string : Bytes)
    → IsPlain (c ∷ cs)
    → match_from (suc f) fl at_start (c ∷ cs) string ≡ (
        if differs string c
        then some false
        else match_from f fl (fl.pathname && c == b'/') cs (rest_of string))
unfolding match_from
plain_step f fl at_start c cs string (nz, n1, n2, n3, n4, plain) =
    rw (ne→== c _ n1, ne→== c _ n2, ne→== c _ n3, ne→== c _ n4) refl

empty_no : {x : ℕ} {xs : Bytes} → [] ≡ x ∷ xs → ⊥
empty_no h = cc

same_byte :
    (c x : ℕ) (cs xs : Bytes) (r : Bool)
    → (x == c && ltb c 128) ≡ true
    → (r ≡ true) ↔ ((cs ≡ xs) × IsAscii cs)
    → (r ≡ true) ↔ ((c ∷ cs ≡ x ∷ xs) × IsAscii (c ∷ cs))
same_byte c x cs xs r hit iff =
    let e : c ≡ x = ground arith in
    let small : c < 128 = ground arith in
    (
      λ h. let (rest, ascii) = iff.0 h in (rw (e, rest), (small, ascii)),
      λ h. let tail : cs ≡ xs = cc in iff.1 (tail, h.1.1),
    )

other_byte :
    (c x : ℕ) (cs xs : Bytes)
    → (x == c && ltb c 128) ≡ false
    → (c ∷ cs ≡ x ∷ xs) × IsAscii (c ∷ cs)
    → ⊥
other_byte c x cs xs miss (same, (small, ascii)) = let e : c ≡ x = cc in ground arith

no_byte : (c : ℕ) (r : Option Bool) → c ≢ 0 → (if differs [] c then some false else r) ≡ some false
no_byte c r nz = rw (ne→== 0 c (λ e. nz (sym e))) refl

match_from-plain :
    (cs string : Bytes) (f : ℕ) (fl : Flags) (at_start : Bool)
    → IsPlain cs
    → NoNul string
    → length cs < f
    → (r : Bool) × (match_from f fl at_start cs string ≡ some r)
      × ((r ≡ true) ↔ ((cs ≡ string) × IsAscii cs))
match_from-plain cs string zero fl at_start plain no_nul enough = absurd (omega arith)
match_from-plain [] [] (suc f) fl at_start plain no_nul enough =
    (true, unfold match_from in refl, (λ _. (refl, tt), λ _. refl))
match_from-plain [] (x ∷ xs) (suc f) fl at_start plain (nz, no_nul) enough =
    (false, unfold match_from in rw (ne→== x 0 nz) refl, (λ h. cc, λ h. absurd (empty_no h.0)))
match_from-plain (c ∷ cs) [] (suc f) fl at_start (nz, n1, n2, n3, n4, plain) no_nul enough = (
  false,
  plain_step f fl at_start c cs [] (nz, n1, n2, n3, n4, plain)
      ∙ no_byte c (match_from f fl (fl.pathname && c == b'/') cs []) nz,
  (λ h. cc, λ h. absurd (empty_no (sym h.0))),
)
match_from-plain (c ∷ cs) (x ∷ xs) (suc f) fl at_start (nz, n1, n2, n3, n4, plain) (nx, no_nul)
      enough =
    let step = plain_step f fl at_start c cs (x ∷ xs) (nz, n1, n2, n3, n4, plain) in
    let (r, run, iff) =
      match_from-plain cs xs f fl (fl.pathname && c == b'/') plain no_nul (omega arith) in
    elim (Bool-cases (x == c && ltb c 128)) [
      | inl hit ↦ (r, rw (step, hit) run, same_byte c x cs xs r hit iff)
      | inr miss ↦
          (false, rw (step, miss) refl, (λ h. cc, λ h. absurd (other_byte c x cs xs miss h)))
    ]

-- For a pattern of bytes that all stand for themselves and a string, with more fuel than the pattern
-- has bytes: fnmatch returns, whatever the flags, and it matches exactly where the two are equal
-- and every byte is below 128. A literal byte from 128 on matches nothing, itself included.
pub fnmatch-IsPlain :
    (pattern string : Bytes) (fuel : ℕ) (fl : Flags)
    → IsPlain pattern
    → NoNul string
    → length pattern < fuel
    → (r : Bool) × (fnmatch fuel pattern string fl ≡ some r)
      × ((r ≡ true) ↔ ((pattern ≡ string) × IsAscii pattern))
unfolding fnmatch
fnmatch-IsPlain pattern string fuel fl plain no_nul enough =
    match_from-plain pattern string fuel fl true plain no_nul enough
