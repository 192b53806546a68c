-- ===== src/Fnmatch/Stars.antt =====
-- A run of stars means what one star does, and the loop over the ends of the string decides it.
use c_lite.Base.{
  ℕ, ◌≡◌, ◌⊎◌, inl, inr, refl, sym, ◌∙◌, Bool, true, false, [], ◌∷◌, Option, none, some, ◌==◌,
  ==→eq, if◌then◌else◌, ◌>>=◌, Bool-cases,
}
use c_lite.Text.{Bytes}
use c_lite.Memory.{NoNul}
use c_lite.Fnmatch.{skip_stars, try_ends}
use c_lite.Fnmatch.Wildcards.{Matches, done, leave, more, leave_empty, star_cases}

-- The code returns, and its answer is whether `G` holds.
unfoldable pub Decides : Type 0 → Option Bool → Type 0
Decides G none = ⊥
Decides G (some true) = G
Decides G (some false) = ¬ G

pub Decides-iff : (G H : Type 0) (o : Option Bool) → (G → H) → (H → G) → Decides G o → Decides H o
unfolding Decides
Decides-iff G H none to from d = d
Decides-iff G H (some true) to from d = to d
Decides-iff G H (some false) to from d = λ h. d (from h)

pub if-Decides :
    (G : Type 0) (c : Bool) (a b : Option Bool)
    → (c ≡ true → Decides G a)
    → (c ≡ false → Decides G b)
    → Decides G (if c then a else b)
if-Decides G true a b h k = h refl
if-Decides G false a b h k = k refl

-- One answer, and the other only where it is no.
either-Decides :
    (G H : Type 0) (now later : Option Bool)
    → Decides G now
    → Decides H later
    → Decides (G ⊎ H) (do r ← now; if r then some true else later)
unfolding Decides
either-Decides G H none later d e = d
either-Decides G H (some true) later d e = inl d
either-Decides G H (some false) none d e = e
either-Decides G H (some false) (some true) d e = inr e
either-Decides G H (some false) (some false) d e = λ h. elim h [ inl g ↦ d g | inr h ↦ e h ]

pub try_ends-Decides :
    (call : Bytes → Option Bool) (c : ℕ) (p s : Bytes)
    → c ≡ b'*'
    → NoNul s
    → ((t : Bytes) → NoNul t → Decides (Matches p t) (call t))
    → Decides (Matches (c ∷ p) s) (try_ends call false s)
unfolding try_ends
try_ends-Decides call c p [] e no_nul decided =
    Decides-iff _ _ (call []) (leave e) leave_empty (decided [] no_nul)
try_ends-Decides call c p (x ∷ s) e (nz, no_nul) decided =
    Decides-iff _ _ _ (λ h. elim h [ inl d ↦ leave e d | inr d ↦ more e d ]) (star_cases e)
      (either-Decides _ _ (call (x ∷ s)) (try_ends call false s) (decided (x ∷ s) (nz, no_nul))
        (try_ends-Decides call c p s e no_nul decided))

-- A star matches everything.
pub all_matched : (c : ℕ) (s : Bytes) → c ≡ b'*' → Matches (c ∷ []) s
all_matched c [] e = leave e done
all_matched c (x ∷ s) e = more e (all_matched c s e)

unskip : (p q s : Bytes) → q ≡ skip_stars p → Matches q s → Matches p s
unfolding skip_stars
unskip [] q s same d = rw (sym same) d
unskip (c ∷ p) q s same d = elim (Bool-cases (c == b'*')) [
  | inl e ↦ leave (==→eq c _ e) (unskip p q s (same ∙ rw e refl) d)
  | inr e ↦ let own : q ≡ c ∷ p = same ∙ rw e refl in rw (sym own) d
]

pub stars-unskip :
    (c : ℕ) (p s : Bytes) → c ≡ b'*' → Matches (c ∷ skip_stars p) s → Matches (c ∷ p) s
stars-unskip c p [] e d = leave e (unskip p _ [] refl (leave_empty d))
stars-unskip c p (x ∷ s) e d = elim (star_cases e d) [
  | inl d ↦ leave e (unskip p _ (x ∷ s) refl d)
  | inr d ↦ more e (stars-unskip c p s e d)
]

other_star : (c c' : ℕ) (p s : Bytes) → c' ≡ c → Matches (c' ∷ p) s → Matches (c ∷ p) s
other_star c c' p s e d = rw (sym e) d

one_star :
    (c c' : ℕ) (p s : Bytes) → c ≡ b'*' → c' ≡ b'*' → Matches (c ∷ c' ∷ p) s → Matches (c ∷ p) s
one_star c c' p [] e e' d = other_star c c' p [] (e' ∙ sym e) (leave_empty d)
one_star c c' p (x ∷ s) e e' d = elim (star_cases e d) [
  | inl d ↦ other_star c c' p (x ∷ s) (e' ∙ sym e) d
  | inr d ↦ more e (one_star c c' p s e e' d)
]

pub stars-skip : (c : ℕ) (p s : Bytes) → c ≡ b'*' → Matches (c ∷ p) s → Matches (c ∷ skip_stars p) s
unfolding skip_stars
stars-skip c [] s e d = d
stars-skip c (c' ∷ p) s e d = elim (Bool-cases (c' == b'*')) [
  | inl e' ↦ rw e' (stars-skip c p s e (one_star c c' p s e (==→eq c' _ e') d))
  | inr e' ↦ rw e' d
]
