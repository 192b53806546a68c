-- ===== src/Compat/Paths/Collapse.antt =====
-- What the loop of realpath keeps of a path, component by component.
use c_lite.Base.{
  ℕ, zero, suc, ◌-◌, ◌≤◌, ◌<◌, ◌≡◌, refl, inl, inr, Bool, true, false, ◌||◌, List, [], ◌∷◌, ◌++◌,
  some, ◌==◌, if◌then◌else◌, ne→==, length, take, ap, Bool-cases, arith,
}
use c_lite.Text.{Bytes, first, has}
use c_lite.Compat.Paths.{at_double, at_dot, or_root, collapse, absolute, realpath}
use c_lite.Syscall.{Os, World}

-- The components with a slash in front of each.
unfoldable pub slashed : List Bytes → Bytes
slashed [] = []
slashed (c ∷ cs) = b'/' ∷ c ++ slashed cs

abbrev pub is_dot : Bytes → Bool
is_dot [] = false
is_dot (x ∷ []) = x == b'.'
is_dot (x ∷ y ∷ ys) = false

-- An empty component is left out with its slash, but not at the end, where the slash stays. A "." is
-- left out with its slash.
unfoldable pub kept : List Bytes → Bytes
kept [] = []
kept ([] ∷ []) = b'/' ∷ []
kept ([] ∷ d ∷ ds) = kept (d ∷ ds)
kept ((x ∷ xs) ∷ cs) = if is_dot (x ∷ xs) then kept cs else b'/' ∷ (x ∷ xs) ++ kept cs

-- Components are free of slashes and of NULs.
unfoldable pub AreComponents : List Bytes → Type 0
AreComponents [] = Unit
AreComponents (c ∷ cs) = (has b'/' c ≡ false) × (has 0 c ≡ false) × AreComponents cs

-- What the loop gives on a text, with enough fuel and room.
abbrev Gives : Bytes → Bytes → Type 0
Gives text kept_bytes =
    (f room : ℕ) → length text < f → length text ≤ room → collapse f room text ≡ some kept_bytes

-- A round that keeps its byte.
keep_round :
    (x : ℕ) (text r : Bytes)
    → at_double x text ≡ false
    → at_dot x text ≡ false
    → Gives text r
    → Gives (x ∷ text) (x ∷ r)
unfolding collapse
keep_round x text r single plain later zero room enough fit = absurd (omega arith)
keep_round x text r single plain later (suc f) room enough fit =
    rw (ne→== room 0 (omega arith), single, plain, later f (room - 1) (omega arith) (omega arith))
      refl

skip_round : (x : ℕ) (text r : Bytes) → at_double x text ≡ true → Gives text r → Gives (x ∷ text) r
unfolding collapse
skip_round x text r double later zero room enough fit = absurd (omega arith)
skip_round x text r double later (suc f) room enough fit =
    rw (ne→== room 0 (omega arith), double) (later f room (omega arith) (omega arith))

dot_round :
    (x y : ℕ) (text r : Bytes)
    → at_double x (y ∷ text) ≡ false
    → at_dot x (y ∷ text) ≡ true
    → Gives text r
    → Gives (x ∷ y ∷ text) r
unfolding collapse
dot_round x y text r single dot later zero room enough fit = absurd (omega arith)
dot_round x y text r single dot later (suc f) room enough fit =
    rw (ne→== room 0 (omega arith), single, dot) (later f room (omega arith) (omega arith))

nil_round : Gives [] []
unfolding collapse
nil_round zero room enough fit = absurd (omega arith)
nil_round (suc f) room enough fit = refl

-- Bytes without a slash are kept.
run : (c text r : Bytes) → has b'/' c ≡ false → Gives text r → Gives (c ++ text) (c ++ r)
unfolding has
run [] text r free later = later
run (x ∷ xs) text r free later =
    let no_slash : (x == b'/') ≡ false = ground arith in
    let free' : has b'/' xs ≡ false = ground arith in
    keep_round x (xs ++ text) (xs ++ r) (rw no_slash refl) (rw no_slash refl)
      (run xs text r free' later)

-- A component with a byte in it, and its slash.
kept_round :
    (x : ℕ) (xs text r : Bytes)
    → has b'/' (x ∷ xs) ≡ false
    → at_dot b'/' (x ∷ xs ++ text) ≡ false
    → Gives text r
    → Gives (b'/' ∷ (x ∷ xs) ++ text) (b'/' ∷ (x ∷ xs) ++ r)
kept_round x xs text r free plain later =
    keep_round b'/' ((x ∷ xs) ++ text) ((x ∷ xs) ++ r) (unfold has in ground arith) plain
      (run (x ∷ xs) text r free later)

slashed_end : (cs : List Bytes) → (first (slashed cs) == b'/' || first (slashed cs) == 0) ≡ true
unfolding slashed
slashed_end [] = refl
slashed_end (c ∷ cs) = refl

slashed-kept : (cs : List Bytes) → AreComponents cs → Gives (slashed cs) (kept cs)
unfolding AreComponents slashed kept
slashed-kept [] parts = nil_round
slashed-kept ([] ∷ []) parts = keep_round b'/' [] [] refl refl nil_round
slashed-kept ([] ∷ d ∷ ds) (free, text, parts) =
    skip_round b'/' (slashed (d ∷ ds)) (kept (d ∷ ds)) refl (slashed-kept (d ∷ ds) parts)
slashed-kept ((x ∷ []) ∷ cs) (free, text, parts) = elim (Bool-cases (x == b'.')) [
  | inl dot ↦ rw dot (
      dot_round b'/' x (slashed cs) (kept cs) (unfold has in ground arith) (rw dot (slashed_end cs))
        (slashed-kept cs parts))
  | inr other ↦
      rw other (kept_round x [] (slashed cs) (kept cs) free (rw other refl) (slashed-kept cs parts))
]
slashed-kept ((x ∷ y ∷ ys) ∷ cs) (free, text, parts) =
    kept_round x (y ∷ ys) (slashed cs) (kept cs) free (unfold has in ground arith)
      (slashed-kept cs parts)

take_whole : (n : ℕ) (xs : Bytes) → length xs ≤ n → take n xs ≡ xs
take_whole zero [] h = refl
take_whole (suc n) [] h = refl
take_whole zero (x ∷ xs) h = absurd (omega arith)
take_whole (suc n) (x ∷ xs) h = ap (λ r. x ∷ r) (take_whole n xs (omega arith))

-- An empty path stands for the root.
abbrev pub rooted : Bytes → Bytes
rooted [] = b'/' ∷ []
rooted (c ∷ cs) = c ∷ cs

rooted-or_root : (cs : Bytes) → or_root (some cs) ≡ some (rooted cs)
rooted-or_root [] = refl
rooted-or_root (c ∷ cs) = refl

-- An absolute path of at most 1023 bytes, of components without slashes and NULs and each behind a slash:
-- with more fuel than the path has bytes, and a buffer or a block from malloc, realpath returns the path
-- without its "." components and without its empty ones, each with its slash. Of an empty last
-- component the slash stays. Every other component, ".." too, is kept as it is, and where nothing is
-- left the result is the root. The kernel and errno are left as they are.
pub realpath-kept :
    (O : Os) (fuel : ℕ) (granted resolved : Bool) (c : Bytes) (cs : List Bytes) (w : World O)
    → AreComponents (c ∷ cs)
    → length (slashed (c ∷ cs)) ≤ 1023
    → length (slashed (c ∷ cs)) < fuel
    → (resolved || granted) ≡ true
    → realpath O fuel granted resolved (some (slashed (c ∷ cs))) w
      ≡ (some (some (rooted (kept (c ∷ cs)))), w)
unfolding realpath absolute slashed
realpath-kept O fuel granted resolved c cs w parts small enough given =
    rw
      (
        take_whole 1023 (slashed (c ∷ cs)) small,
        slashed-kept (c ∷ cs) parts fuel 1023 enough small,
        rooted-or_root (kept (c ∷ cs)),
        given,
      )
      refl
