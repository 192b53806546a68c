-- ===== src/Fnmatch/Rest.antt =====
-- What the loops over the pattern leave is a rest of it.
use c_lite.Base.{
  ℕ, zero, suc, ◌<◌, ◌≡◌, inl, inr, refl, Bool, true, false, not, ◌&&◌, ◌||◌, [], ◌∷◌, Option, none,
  some, ◌==◌, if◌then◌else◌, length, arith, leb, Bool-cases,
}
use c_lite.Text.{Bytes, first, rest_of}
use c_lite.Memory.{NoNul}
use c_lite.Fnmatch.{member, range_end, bracket_loop, match_bracket, skip_stars}

-- A pattern without NUL that the fuel is enough for.
pub record Fits (f : ℕ) (p : Bytes) : Type 0 where
  pub no_nul : NoNul p
  pub enough : length p < f

pub tail-Fits : {f c : ℕ} {p : Bytes} → Fits (suc f) (c ∷ p) → Fits f p
tail-Fits h = record { no_nul = h.no_nul.1; enough = let e = h.enough in omega arith }

pub weaken-Fits : {f : ℕ} {p : Bytes} → Fits f p → Fits (suc f) p
weaken-Fits h = record { no_nul = h.no_nul; enough = let e = h.enough in omega arith }

pub rest_of-Fits : {f : ℕ} (p : Bytes) → Fits f p → Fits f (rest_of p)
rest_of-Fits [] h = h
rest_of-Fits (c ∷ p) h = tail-Fits (weaken-Fits h)

member-Fits : {f : ℕ} (p : Bytes) → Fits f p → Fits f (member p).1
member-Fits p h = elim (Bool-cases (first p == b'\\' && not (first (rest_of p) == 0))) [
  | inl e ↦ rw e (rest_of-Fits (rest_of p) (rest_of-Fits p h))
  | inr e ↦ rw e (rest_of-Fits p h)
]

range_end-Fits : {f : ℕ} (lo : ℕ) (p : Bytes) → Fits f p → Fits f (range_end lo p).1
range_end-Fits lo p h =
    elim (Bool-cases
      (first p == b'-' && not (first (rest_of p) == 0) && not (first (rest_of p) == b']'))) [
        | inl e ↦ rw e (member-Fits (rest_of p) (rest_of-Fits p h))
        | inr e ↦ rw e h
      ]

bracket_loop-Fits :
    (n : ℕ) {f : ℕ} (c : ℕ) (at_first matched : Bool) (p : Bytes)
    → Fits f p
    → Fits f (bracket_loop n c at_first matched p).1
unfolding bracket_loop
bracket_loop-Fits zero c at_first matched p h = h
bracket_loop-Fits (suc n) c at_first matched p h =
    let after = (member p).1 in
    let end = range_end (member p).0 after in
    let rest =
      bracket_loop-Fits n c false (matched || (leb (member p).0 c && leb c end.0)) end.1
        (range_end-Fits (member p).0 after (member-Fits p h)) in
    elim (Bool-cases (not (first p == 0) && not (first p == b']' && not at_first))) [
      | inl e ↦ rw e rest
      | inr e ↦ rw e h
    ]

rest_or_self : {f : ℕ} (b : Bool) (p : Bytes) → Fits f p → Fits f (if b then rest_of p else p)
rest_or_self true p h = rest_of-Fits p h
rest_or_self false p h = h

found_rest :
    (b e : Bool) (r r' : Bool) (rest rest' : Bytes) (o : Option (Bool × Bytes))
    → o ≡ some (r, rest)
    → (if b then none else if e then none else o) ≡ some (r', rest')
    → rest' ≡ rest
found_rest true e r r' rest rest' o same run = absurd cc
found_rest false true r r' rest rest' o same run = absurd cc
found_rest false false r r' rest rest' o same run = cc

pub match_bracket-Fits :
    {f : ℕ} (c : ℕ) (p : Bytes) (r : Bool) (rest : Bytes)
    → match_bracket c p ≡ some (r, rest)
    → Fits f p
    → Fits f rest
unfolding match_bracket
match_bracket-Fits {f = f} c p r rest run h =
    let begin = if first p == b'!' || first p == b'^' then rest_of p else p in
    let end = (bracket_loop (length begin) c true false begin).1 in
    let fits : Fits f begin = rest_or_self (first p == b'!' || first p == b'^') p h in
    let same : rest ≡ rest_of end =
      found_rest (first begin == 0) (not (first end == b']')) _ _ _ _ _ refl run in
    rw same (rest_of-Fits end (bracket_loop-Fits (length begin) c true false begin fits))

pub skip_stars-Fits : {f : ℕ} (p : Bytes) → Fits f p → Fits f (skip_stars p)
unfolding skip_stars
skip_stars-Fits [] h = h
skip_stars-Fits (c ∷ p) h = elim (Bool-cases (c == b'*')) [
  | inl e ↦ rw e (skip_stars-Fits p (tail-Fits (weaken-Fits h)))
  | inr e ↦ rw e h
]
