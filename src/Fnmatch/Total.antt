-- ===== src/Fnmatch/Total.antt =====
-- fnmatch returns, whatever its flags.
use c_lite.Base.{
  ℕ, zero, suc, ◌<◌, ◌≡◌, refl, Bool, true, false, not, ◌&&◌, [], ◌∷◌, Option, none, some, ◌==◌,
  if◌then◌else◌, ◌>>=◌, length, arith,
}
use c_lite.Text.{Bytes, first, rest_of}
use c_lite.Fnmatch.{Flags, match_bracket, skip_stars, try_ends, after_bracket, match_from, fnmatch}
use c_lite.Memory.{NoNul}
use c_lite.Fnmatch.Rest.{Fits, match_bracket-Fits, skip_stars-Fits, rest_of-Fits, tail-Fits}

unfoldable Returns : Option Bool → Type 0
Returns none = ⊥
Returns (some r) = Unit

if-Returns : (c : Bool) (a b : Option Bool) → Returns a → Returns b → Returns (if c then a else b)
if-Returns true a b h k = h
if-Returns false a b h k = k

some-Returns : (r : Bool) → Returns (some r)
unfolding Returns
some-Returns r = tt

bind-Returns :
    (now later : Option Bool)
    → Returns now
    → Returns later
    → Returns (do r ← now; if r then some true else later)
unfolding Returns
bind-Returns none later h k = h
bind-Returns (some true) later h k = tt
bind-Returns (some false) later h k = k

try_ends-Returns :
    (call : Bytes → Option Bool) (pathname : Bool) (s : Bytes)
    → ((t : Bytes) → Returns (call t))
    → Returns (try_ends call pathname s)
unfolding try_ends
try_ends-Returns call pathname [] h = h []
try_ends-Returns call pathname (x ∷ xs) h =
    if-Returns (pathname && x == b'/') _ _ (h (x ∷ xs))
      (bind-Returns _ _ (h (x ∷ xs)) (try_ends-Returns call pathname xs h))

after_bracket-Returns :
    (s : Bytes) (found : Option (Bool × Bytes)) (literal : Option Bool) (next : Bytes → Option Bool)
    → Returns literal
    → ((r : Bool) (rest : Bytes) → found ≡ some (r, rest) → Returns (next rest))
    → Returns (after_bracket s found literal next)
after_bracket-Returns s none literal next h k = search (if-Returns, some-Returns, h) depth 5
after_bracket-Returns s (some (r, rest)) literal next h k =
    if-Returns (not r) _ _ (some-Returns false) (k r rest refl)

-- One round, where the calls behind it return.
step-Returns :
    (f : ℕ) (fl : Flags) (at_start : Bool) (c : ℕ) (p s : Bytes)
    → Fits f p
    → ((b : Bool) (q t : Bytes) → Fits f q → Returns (match_from f fl b q t))
    → Returns (match_from (suc f) fl at_start (c ∷ p) s)
unfolding match_from
step-Returns f fl at_start c p s rest call =
    let one = call false p (rest_of s) rest in
    let escaped = call false (rest_of p) (rest_of s) (rest_of-Fits p rest) in
    let literal = call (fl.pathname && c == b'/') p (rest_of s) rest in
    let any =
      try_ends-Returns (match_from f fl true (skip_stars p)) fl.pathname s
        (λ t. call true (skip_stars p) t (skip_stars-Fits p rest)) in
    let class =
      after_bracket-Returns s (match_bracket (first s) p) (match_from f fl false p (rest_of s))
        (λ q. match_from f fl false q (rest_of s)) one
        (λ r q found. call false q (rest_of s) (match_bracket-Fits (first s) p r q found rest)) in
    search (if-Returns, some-Returns, one, escaped, literal, any, class) depth 12

match_from-Returns :
    (f : ℕ) (fl : Flags) (at_start : Bool) (p s : Bytes)
    → Fits f p
    → Returns (match_from f fl at_start p s)
match_from-Returns zero fl at_start p s fits = let e = fits.enough in absurd (omega arith)
match_from-Returns (suc f) fl at_start [] s fits = unfold match_from in some-Returns _
match_from-Returns (suc f) fl at_start (c ∷ p) s fits =
    step-Returns f fl at_start c p s (tail-Fits fits) (λ b q t. match_from-Returns f fl b q t)

returned : (o : Option Bool) → Returns o → (r : Bool) × (o ≡ some r)
unfolding Returns
returned none h = absurd h
returned (some r) h = (r, refl)

-- For a pattern without NUL and more fuel than it has bytes: fnmatch returns, whatever the flags
-- and the string are.
pub fnmatch-total :
    (pattern string : Bytes) (fuel : ℕ) (fl : Flags)
    → NoNul pattern
    → length pattern < fuel
    → (r : Bool) × (fnmatch fuel pattern string fl ≡ some r)
unfolding fnmatch
fnmatch-total pattern string fuel fl no_nul enough =
    returned (match_from fuel fl true pattern string)
      (match_from-Returns fuel fl true pattern string (record { no_nul = no_nul; enough = enough }))
