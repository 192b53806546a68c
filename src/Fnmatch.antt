-- ===== src/Fnmatch.antt =====
-- fnmatch of src/fnmatch.c on the bytes of pattern and string. A return of 0 is `true`. One unit of
-- fuel is one round of the loop over the pattern, and `none` is running out of it.
pub mod Literal
pub mod Decides
pub mod Rest
pub mod Rounds
pub mod Stars
pub mod Steps
pub mod Total
pub mod Wildcards
use c_lite.Base.{
  ℕ, zero, suc, ◌≡◌, Bool, true, false, not, ◌&&◌, ◌||◌, List, [], ◌∷◌, Option, none, some, leb,
  ltb, ◌==◌, if◌then◌else◌, ◌>>=◌, length,
}
use c_lite.Text.{Bytes, first, rest_of, has}

-- The flags that fnmatch reads.
pub record Flags : Type 0 where
  pub pathname : Bool
  pub noescape : Bool
  pub period : Bool

-- A member of a class: its byte and what follows it.
abbrev pub member : Bytes → ℕ × Bytes
member p =
    if first p == b'\\' && not (first (rest_of p) == 0)
    then (first (rest_of p), rest_of (rest_of p))
    else (first p, rest_of p)

-- The end of a range that begins with `lo`, and what follows it.
abbrev pub range_end : ℕ → Bytes → ℕ × Bytes
range_end lo p =
    if first p == b'-' && not (first (rest_of p) == 0) && not (first (rest_of p) == b']')
    then member (rest_of p)
    else (lo, p)

-- Each round takes at least a byte, so that the length of the pattern is fuel enough.
unfoldable pub bracket_loop : ℕ → ℕ → Bool → Bool → Bytes → Bool × Bytes
bracket_loop zero c at_first matched p = (matched, p)
bracket_loop (suc f) c at_first matched p =
    let (lo, after) = member p in
    let (hi, rest) = range_end lo after in
    let more = bracket_loop f c false (matched || (leb lo c && leb c hi)) rest in
    if not (first p == 0) && not (first p == b']' && not at_first) then more else (matched, p)

-- `p` stands behind the '['. `none` is -1.
unfoldable pub match_bracket : ℕ → Bytes → Option (Bool × Bytes)
unfolding bracket_loop
match_bracket c p =
    let negate = first p == b'!' || first p == b'^' in
    let begin = if negate then rest_of p else p in
    let (matched, end) = bracket_loop (length begin) c true false begin in
    if first begin == 0
    then none
    else if not (first end == b']')
    then none
    else some (if negate then not matched else matched, rest_of end)

unfoldable pub has_dot_loop : ℕ → Bytes → Bool
has_dot_loop zero p = false
has_dot_loop (suc f) p =
    let escaped = has_dot_loop f (rest_of (rest_of p)) in
    let plain = has_dot_loop f (rest_of p) in
    if first p == 0 || first p == b']'
    then false
    else if first p == b'\\' && not (first (rest_of p) == 0)
    then if first (rest_of p) == b'.' then true else escaped
    else if first p == b'.'
    then true
    else plain

unfoldable pub class_has_dot : Bytes → Bool
unfolding has_dot_loop
class_has_dot p =
    let begin = if first p == b'!' || first p == b'^' then rest_of p else p in
    let members = if first begin == b']' then rest_of begin else begin in
    has_dot_loop (length members) members

unfoldable pub skip_stars : Bytes → Bytes
skip_stars [] = []
skip_stars (c ∷ cs) = if c == b'*' then skip_stars cs else c ∷ cs

-- The loop of '*' over the ends of the string, and the call behind it.
unfoldable pub try_ends : (Bytes → Option Bool) → Bool → Bytes → Option Bool
try_ends call pathname [] = call []
try_ends call pathname (x ∷ xs) =
    let later = try_ends call pathname xs in
    let now = call (x ∷ xs) in
    if pathname && x == b'/' then now else (do r ← now; if r then some true else later)

-- `*string != pc`: the byte of the string is a signed char, `pc` is not.
abbrev pub differs : Bytes → ℕ → Bool
differs string pc = not (first string == pc && ltb pc 128)

-- What '[' does: a class, or a literal '[' where the class has no end.
abbrev pub after_bracket :
    Bytes → Option (Bool × Bytes) → Option Bool → (Bytes → Option Bool) → Option Bool
after_bracket string none literal next = if not (first string == b'[') then some false else literal
after_bracket string (some (r, rest)) literal next = if not r then some false else next rest

unfoldable pub match_from : ℕ → Flags → Bool → Bytes → Bytes → Option Bool
unfolding match_bracket class_has_dot skip_stars try_ends has
match_from zero fl at_start pattern string = none
match_from (suc f) fl at_start [] string = some (first string == 0)
match_from (suc f) fl at_start (pc ∷ ps) string =
    let escaped = match_from f fl false (rest_of ps) (rest_of string) in
    let any = try_ends (match_from f fl true (skip_stars ps)) fl.pathname string in
    let one = match_from f fl false ps (rest_of string) in
    let class =
      after_bracket string (match_bracket (first string) ps) one
        (λ rest. match_from f fl false rest (rest_of string)) in
    let literal = match_from f fl (fl.pathname && pc == b'/') ps (rest_of string) in
    let hidden = fl.period && at_start && first string == b'.' in
    let slash = fl.pathname && first string == b'/' in
    if pc == b'\\' && not fl.noescape && not (first ps == 0)
    then if differs string (first ps) || first string == 0 then some false else escaped
    else if pc == b'*'
    then if hidden
      then some false
      else if first (skip_stars ps) == 0
      then some (not (fl.pathname && has b'/' string))
      else any
    else if pc == b'?'
    then if first string == 0 || hidden || slash then some false else one
    else if pc == b'['
    then if first string == 0 || slash || (hidden && not (class_has_dot ps))
      then some false
      else class
    else if differs string pc
    then some false
    else literal

unfoldable pub fnmatch : ℕ → Bytes → Bytes → Flags → Option Bool
unfolding match_from
fnmatch fuel pattern string fl = match_from fuel fl true pattern string
