-- ===== src/Compat/Glob.antt =====
-- glob of src/compat.c: what it does with texts. The walk through the directories is in Glob/Walk, and
-- the call in Glob/Call.
pub mod Call
pub mod Ends
pub mod Expansion
pub mod Found
pub mod Keeps
pub mod Quote
pub mod Sources
pub mod Walk
use c_lite.Base.{
  ℕ, zero, suc, ◌+◌, ◌%◌, Bool, true, false, not, ◌&&◌, ◌||◌, List, [], ◌∷◌, ◌++◌, Option, none,
  some, leb, ltb, ◌==◌, if◌then◌else◌, length,
}
use c_lite.Text.{Bytes, first}

abbrev pub max_components : ℕ
max_components = 64

abbrev pub is_meta : ℕ → Bool
is_meta c = c == b'*' || c == b'?' || c == b'['

-- `*s == '\\' && !noescape && s[1]`, where `d` is s[1]
abbrev pub escapes : Bool → ℕ → ℕ → Bool
escapes noescape c d = c == b'\\' && not noescape && not (d == 0)

unfoldable pub glob_has_meta : Bool → Bytes → Bool
glob_has_meta noescape [] = false
glob_has_meta noescape (c ∷ []) = is_meta c
glob_has_meta noescape (c ∷ d ∷ cs) =
    if escapes noescape c d
    then glob_has_meta noescape cs
    else is_meta c || glob_has_meta noescape (d ∷ cs)

unfoldable pub glob_unescape_to : Bool → Bytes → Bytes
glob_unescape_to noescape [] = []
glob_unescape_to noescape (c ∷ []) = c ∷ []
glob_unescape_to noescape (c ∷ d ∷ cs) =
    if escapes noescape c d
    then d ∷ glob_unescape_to noescape cs
    else c ∷ glob_unescape_to noescape (d ∷ cs)

abbrev pub is_root : Bytes → Bool
is_root dir = length dir == 1 && first dir == b'/'

-- `none` is -1: the path does not fit in 1024 bytes.
unfoldable pub glob_join : Bytes → Bytes → Option Bytes
glob_join dir name =
    if length dir == 0
    then if ltb 1024 (length name + 1) then none else some name
    else if is_root dir
    then if ltb 1024 (1 + length name + 1) then none else some (b'/' ∷ name)
    else if ltb 1024 (length dir + 1 + length name + 1)
    then none
    else some (dir ++ b'/' ∷ name)

-- A byte that is not escaped. `start` is what the component has so far, and `go` the loop behind.
abbrev pub split_byte : ℕ → Bytes → ℕ → (ℕ → Bytes → List Bytes) → List Bytes
split_byte ncomp start c go =
    if not (c == b'/')
    then go ncomp (start ++ c ∷ [])
    else if ncomp == 0 || not (length start == 0)
    then start ∷ go (ncomp + 1) []
    else go ncomp []

-- while (*p && ncomp < GLOB_MAX_COMPONENTS), and the component behind the loop.
unfoldable pub split_loop : Bool → ℕ → Bytes → Bytes → List Bytes
split_loop noescape ncomp start [] = if ltb ncomp max_components then start ∷ [] else []
split_loop noescape ncomp start (c ∷ []) =
    if ltb ncomp max_components
    then split_byte ncomp start c (λ n s. split_loop noescape n s [])
    else []
split_loop noescape ncomp start (c ∷ d ∷ cs) =
    if not (ltb ncomp max_components)
    then []
    else if escapes noescape c d
    then split_loop noescape ncomp (start ++ c ∷ d ∷ []) cs
    else split_byte ncomp start c (λ n s. split_loop noescape n s (d ∷ cs))

unfoldable pub components : Bool → Bytes → List Bytes
unfolding split_loop
components noescape pattern = split_loop noescape 0 [] pattern

-- Whether the text ends in a slash, with an even number of backslashes before it where they escape.
-- `even` is whether that holds for the number of them so far.
unfoldable pub slash_loop : Bool → Bool → Bytes → Bool
slash_loop noescape even [] = false
slash_loop noescape even (c ∷ []) = c == b'/' && (noescape || even)
slash_loop noescape even (c ∷ d ∷ cs) =
    slash_loop noescape (if c == b'\\' then not even else true) (d ∷ cs)

unfoldable pub trailing_slash : Bool → Bytes → Bool
unfolding slash_loop
trailing_slash noescape pattern = ltb 1 (length pattern) && slash_loop noescape true pattern

-- "." and ".."
abbrev pub is_dots : Bytes → Bool
is_dots [] = false
is_dots (a ∷ []) = a == b'.'
is_dots (a ∷ b ∷ []) = a == b'.' && b == b'.'
is_dots (a ∷ b ∷ c ∷ cs) = false

-- The slash of GLOB_MARK, where there is room for it.
abbrev pub with_slash : Bytes → Bytes
with_slash path = if leb (length path + 2) 1024 then path ++ b'/' ∷ [] else path
