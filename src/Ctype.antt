-- ===== src/Ctype.antt =====
-- The character classes of include/ctype.h, on the codes that the callers pass: bytes.
use c_lite.Base.{
  ℕ, ◌+◌, ◌-◌, ◌<◌, ◌≡◌, ◌≢◌, refl, Bool, ◌&&◌, ◌||◌, not, arith, leb, ltb, ◌==◌, if◌then◌else◌,
}

unfoldable pub isspace : ℕ → Bool
isspace c = c == 32 || c == 9 || c == 10 || c == 13 || c == 12 || c == 11

unfoldable pub isdigit : ℕ → Bool
isdigit c = leb b'0' c && leb c b'9'

unfoldable pub isalpha : ℕ → Bool
isalpha c = (leb b'a' c && leb c b'z') || (leb b'A' c && leb c b'Z')

unfoldable pub isalnum : ℕ → Bool
unfolding isalpha isdigit
isalnum c = isalpha c || isdigit c

unfoldable pub isupper : ℕ → Bool
isupper c = leb b'A' c && leb c b'Z'

unfoldable pub islower : ℕ → Bool
islower c = leb b'a' c && leb c b'z'

unfoldable pub isxdigit : ℕ → Bool
unfolding isdigit
isxdigit c = isdigit c || (leb b'a' c && leb c b'f') || (leb b'A' c && leb c b'F')

unfoldable pub isprint : ℕ → Bool
isprint c = leb 0x20 c && leb c 0x7e

unfoldable pub ispunct : ℕ → Bool
unfolding isprint isalnum isspace
ispunct c = isprint c && not (isalnum c) && not (isspace c)

unfoldable pub iscntrl : ℕ → Bool
iscntrl c = ltb c 0x20 || c == 0x7f

unfoldable pub isascii : ℕ → Bool
isascii c = leb c 127

unfoldable pub toupper : ℕ → ℕ
unfolding islower
toupper c = if islower c then c - b'a' + b'A' else c

unfoldable pub tolower : ℕ → ℕ
unfolding isupper
tolower c = if isupper c then c - b'A' + b'a' else c

-- Every ASCII code is of exactly one of the four kinds: a control, the blank, a letter or digit, a
-- punctuation mark.
pub ascii_kinds :
    (c : ℕ)
    → c < 128
    → (if iscntrl c then 1 else 0)
        + (if c == 32 then 1 else 0)
        + (if isalnum c then 1 else 0)
        + (if ispunct c then 1 else 0)
      ≡ 1
unfolding iscntrl isalnum ispunct
ascii_kinds c h = ground arith

-- Only NUL is turned into NUL.
pub tolower-ne-zero : (c : ℕ) → c ≢ 0 → tolower c ≢ 0
unfolding tolower
tolower-ne-zero c h = ground arith

pub tolower-toupper : (c : ℕ) → tolower (toupper c) ≡ tolower c
unfolding tolower toupper
tolower-toupper c = ground arith

pub tolower-zero : tolower 0 ≡ 0
unfolding tolower
tolower-zero = refl
