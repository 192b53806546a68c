-- ===== src/Getopt.antt =====
-- src/getopt.c. A call takes the words of argv and the option string, and the variables that it
-- keeps between calls, and returns them with its result. `none` is a read behind the NUL of a string.
pub mod Words
pub mod Progress
use c_lite.Base.{
  ℕ, zero, suc, ◌+◌, ◌-◌, Bool, true, false, not, ◌&&◌, ◌||◌, List, [], ◌∷◌, Option, none, some,
  ltb, ◌==◌, if◌then◌else◌, length, ◌>>=◌, drop, get_elem?,
}
use c_lite.Base.Int.{ℤ, pos, negsuc}
use c_lite.Text.{Bytes, first, rest_of}

-- optarg, optind, optopt and optpos; opterr is never read.
pub record Options : Type 0 where
  pub optarg : Option Bytes
  pub optind : ℤ
  pub optopt : ℤ
  pub optpos : ℕ

-- A byte as a `char`.
unfoldable pub as_char : ℕ → ℤ
as_char c = if ltb c 128 then pos c else negsuc (255 - c)

-- s[i], also for the NUL at the end.
unfoldable pub char_at : ℕ → Bytes → Option ℕ
char_at zero [] = some 0
char_at zero (c ∷ cs) = some c
char_at (suc i) [] = none
char_at (suc i) (c ∷ cs) = char_at i cs

-- What strchr finds: the rest of the string from the first `c`, or its NUL.
unfoldable pub find_char : ℕ → Bytes → Option Bytes
find_char c [] = if c == 0 then some [] else none
find_char c (x ∷ xs) = if x == c then some (x ∷ xs) else find_char c xs

-- if (optind <= 0) { optind = 1; optpos = 1; }
abbrev pub restarted : ℤ → ℕ → ℕ × ℕ
restarted (negsuc n) p = (1, 1)
restarted (pos zero) p = (1, 1)
restarted (pos (suc n)) p = (suc n, p)

-- optind++; optpos = 1;
abbrev pub next_word : ℕ → Options → Options
next_word i s = record s { optind = pos (suc i); optpos = 1 }

-- if (argv[optind][++optpos] == '\\0') { optind++; optpos = 1; }
unfoldable pub step_on : ℕ → ℕ → Bytes → Options → Option Options
unfolding char_at
step_on i p word s = do
  d ← char_at (suc p) word
  some (if d == 0 then next_word i s else record s { optind = pos i; optpos = suc p })

unfoldable pub missing : Bytes → ℤ
missing optstring = if first optstring == b':' then pos b':' else pos b'?'

unfoldable pub unknown : ℕ → ℕ → Bytes → ℕ → Options → Option (ℤ × Options)
unfolding step_on as_char
unknown i p word c s = do
  s' ← step_on i p word (record s { optopt = as_char c })
  some (pos b'?', s')

-- The argument of an option: the rest of the word, or the next word.
unfoldable pub with_argument :
    List Bytes → Bytes → ℕ → ℕ → Bytes → ℕ → Options → Option (ℤ × Options)
unfolding char_at as_char missing
with_argument argv optstring i p word c s = do
  d ← char_at (suc p) word
  some (
      if not (d == 0)
      then (as_char c, next_word i (record s { optarg = some (drop (suc p) word) }))
      else if ltb (suc i) (length argv)
      then (as_char c, next_word (suc i) (record s { optarg = get_elem? argv (suc i) }))
      else (missing optstring, next_word i (record s { optopt = as_char c })))

unfoldable pub without_argument : ℕ → ℕ → Bytes → ℕ → Options → Option (ℤ × Options)
unfolding step_on as_char
without_argument i p word c s = do
  s' ← step_on i p word (record s { optarg = none })
  some (as_char c, s')

-- The option `c` at optpos, where strchr gives `p`.
unfoldable pub option :
    List Bytes → Bytes → ℕ → ℕ → Bytes → ℕ → Options → Option Bytes → Option (ℤ × Options)
unfolding unknown with_argument without_argument
option argv optstring i p word c s none = unknown i p word c s
option argv optstring i p word c s (some []) = if c == b':' then unknown i p word c s else none
option argv optstring i p word c s (some (x ∷ xs)) =
    if c == b':'
    then unknown i p word c s
    else if first xs == b':'
    then with_argument argv optstring i p word c s
    else without_argument i p word c s

abbrev pub is_end : Bytes → Bool
is_end word = not (first word == b'-') || first (rest_of word) == 0

abbrev pub is_dashes : Bytes → Bool
is_dashes word = first (rest_of word) == b'-' && first (rest_of (rest_of word)) == 0

-- The word at optind, for optind and optpos after the restart.
unfoldable pub in_word : List Bytes → Bytes → ℕ → ℕ → Options → Option Bytes → Option (ℤ × Options)
unfolding char_at option find_char
in_word argv optstring i p s none = some (negsuc 0, record s { optind = pos i; optpos = p })
in_word argv optstring i p s (some word) =
    if is_end word
    then some (negsuc 0, record s { optind = pos i; optpos = p })
    else if is_dashes word
    then some (negsuc 0, record s { optind = pos (suc i); optpos = p })
    else (do c ← char_at p word; option argv optstring i p word c s (find_char c optstring))

unfoldable pub getopt : List Bytes → Bytes → Options → Option (ℤ × Options)
unfolding in_word
getopt argv optstring s =
    let (i, p) = restarted s.optind s.optpos in in_word argv optstring i p s (get_elem? argv i)
