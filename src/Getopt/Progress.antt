-- ===== src/Getopt/Progress.antt =====
-- getopt stays inside of the words, and each call brings it nearer to the end of argv.
use c_lite.Base.{
  ℕ, zero, suc, ◌-◌, ◌≤◌, ◌<◌, ◌≡◌, ◌≢◌, ◌⊎◌, inl, inr, refl, List, [], ◌∷◌, Option, none, some,
  ◌==◌, ==→ne, length, arith, Bool-cases, drop, get_elem?, ltb,
}
use c_lite.Base.Int.{ℤ, pos, negsuc}
use c_lite.Text.{Bytes, first}
use c_lite.Getopt.{
  Options, as_char, find_char, restarted, next_word, step_on, unknown, with_argument,
  without_argument, missing, option, is_end, is_dashes, in_word, getopt,
}
use c_lite.Getopt.Words.{
  total, drop-total, total-drop_le, char_at-in, char_at-ne, find_char-some, AreStrings,
  AreStrings-get_elem?, two_bytes, only_dashes, Within, Within-first, Within-high, Within-short,
}

-- What is left to scan.
abbrev pub left : List Bytes → ℕ × ℕ → ℕ
left argv (i, p) = total (drop i argv) - p

unfoldable pub IsReady : List Bytes → Options → Type 0
IsReady argv s = let (i, p) = restarted s.optind s.optpos in Within (get_elem? argv i) p

abbrev pub left_of : List Bytes → Options → ℕ
left_of argv s = left argv (restarted s.optind s.optpos)

-- A call that stays inside of the words; if it does not return -1 then less is left.
unfoldable pub Goes : List Bytes → ℕ → Option (ℤ × Options) → Type 0
Goes argv before none = ⊥
Goes argv before (some (r, s)) = IsReady argv s × ((r ≡ negsuc 0) ⊎ (left_of argv s < before))

module _ (argv : List Bytes) (j p : ℕ) (word : Bytes)
    (here : get_elem? argv (suc j) ≡ some word) where
  next_word-Goes :
      (s : Options) (r : ℤ)
      → p < length word
      → Goes argv (left argv (suc j, p)) (some (r, next_word (suc j) s))
  unfolding Goes IsReady
  next_word-Goes s r high = (
    Within-first (get_elem? argv (suc (suc j))),
    inr (omega (arith, drop-total argv (suc j) word here)),
  )

  -- An option that takes the next word too.
  two_words-Goes :
      (s : Options) (r : ℤ)
      → p < length word
      → Goes argv (left argv (suc j, p)) (some (r, next_word (suc (suc j)) s))
  unfolding Goes IsReady
  two_words-Goes s r high = (
    Within-first (get_elem? argv (suc (suc (suc j)))),
    inr (omega (arith, drop-total argv (suc j) word here, total-drop_le argv (suc (suc j)))),
  )

  -- The next byte of the word, where it is not the NUL.
  same_word-Goes :
      (s : Options) (r : ℤ)
      → 1 ≤ p
      → suc p < length word
      → Goes argv
          (left argv (suc j, p))
          (some (r, record s { optind = pos (suc j); optpos = suc p }))
  unfolding Goes IsReady
  same_word-Goes s r low high =
      (rw here (inr (omega arith, high)), inr (omega (arith, drop-total argv (suc j) word here)))

  step_on-Goes :
      (s : Options)
      → 1 ≤ p
      → p < length word
      → (s' : Options) × (step_on (suc j) p word s ≡ some s')
        × ((r : ℤ) → Goes argv (left argv (suc j, p)) (some (r, s')))
  unfolding step_on
  step_on-Goes s low high =
      let (d, e, or) = char_at-in (suc p) word (omega arith) in
      elim (Bool-cases (d == 0)) [
        | inl nul ↦ (next_word (suc j) s, rw (e, nul) refl, λ r. next_word-Goes s r high)
        | inr byte ↦ (
          record s { optind = pos (suc j); optpos = suc p },
          rw (e, byte) refl,
          λ r.
              same_word-Goes s r low
                (elim or [ inl nul ↦ absurd (==→ne d 0 byte nul) | inr more ↦ more ]),
        )
      ]

  unknown-Goes :
      (c : ℕ) (s : Options)
      → 1 ≤ p
      → p < length word
      → Goes argv (left argv (suc j, p)) (unknown (suc j) p word c s)
  unfolding unknown
  unknown-Goes c s low high =
      let (s', e, goes) = step_on-Goes (record s { optopt = as_char c }) low high in
      rw e (goes (pos b'?'))

  without_argument-Goes :
      (c : ℕ) (s : Options)
      → 1 ≤ p
      → p < length word
      → Goes argv (left argv (suc j, p)) (without_argument (suc j) p word c s)
  unfolding without_argument
  without_argument-Goes c s low high =
      let (s', e, goes) = step_on-Goes (record s { optarg = none }) low high in
      rw e (goes (as_char c))

  with_argument-Goes :
      (optstring : Bytes) (c : ℕ) (s : Options)
      → p < length word
      → Goes argv (left argv (suc j, p)) (with_argument argv optstring (suc j) p word c s)
  unfolding with_argument
  with_argument-Goes optstring c s high =
      let (d, e, or) = char_at-in (suc p) word (omega arith) in
      elim (Bool-cases (d == 0)) [
        | inl nul ↦ elim (Bool-cases (ltb (suc (suc j)) (length argv))) [
          | inl more ↦
              rw (e, nul, more)
                (two_words-Goes (record s { optarg = get_elem? argv (suc (suc j)) }) (as_char c)
                  high)
          | inr last ↦
              rw (e, nul, last)
                (next_word-Goes (record s { optopt = as_char c }) (missing optstring) high)
        ]
        | inr byte ↦
            rw (e, byte)
              (next_word-Goes (record s { optarg = some (drop (suc p) word) }) (as_char c) high)
      ]

  option-Goes :
      (optstring : Bytes) (c : ℕ) (s : Options) (o : Option Bytes)
      → (o ≢ some [])
      → 1 ≤ p
      → p < length word
      → Goes argv (left argv (suc j, p)) (option argv optstring (suc j) p word c s o)
  unfolding option
  option-Goes optstring c s none some_byte low high = unknown-Goes c s low high
  option-Goes optstring c s (some []) some_byte low high = absurd (some_byte refl)
  option-Goes optstring c s (some (x ∷ xs)) some_byte low high = elim (Bool-cases (c == b':')) [
    | inl colon ↦ rw colon (unknown-Goes c s low high)
    | inr other ↦ elim (Bool-cases (first xs == b':')) [
      | inl takes ↦ rw (other, takes) (with_argument-Goes optstring c s high)
      | inr plain ↦ rw (other, plain) (without_argument-Goes c s low high)
    ]
  ]

in_word-Goes :
    (argv : List Bytes) (optstring : Bytes) (j p : ℕ) (s : Options) (o : Option Bytes)
    → AreStrings argv
    → get_elem? argv (suc j) ≡ o
    → Within o p
    → Goes argv (left argv (suc j, p)) (in_word argv optstring (suc j) p s o)
unfolding in_word Goes IsReady
in_word-Goes argv optstring j p s none all here at = (rw here tt, inl refl)
in_word-Goes argv optstring j p s (some word) all here at = elim (Bool-cases (is_end word)) [
  | inl ends ↦ rw ends (rw here at, inl refl)
  | inr option_word ↦ elim (Bool-cases (is_dashes word)) [
    | inl dashes ↦
        let short = only_dashes word (AreStrings-get_elem? argv (suc j) word all here) dashes in
        rw (option_word, dashes)
          (
            rw (Within-short word p short at) (Within-first (get_elem? argv (suc (suc j)))),
            inl refl,
          )
    | inr letters ↦
        let plain = AreStrings-get_elem? argv (suc j) word all here in
        let (low, high) = Within-high word p (two_bytes word option_word) at in
        let (c, e, ne) = char_at-ne p word plain high in
        rw (option_word, letters, e)
          (option-Goes argv j p word here optstring c s (find_char c optstring)
            (find_char-some c optstring ne) low high)
  ]
]

getopt_at :
    (argv : List Bytes) (optstring : Bytes) (s : Options) (i : ℤ)
    → AreStrings argv
    → (let (n, p) = restarted i s.optpos in Within (get_elem? argv n) p)
    → (let (n, p) = restarted i s.optpos in
        Goes argv (left argv (n, p)) (in_word argv optstring n p s (get_elem? argv n)))
getopt_at argv optstring s (negsuc n) all ready =
    in_word-Goes argv optstring 0 1 s (get_elem? argv 1) all refl ready
getopt_at argv optstring s (pos zero) all ready =
    in_word-Goes argv optstring 0 1 s (get_elem? argv 1) all refl ready
getopt_at argv optstring s (pos (suc n)) all ready =
    in_word-Goes argv optstring n s.optpos s (get_elem? argv (suc n)) all refl ready

-- Words without a NUL inside. Where optpos is at the first option of the word at optind or inside
-- of that word, getopt reads no byte behind the end of a word, leaves optpos so, and either returns
-- -1 or has fewer bytes of argv left to scan: a loop that calls it until it returns -1 ends.
pub getopt-Goes :
    (argv : List Bytes) (optstring : Bytes) (s : Options)
    → AreStrings argv
    → IsReady argv s
    → Goes argv (left_of argv s) (getopt argv optstring s)
unfolding getopt IsReady
getopt-Goes argv optstring s all ready = getopt_at argv optstring s s.optind all ready
