-- ===== src/Getopt/Words.antt =====
-- What getopt reads of the words, and how much of them is left.
use c_lite.Base.{
  ℕ, zero, suc, ◌+◌, ◌≤◌, ◌<◌, ◌≡◌, ◌≢◌, ◌⊎◌, inl, inr, refl, true, false, List, [], ◌∷◌, Option,
  none, some, ◌==◌, ne→==, length, arith, Bool-cases, drop, get_elem?,
}
use c_lite.Text.{Bytes, has}
use c_lite.Getopt.{char_at, find_char, is_end, is_dashes}

-- The bytes of the words, with their NULs.
unfoldable pub total : List Bytes → ℕ
total [] = 0
total (w ∷ ws) = suc (length w) + total ws

-- optpos is at the first option of a word, or at a later byte of the word.
abbrev pub Within : Option Bytes → ℕ → Type 0
Within none p = Unit
Within (some word) p = (p ≡ 1) ⊎ ((1 < p) × (p < length word))

pub drop-total :
    (ws : List Bytes) (i : ℕ) (word : Bytes)
    → get_elem? ws i ≡ some word
    → total (drop i ws) ≡ suc (length word) + total (drop (suc i) ws)
unfolding total
drop-total [] i word h = cc
drop-total (w ∷ ws) zero word h = cc
drop-total (w ∷ ws) (suc i) word h = drop-total ws i word h

pub total-drop_le : (ws : List Bytes) (i : ℕ) → total (drop (suc i) ws) ≤ total (drop i ws)
unfolding total
total-drop_le [] i = omega arith
total-drop_le (w ∷ ws) zero = omega arith
total-drop_le (w ∷ ws) (suc i) = total-drop_le ws i

pub Within-first : (o : Option Bytes) → Within o 1
Within-first none = tt
Within-first (some word) = inl refl

pub char_at-in :
    (i : ℕ) (word : Bytes)
    → i ≤ length word
    → (c : ℕ) × (char_at i word ≡ some c) × ((c ≡ 0) ⊎ (i < length word))
unfolding char_at
char_at-in zero [] h = (0, refl, inl refl)
char_at-in zero (c ∷ cs) h = (c, refl, inr (omega arith))
char_at-in (suc i) [] h = absurd (omega arith)
char_at-in (suc i) (c ∷ cs) h =
    let (d, e, or) = char_at-in i cs (omega arith) in
    (d, e, elim or [ inl nul ↦ inl nul | inr more ↦ inr (omega arith) ])

pub char_at-ne :
    (i : ℕ) (word : Bytes)
    → has 0 word ≡ false
    → i < length word
    → (c : ℕ) × (char_at i word ≡ some c) × (c ≢ 0)
unfolding char_at has
char_at-ne zero [] plain h = absurd (omega arith)
char_at-ne zero (c ∷ cs) plain h = (c, refl, ground arith)
char_at-ne (suc i) [] plain h = absurd (omega arith)
char_at-ne (suc i) (c ∷ cs) plain h = char_at-ne i cs (ground arith) (omega arith)

pub find_char-some : (c : ℕ) (cs : Bytes) → c ≢ 0 → find_char c cs ≢ some []
unfolding find_char
find_char-some c [] ne = rw (ne→== c 0 ne) (λ e. cc)
find_char-some c (x ∷ xs) ne = elim (Bool-cases (x == c)) [
  | inl same ↦ rw same (λ e. cc)
  | inr other ↦ rw other (find_char-some c xs ne)
]

-- Words as they stand in memory, with no NUL inside.
unfoldable pub AreStrings : List Bytes → Type 0
AreStrings [] = Unit
AreStrings (w ∷ ws) = (has 0 w ≡ false) × AreStrings ws

pub AreStrings-get_elem? :
    (ws : List Bytes) (i : ℕ) (w : Bytes)
    → AreStrings ws
    → get_elem? ws i ≡ some w
    → has 0 w ≡ false
unfolding AreStrings
AreStrings-get_elem? [] i w all h = cc
AreStrings-get_elem? (v ∷ ws) zero w all h = let same : v ≡ w = cc in rw (← same) all.0
AreStrings-get_elem? (v ∷ ws) (suc i) w all h = AreStrings-get_elem? ws i w all.1 h

pub two_bytes : (word : Bytes) → is_end word ≡ false → 1 < length word
two_bytes [] h = cc
two_bytes (a ∷ []) h = ground arith
two_bytes (a ∷ b ∷ cs) h = omega arith

pub only_dashes : (word : Bytes) → has 0 word ≡ false → is_dashes word ≡ true → length word ≤ 2
unfolding has
only_dashes [] plain h = omega arith
only_dashes (a ∷ []) plain h = omega arith
only_dashes (a ∷ b ∷ []) plain h = omega arith
only_dashes (a ∷ b ∷ c ∷ cs) plain h = ground arith

pub Within-high :
    (word : Bytes) (p : ℕ) → 1 < length word → Within (some word) p → (1 ≤ p) × (p < length word)
Within-high word p two (inl e) = (omega arith, omega arith)
Within-high word p two (inr (low, high)) = (omega arith, high)

pub Within-short : (word : Bytes) (p : ℕ) → length word ≤ 2 → Within (some word) p → p ≡ 1
Within-short word p short (inl e) = e
Within-short word p short (inr (low, high)) = absurd (omega arith)
