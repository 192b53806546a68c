-- ===== src/Compat/Scan/Ends.antt =====
-- The loop of vsscanf ends, and counts no more matches than the format has percent signs.
use c_lite.Base.{
  ℕ, zero, suc, ◌+◌, ◌-◌, ◌*◌, ◌≤◌, ◌<◌, ◌≡◌, refl, inl, inr, Bool, true, false, [], ◌∷◌, some,
  ◌==◌, if◌then◌else◌, length, arith, Bool-cases,
}
use c_lite.Text.{Bytes, first, rest_of}
use c_lite.Ctype.{isspace}
use c_lite.Compat.Scan.{
  Scanned, ended, past_end, out_of_fuel, Progress, Store, skip_space, width_loop, size_bits,
  put_store, count_match, field, conversion, give, go_on, scan_directive, scan_loop, vsscanf,
}

-- The percent signs of a format.
unfoldable pub percents : Bytes → ℕ
percents [] = 0
percents (c ∷ cs) = if c == b'%' then suc (percents cs) else percents cs

unfoldable pub IsCounted : ℕ → Scanned → Type 0
IsCounted k (ended m stores) = m ≤ k
IsCounted k past_end = Unit
IsCounted k out_of_fuel = ⊥

-- What is left of a format.
Within : Bytes → Bytes → Type 0
Within a b = (length a ≤ length b) × (percents a ≤ percents b)

Within-self : (cs : Bytes) → Within cs cs
unfolding Within
Within-self cs = (omega arith, omega arith)

rest_of-Within : (cs : Bytes) → Within (rest_of cs) cs
unfolding Within percents
rest_of-Within [] = (omega arith, omega arith)
rest_of-Within (c ∷ cs) = (omega arith, ground arith)

Within-trans : (a b c : Bytes) → Within a b → Within b c → Within a c
unfolding Within
Within-trans a b c (l, p) (l', p') = (omega arith, omega arith)

skip_space-Within : (cs : Bytes) → Within (skip_space cs) cs
unfolding Within skip_space percents
skip_space-Within [] = (omega arith, omega arith)
skip_space-Within (c ∷ cs) = let (l, p) = skip_space-Within cs in (ground arith, ground arith)

width_loop-Within : (n : ℕ) (cs : Bytes) → Within (width_loop n cs).1 cs
unfolding Within width_loop percents
width_loop-Within n [] = (omega arith, omega arith)
width_loop-Within n (c ∷ cs) =
    let (l, p) = width_loop-Within (n * 10 + (c - b'0')) cs in (ground arith, ground arith)

size_bits-Within : (f : Bytes) → Within (size_bits f).1 f
unfolding Within size_bits
size_bits-Within f =
    let (l, p) = rest_of-Within f in
    let (l', p') = rest_of-Within (rest_of f) in (ground arith, ground arith)

-- A result with at most so many matches.
unfoldable AtMost : ℕ → Bool × Progress → Type 0
AtMost k r = r.1.matches ≤ k

if-AtMost :
    (k : ℕ) (c : Bool) (a b : Bool × Progress)
    → AtMost k a
    → AtMost k b
    → AtMost k (if c then a else b)
if-AtMost k true a b ha hb = ha
if-AtMost k false a b ha hb = hb

same-AtMost : (goes_on : Bool) (st : Progress) → AtMost (st.matches + 1) (goes_on, st)
unfolding AtMost
same-AtMost goes_on st = omega arith

put_store-matches :
    (suppress : Bool) (x : Store) (st : Progress) → (put_store suppress x st).matches ≡ st.matches
put_store-matches true x st = refl
put_store-matches false x st = refl

stored-AtMost :
    (suppress : Bool) (x : Store) (st : Progress)
    → AtMost (st.matches + 1) (true, put_store suppress x st)
unfolding AtMost
stored-AtMost suppress x st = omega (arith, put_store-matches suppress x st)

count_match-AtMost :
    (suppress : Bool) (x : Store) (rest : Bytes) (st : Progress)
    → AtMost (st.matches + 1) (true, count_match rest (put_store suppress x st))
unfolding AtMost
count_match-AtMost suppress x rest st = omega (arith, put_store-matches suppress x st)

field-AtMost :
    (suppress : Bool) (width bits conv : ℕ) (st : Progress)
    → AtMost (st.matches + 1) (field suppress width bits conv st)
unfolding field
field-AtMost suppress width bits conv st =
    search (if-AtMost, same-AtMost, count_match-AtMost) depth 9

conversion-AtMost :
    (total : ℕ) (suppress : Bool) (width bits conv : ℕ) (st : Progress)
    → AtMost (st.matches + 1) (conversion total suppress width bits conv st)
unfolding conversion
conversion-AtMost total suppress width bits conv st =
    search
      (
        if-AtMost,
        same-AtMost,
        stored-AtMost,
        count_match-AtMost,
        field-AtMost suppress width bits conv (record st { s = skip_space st.s }),
      )
      depth 9

give-IsCounted : (k : ℕ) (st : Progress) → st.matches ≤ k → IsCounted k (give st)
unfolding IsCounted
give-IsCounted k st h = h

go_on-IsCounted :
    (k m : ℕ) (go : Bytes → Progress → Scanned) (f : Bytes) (r : Bool × Progress)
    → AtMost m r
    → m ≤ k
    → ((st : Progress) → st.matches ≤ m → IsCounted k (go (rest_of f) st))
    → IsCounted k (go_on go f r)
unfolding AtMost
go_on-IsCounted k m go f (false, st) most le later = give-IsCounted k st (omega arith)
go_on-IsCounted k m go f (true, st) most le later = elim (Bool-cases (first f == 0)) [
  | inl nul ↦ rw nul (unfold IsCounted in tt)
  | inr more ↦ rw more (later st most)
]

IsCounted-weaken : (j k : ℕ) (r : Scanned) → IsCounted j r → j ≤ k → IsCounted k r
unfolding IsCounted
IsCounted-weaken j k (ended m stores) h le = omega arith
IsCounted-weaken j k past_end h le = tt
IsCounted-weaken j k out_of_fuel h le = h

-- What stands behind a conversion.
conversion-Within :
    (suppress : Bool) (f : Bytes)
    → Within (rest_of (size_bits (width_loop 0 (if suppress then rest_of f else f)).1).1) f
conversion-Within suppress f =
    let start = if suppress then rest_of f else f in
    let sizes = (width_loop 0 start).1 in
    let conv = (size_bits sizes).1 in
    Within-trans (rest_of conv) conv f (rest_of-Within conv) (
      Within-trans conv sizes f (size_bits-Within sizes)
        (Within-trans sizes start f (width_loop-Within 0 start) (started suppress f)))
  where
    started : (suppress : Bool) (f : Bytes) → Within (if suppress then rest_of f else f) f
    started true f = rest_of-Within f
    started false f = Within-self f

scan_directive-IsCounted :
    (total k : ℕ) (f : Bytes) (st : Progress) (go : Bytes → Progress → Scanned)
    → st.matches + 1 ≤ k
    → ((g : Bytes) (st' : Progress)
        → Within g f
        → st'.matches ≤ st.matches + 1
        → IsCounted k (go g st'))
    → IsCounted k (scan_directive total f st go)
unfolding scan_directive
scan_directive-IsCounted total k f st go le later =
    let suppress = first f == b'*' in
    let sizes = width_loop 0 (if suppress then rest_of f else f) in
    let conv = size_bits sizes.1 in
    go_on-IsCounted k (st.matches + 1) go conv.1
      (conversion total suppress sizes.0 conv.0 (first conv.1) st)
      (conversion-AtMost total suppress sizes.0 conv.0 (first conv.1) st) le
      (λ st' most. later (rest_of conv.1) st' (conversion-Within suppress f) most)

percents_more : (c : ℕ) (cs : Bytes) → percents cs ≤ percents (c ∷ cs)
unfolding percents
percents_more c cs = ground arith

percents_percent : (c : ℕ) (cs : Bytes) → (c == b'%') ≡ true → percents (c ∷ cs) ≡ suc (percents cs)
unfolding percents
percents_percent c cs h = rw h refl

scan_loop-IsCounted :
    (n total : ℕ) (f : Bytes) (st : Progress)
    → length f < n
    → IsCounted (st.matches + percents f) (scan_loop n total f st)
unfolding scan_loop Within
scan_loop-IsCounted zero total f st enough = absurd (omega arith)
scan_loop-IsCounted (suc n) total [] st enough = give-IsCounted _ st (omega arith)
scan_loop-IsCounted (suc n) total (c ∷ cs) st enough =
    let k = st.matches + percents (c ∷ cs) in
    let whole = percents_more c cs in
    let later : (g : Bytes) (st' : Progress)
        → Within g cs
        → st'.matches + percents cs ≤ k
        → IsCounted k (scan_loop n total g st') =
      λ g st' (shorter, fewer) small.
        IsCounted-weaken (st'.matches + percents g) k (scan_loop n total g st')
          (scan_loop-IsCounted n total g st' (omega arith)) (omega arith) in
    elim (Bool-cases (isspace c)) [
      | inl space ↦ rw space (later (skip_space cs) _ (skip_space-Within cs) (omega arith))
      | inr text ↦ elim (Bool-cases (c == b'%')) [
        | inr plain ↦ elim (Bool-cases (first st.s == c)) [
          | inl same ↦ rw (text, plain, same) (later cs _ (Within-self cs) (omega arith))
          | inr other ↦ rw (text, plain, other) (give-IsCounted _ st (omega arith))
        ]
        | inl percent ↦ elim (Bool-cases (first cs == b'%')) [
          | inl double ↦ elim (Bool-cases (first st.s == b'%')) [
            | inl same ↦
                rw (text, percent, double, same)
                  (later (rest_of cs) _ (rest_of-Within cs) (omega arith))
            | inr other ↦ rw (text, percent, double, other) (give-IsCounted _ st (omega arith))
          ]
          | inr single ↦
              let one = percents_percent c cs percent in
              rw (text, percent, single)
                (scan_directive-IsCounted total k cs st (scan_loop n total) (omega arith)
                  (λ g st' w m. later g st' w (omega arith)))
        ]
      ]
    ]

-- With more fuel than the format has bytes, vsscanf does not run out of it: its loop ends. It then
-- returns at most as many matches as the format has percent signs, or has read on behind the NUL
-- of a format that ends inside of a directive.
pub vsscanf-IsCounted :
    (fuel : ℕ) (str format : Bytes)
    → length format < fuel
    → IsCounted (percents format) (vsscanf fuel (some str) (some format))
unfolding vsscanf
vsscanf-IsCounted fuel str format enough =
    let st : Progress = record { matches = 0; stores = []; s = str } in
    IsCounted-weaken (0 + percents format) (percents format) (scan_loop fuel (length str) format st)
      (scan_loop-IsCounted fuel (length str) format st enough) (omega arith)
