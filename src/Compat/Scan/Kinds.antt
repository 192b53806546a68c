-- ===== src/Compat/Scan/Kinds.antt =====
-- The types that a format of vsscanf demands of the pointers, and those that are stored.
use c_lite.Base.{
  ℕ, zero, suc, ◌+◌, ◌-◌, ◌*◌, ◌<◌, ◌≡◌, refl, sym, ◌∙◌, ap, Bool, true, false, not, List, [], ◌∷◌,
  ◌++◌, some, ◌==◌, if◌then◌else◌, ◌&&◌, length, drop, Bool-cases, inl, inr, arith,
}
use c_lite.Text.{Bytes, codes, has, first, rest_of, span_length}
use c_lite.Ctype.{isspace, isdigit}
use c_lite.Stdlib.Number.{strtoll}
use c_lite.Compat.Scan.{
  Store, stored_number, stored_chars, stored_string, Scanned, ended, past_end, out_of_fuel,
  Progress, skip_space, width_loop, size_bits, put_store, count_match, is_number, base_of_conv,
  at_end, field, conversion, give, go_on, scan_directive, scan_loop, vsscanf,
}
use c_lite.Compat.Scan.Ends.{percents, IsCounted, vsscanf-IsCounted}

-- An integer of so many bits, bytes, or a string.
pub data Kind : Type 0 where
  bits_kind : ℕ → Kind
  chars_kind : Kind
  string_kind : Kind

abbrev pub kind_of : Store → Kind
kind_of (stored_number bits n) = bits_kind bits
kind_of (stored_chars text) = chars_kind
kind_of (stored_string text) = string_kind

-- The text begins with the other.
abbrev begins : Bytes → Bytes → Bool
begins [] text = true
begins (p ∷ ps) [] = false
begins (p ∷ ps) (c ∷ cs) = c == p && begins ps cs

-- The bits of the integer that a length modifier names, and the text behind it: a char for "hh", a short
-- for "h", a long long for "ll", a long for "l", and an int where there is none.
unfoldable pub modifier : Bytes → ℕ × Bytes
modifier text =
    if begins (codes "hh") text
    then (8, drop 2 text)
    else if begins (codes "h") text
    then (16, drop 1 text)
    else if begins (codes "ll") text
    then (64, drop 2 text)
    else if begins (codes "l") text
    then (32, drop 1 text)
    else (32, text)

-- The text behind the bytes at its start that pass a test.
abbrev pub behind : (ℕ → Bool) → Bytes → Bytes
behind test text = drop (span_length test text) text

-- What a conversion demands. The count of %n is an int, whatever modifier stands before it.
unfoldable pub demanded : Bool → ℕ → ℕ → List Kind
demanded suppress bits conv =
    if suppress
    then []
    else if conv == b'n'
    then bits_kind 32 ∷ []
    else if conv == b'c'
    then chars_kind ∷ []
    else if conv == b's'
    then string_kind ∷ []
    else if has conv (codes "diuxX")
    then bits_kind bits ∷ []
    else []

-- What stands behind a '%': a star, digits, a modifier and a letter. It is what it demands, and what
-- `go` says of the rest.
unfoldable pub directive_kinds : Bytes → (Bytes → List Kind) → List Kind
directive_kinds f go =
    let star = begins (codes "*") f in
    let (bits, conv) = modifier (behind isdigit (if star then drop 1 f else f)) in
    demanded star bits (first conv) ++ go (drop 1 conv)

-- What a format demands, in order: no text is read.
unfoldable pub kinds : ℕ → Bytes → List Kind
kinds zero f = []
kinds (suc n) [] = []
kinds (suc n) (c ∷ cs) =
    let spaces = kinds n (behind isspace cs) in
    let plain = kinds n cs in
    let percent = kinds n (drop 1 cs) in
    let directed = directive_kinds cs (kinds n) in
    if isspace c
    then spaces
    else if not (c == b'%')
    then plain
    else if first cs == b'%'
    then percent
    else directed

-- The code reads the parts of a directive as the description does.
size_bits-modifier : (f : Bytes) → size_bits f ≡ modifier f
unfolding size_bits modifier
size_bits-modifier [] = refl
size_bits-modifier (c ∷ []) = ground arith
size_bits-modifier (c ∷ d ∷ f) = ground arith

star_first : (f : Bytes) → begins (codes "*") f ≡ (first f == b'*')
star_first [] = refl
star_first (c ∷ f) = ground arith

drop_one : (f : Bytes) → drop 1 f ≡ rest_of f
drop_one [] = refl
drop_one (c ∷ f) = refl

width_loop-behind : (n : ℕ) (f : Bytes) → (width_loop n f).1 ≡ behind isdigit f
unfolding width_loop span_length
width_loop-behind n [] = refl
width_loop-behind n (c ∷ f) = elim (Bool-cases (isdigit c)) [
  | inl digit ↦ rw digit (width_loop-behind (n * 10 + (c - b'0')) f)
  | inr other ↦ rw other refl
]

skip_space-behind : (f : Bytes) → skip_space f ≡ behind isspace f
unfolding skip_space span_length
skip_space-behind [] = refl
skip_space-behind (c ∷ f) = elim (Bool-cases (isspace c)) [
  | inl space ↦ rw space (skip_space-behind f)
  | inr other ↦ rw other refl
]

is_number-has : (c : ℕ) → is_number c ≡ has c (codes "diuxX")
unfolding has
is_number-has c = ground arith

directive_kinds-read :
    (f : Bytes) (go : Bytes → List Kind)
    → directive_kinds f go ≡ (
        let suppress = first f == b'*' in
        let sizes = (width_loop 0 (if suppress then rest_of f else f)).1 in
        let (bits, conv) = size_bits sizes in
        demanded suppress bits (first conv) ++ go (rest_of conv))
unfolding directive_kinds
directive_kinds-read f go =
    rw
      (
        star_first f,
        drop_one f,
        sym (width_loop-behind 0 (if first f == b'*' then rest_of f else f)),
        sym (size_bits-modifier (width_loop 0 (if first f == b'*' then rest_of f else f)).1),
        drop_one (size_bits (width_loop 0 (if first f == b'*' then rest_of f else f)).1).1,
      )
      refl

-- The stores have the first of the kinds.
abbrev pub IsPrefix : List Store → List Kind → Type 0
IsPrefix [] ks = Unit
IsPrefix (x ∷ xs) [] = ⊥
IsPrefix (x ∷ xs) (k ∷ ks) = (kind_of x ≡ k) × IsPrefix xs ks

-- The stores behind those that were there.
unfoldable Typed : List Store → List Kind → Scanned → Type 0
Typed before ks (ended m stores) = (new : List Store) × (stores ≡ before ++ new) × IsPrefix new ks
Typed before ks past_end = Unit
Typed before ks out_of_fuel = Unit

append_nil : (xs : List Store) → xs ≡ xs ++ []
append_nil [] = refl
append_nil (x ∷ xs) = ap (λ r. x ∷ r) (append_nil xs)

append_one : (xs ys : List Store) (x : Store) → (xs ++ x ∷ []) ++ ys ≡ xs ++ x ∷ ys
append_one [] ys x = refl
append_one (z ∷ xs) ys x = ap (λ r. z ∷ r) (append_one xs ys x)

give-Typed : (ks : List Kind) (st : Progress) → Typed st.stores ks (give st)
unfolding Typed
give-Typed ks st = ([], append_nil st.stores, tt)

-- One conversion: it stops with nothing stored, or has stored what it demands.
unfoldable Stored : List Store → List Kind → Bool × Progress → Type 0
Stored before ks (false, st) = st.stores ≡ before
Stored before [] (true, st) = st.stores ≡ before
Stored before (k ∷ ks) (true, st) =
    (x : Store) × (kind_of x ≡ k) × (ks ≡ []) × (st.stores ≡ before ++ x ∷ [])

if-Stored :
    (before : List Store) (ks : List Kind) (c : Bool) (a b : Bool × Progress)
    → (c ≡ true → Stored before ks a)
    → (c ≡ false → Stored before ks b)
    → Stored before ks (if c then a else b)
if-Stored before ks true a b h k = h refl
if-Stored before ks false a b h k = k refl

stop-Stored : (ks : List Kind) (st : Progress) → Stored st.stores ks (false, st)
unfolding Stored
stop-Stored [] st = refl
stop-Stored (k ∷ ks) st = refl

nothing-Stored : (ks : List Kind) (st : Progress) → ks ≡ [] → Stored st.stores ks (true, st)
nothing-Stored ks st e = rw e (unfold Stored in refl)

put-Stored :
    (ks : List Kind) (suppress : Bool) (x : Store) (st : Progress)
    → ks ≡ (if suppress then [] else kind_of x ∷ [])
    → Stored st.stores ks (true, put_store suppress x st)
put-Stored ks true x st e = nothing-Stored ks st e
put-Stored ks false x st e = rw e (unfold Stored in (x, refl, refl, refl))

count-Stored :
    (ks : List Kind) (suppress : Bool) (x : Store) (rest : Bytes) (st : Progress)
    → ks ≡ (if suppress then [] else kind_of x ∷ [])
    → Stored st.stores ks (true, count_match rest (put_store suppress x st))
count-Stored ks true x rest st e = rw e (unfold Stored in refl)
count-Stored ks false x rest st e = rw e (unfold Stored in (x, refl, refl, refl))

either_nil :
    (b : Bool) (none_demanded : List Kind)
    → none_demanded ≡ []
    → (if b then [] else none_demanded) ≡ []
either_nil true ks e = refl
either_nil false ks e = e

field-Stored :
    (suppress : Bool) (width bits conv : ℕ) (st : Progress)
    → (conv == b'n') ≡ false
    → (conv == b'c') ≡ false
    → Stored st.stores (demanded suppress bits conv) (field suppress width bits conv st)
unfolding field demanded
field-Stored suppress width bits conv st n1 n2 =
    if-Stored _ _ (at_end st.s) _ _ (λ _. stop-Stored _ st)
      (λ _.
        if-Stored _ _ (conv == b's') _ _
          (λ word. count-Stored _ suppress _ _ st (rw (n1, n2, word) refl))
          (λ n3.
            if-Stored _ _ (is_number conv) _ _
              (λ number.
                if-Stored _ _ (length (strtoll st.s (base_of_conv conv)).1 == length st.s) _ _
                  (λ _. stop-Stored _ st)
                  (λ _.
                    count-Stored _ suppress _ _ st
                      (rw (n1, n2, n3, sym (is_number-has conv) ∙ number) refl)))
              (λ n4.
                nothing-Stored _ st
                  (rw (n1, n2, n3, sym (is_number-has conv) ∙ n4) (either_nil suppress [] refl)))))

demanded_n :
    (suppress : Bool) (bits conv : ℕ)
    → (conv == b'n') ≡ true
    → demanded suppress bits conv ≡ (if suppress then [] else bits_kind 32 ∷ [])
unfolding demanded
demanded_n suppress bits conv e = rw e refl

demanded_c :
    (suppress : Bool) (bits conv : ℕ)
    → (conv == b'n') ≡ false
    → (conv == b'c') ≡ true
    → demanded suppress bits conv ≡ (if suppress then [] else chars_kind ∷ [])
unfolding demanded
demanded_c suppress bits conv n1 e = rw (n1, e) refl

conversion-Stored :
    (total : ℕ) (suppress : Bool) (width bits conv : ℕ) (st : Progress)
    → Stored st.stores (demanded suppress bits conv) (conversion total suppress width bits conv st)
unfolding conversion
conversion-Stored total suppress width bits conv st =
    if-Stored _ _ (conv == b'n') _ _
      (λ e1. put-Stored _ suppress _ st (demanded_n suppress bits conv e1))
      (λ n1.
        if-Stored _ _ (conv == b'c') _ _
          (λ e2.
            if-Stored _ _ (at_end st.s) _ _ (λ _. stop-Stored _ st)
              (λ _. count-Stored _ suppress _ _ st (demanded_c suppress bits conv n1 e2)))
          (λ n2. field-Stored suppress width bits conv (record st { s = skip_space st.s }) n1 n2))

Typed-more :
    (before : List Store) (x : Store) (after : List Store) (ks : List Kind) (r : Scanned)
    → after ≡ before ++ x ∷ []
    → Typed after ks r
    → Typed before (kind_of x ∷ ks) r
unfolding Typed
Typed-more before x after ks (ended m stores) e (new, same, fits) =
    (x ∷ new, same ∙ ap (λ a. a ++ new) e ∙ append_one before new x, (refl, fits))
Typed-more before x after ks past_end e h = tt
Typed-more before x after ks out_of_fuel e h = tt

if-Typed :
    (before : List Store) (ks : List Kind) (c : Bool) (a b : Scanned)
    → (c ≡ true → Typed before ks a)
    → (c ≡ false → Typed before ks b)
    → Typed before ks (if c then a else b)
if-Typed before ks true a b h k = h refl
if-Typed before ks false a b h k = k refl

past_end-Typed : (before : List Store) (ks : List Kind) → Typed before ks past_end
unfolding Typed
past_end-Typed before ks = tt

-- Behind a conversion that stops, or stores what is demanded.
go_on-Typed :
    (go : Bytes → Progress → Scanned) (f : Bytes) (before : List Store) (ks later : List Kind)
    (r : Bool × Progress)
    → Stored before ks r
    → ((st : Progress) → Typed st.stores later (go (rest_of f) st))
    → Typed before (ks ++ later) (go_on go f r)
unfolding Stored
go_on-Typed go f before ks later (false, st) h k = rw (sym h) (give-Typed (ks ++ later) st)
go_on-Typed go f before [] later (true, st) h k =
    if-Typed _ _ (first f == 0) _ _ (λ _. past_end-Typed before later) (λ _. rw (sym h) (k st))
go_on-Typed go f before (kd ∷ ks) later (true, st) (x, kind, single, e) k =
    if-Typed _ _ (first f == 0) _ _ (λ _. past_end-Typed before _)
      (λ _. rw (sym kind, single) (Typed-more before x st.stores later _ e (k st)))

scan_directive-Typed :
    (total : ℕ) (f : Bytes) (st : Progress) (go : Bytes → Progress → Scanned)
    (more : Bytes → List Kind)
    → ((g : Bytes) (st' : Progress) → Typed st'.stores (more g) (go g st'))
    → Typed st.stores (directive_kinds f more) (scan_directive total f st go)
unfolding scan_directive
scan_directive-Typed total f st go more later =
    let suppress = first f == b'*' in
    let sizes = width_loop 0 (if suppress then rest_of f else f) in
    let conv = size_bits sizes.1 in
    rw (directive_kinds-read f more) (
      go_on-Typed go conv.1 st.stores (demanded suppress conv.0 (first conv.1))
        (more (rest_of conv.1)) _
        (conversion-Stored total suppress sizes.0 conv.0 (first conv.1) st)
        (later (rest_of conv.1)))

scan_loop-Typed :
    (n total : ℕ) (f : Bytes) (st : Progress) → Typed st.stores (kinds n f) (scan_loop n total f st)
unfolding scan_loop kinds
scan_loop-Typed zero total f st = unfold Typed in tt
scan_loop-Typed (suc n) total [] st = give-Typed [] st
scan_loop-Typed (suc n) total (c ∷ cs) st = elim (Bool-cases (isspace c)) [
  | inl space ↦
      rw (space, sym (skip_space-behind cs))
        (scan_loop-Typed n total (skip_space cs) (record st { s = skip_space st.s }))
  | inr text ↦ elim (Bool-cases (c == b'%')) [
    | inr plain ↦
        rw (text, plain)
          (if-Typed _ _ (not (first st.s == c)) _ _ (λ _. give-Typed _ st)
            (λ _. scan_loop-Typed n total cs (record st { s = rest_of st.s })))
    | inl percent ↦ elim (Bool-cases (first cs == b'%')) [
      | inl double ↦
          rw (text, percent, double, drop_one cs)
            (if-Typed _ _ (not (first st.s == b'%')) _ _ (λ _. give-Typed _ st)
              (λ _. scan_loop-Typed n total (rest_of cs) (record st { s = rest_of st.s })))
      | inr single ↦
          rw (text, percent, single)
            (scan_directive-Typed total cs st (scan_loop n total) (kinds n)
              (λ g st'. scan_loop-Typed n total g st'))
    ]
  ]
]

-- What a result stores has the types that the format demands.
unfoldable pub IsTyped : List Kind → Scanned → Type 0
IsTyped ks (ended m stores) = IsPrefix stores ks
IsTyped ks past_end = Unit
IsTyped ks out_of_fuel = ⊥

Typed-result : (k : ℕ) (ks : List Kind) (r : Scanned) → IsCounted k r → Typed [] ks r → IsTyped ks r
unfolding IsCounted Typed IsTyped
Typed-result k ks (ended m stores) counted (new, same, fits) = rw same fits
Typed-result k ks past_end counted h = tt
Typed-result k ks out_of_fuel counted h = counted

-- With more fuel than the format has bytes, vsscanf returns with stores whose types are the first of those
-- that the format demands, in the same order: for %d, %i, %u, %x and %X an integer of 8 bits behind "hh",
-- of 16 behind "h", of 64 behind "ll" and of 32 otherwise, for %n one of 32 bits whatever modifier
-- stands before it, the bytes of %c, or the string of %s, and nothing where a star suppresses it. Or,
-- where it takes a conversion letter behind the end of the format, it has read on behind the NUL, and
-- nothing is said of what follows.
pub vsscanf-IsTyped :
    (fuel : ℕ) (str format : Bytes)
    → length format < fuel
    → IsTyped (kinds fuel format) (vsscanf fuel (some str) (some format))
unfolding vsscanf
vsscanf-IsTyped fuel str format enough =
    Typed-result (percents format) (kinds fuel format) _ (vsscanf-IsCounted fuel str format enough)
      (scan_loop-Typed fuel (length str) format (record { matches = 0; stores = []; s = str }))
