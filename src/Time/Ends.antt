-- ===== src/Time/Ends.antt =====
-- The loop of strftime ends, inside of its buffer.
use c_lite.Base.{
  ℕ, zero, suc, ◌-◌, ◌≤◌, ◌<◌, ◌≡◌, refl, inl, inr, Bool, true, false, [], ◌∷◌, ◌++◌, Option, none,
  some, ltb, ltb→lt, ◌==◌, if◌then◌else◌, length, length-append, take, length-take, ne→==,
  Bool-cases, arith,
}
use c_lite.Text.{Bytes, first, rest_of}
use c_lite.Stdio.Format.Double.{Doubles}
use c_lite.Stdio.Format.Print.{Printed, refused, printed, no_argument, past_end, out_of_fuel}
use c_lite.Time.{Tm}
use c_lite.Time.Format.{sub_of, appended, substituted, time_directive, strftime_loop, strftime}

-- The format ends with a '%' that begins a directive.
unfoldable pub ends_in_percent : Bytes → Bool
ends_in_percent [] = false
ends_in_percent (c ∷ []) = c == b'%'
ends_in_percent (c ∷ d ∷ cs) = if c == b'%' then ends_in_percent cs else ends_in_percent (d ∷ cs)

-- What strftime may end with: never out of fuel, with less than `max` bytes, and behind the NUL only of a
-- format that ends in the middle of a directive.
unfoldable pub IsDone : Bytes → ℕ → Printed → Type 0
IsDone format max refused = max ≡ 0
IsDone format max (printed text) = length text < max
IsDone format max no_argument = ⊥
IsDone format max past_end = ends_in_percent format ≡ true
IsDone format max out_of_fuel = ⊥

IsDone-longer :
    (part format : Bytes) (max : ℕ) (r : Printed)
    → (ends_in_percent part ≡ true → ends_in_percent format ≡ true)
    → IsDone part max r
    → IsDone format max r
unfolding IsDone
IsDone-longer part format max refused h done = done
IsDone-longer part format max (printed text) h done = done
IsDone-longer part format max no_argument h done = done
IsDone-longer part format max past_end h done = h done
IsDone-longer part format max out_of_fuel h done = done

printed-IsDone :
    (format text : Bytes) (n : ℕ) → length text ≤ n → IsDone format (suc n) (printed text)
unfolding IsDone
printed-IsDone format text n h = omega arith

plain_end :
    (c : ℕ) (cs : Bytes)
    → (c == b'%') ≡ false
    → ends_in_percent cs ≡ true
    → ends_in_percent (c ∷ cs) ≡ true
unfolding ends_in_percent
plain_end c [] plain h = cc
plain_end c (d ∷ cs) plain h = rw plain h

directive_end :
    (c d : ℕ) (cs : Bytes)
    → (c == b'%') ≡ true
    → ends_in_percent cs ≡ true
    → ends_in_percent (c ∷ d ∷ cs) ≡ true
unfolding ends_in_percent
directive_end c d cs percent h = rw percent h

-- A call of snprintf that gives its text.
abbrev Usable : Printed → Type 0
Usable refused = ⊥
Usable (printed text) = Unit
Usable no_argument = ⊥
Usable past_end = ⊥
Usable out_of_fuel = ⊥

unfoldable SubUsable : Option Printed → Type 0
SubUsable none = Unit
SubUsable (some p) = Usable p

module _ (D : Doubles) where
  if-SubUsable :
      (c : Bool) (a b : Option Printed) → SubUsable a → SubUsable b → SubUsable (if c then a else b)
  if-SubUsable true a b ha hb = ha
  if-SubUsable false a b ha hb = hb

  name-SubUsable : (text : Bytes) → SubUsable (some (printed text))
  unfolding SubUsable
  name-SubUsable text = tt

  none-SubUsable : SubUsable none
  unfolding SubUsable
  none-SubUsable = tt

  sub_of-SubUsable : (tm : Tm) (c : ℕ) → SubUsable (sub_of D tm c)
  unfolding sub_of
  sub_of-SubUsable tm c = search (if-SubUsable, name-SubUsable, none-SubUsable) depth 20

  appended-le :
      (room : ℕ) (text sub : Bytes) → length text ≤ room → length (appended D room text sub) ≤ room
  appended-le room text sub h = omega (
    arith,
    length-append text (take (room - length text) sub),
    length-take (room - length text) sub,
  )

  time_directive-IsDone :
      (room p : ℕ) (text cs : Bytes) (go : Bytes → Printed) (sub : Option Printed)
      → (p == b'%') ≡ true
      → length text < room
      → ((t : Bytes) → length t ≤ room → IsDone (rest_of cs) (suc room) (go t))
      → SubUsable sub
      → IsDone (p ∷ cs) (suc room) (time_directive D room text cs go sub)
  unfolding time_directive substituted SubUsable
  time_directive-IsDone room p text [] go sub percent small later usable =
      unfold IsDone ends_in_percent in percent
  time_directive-IsDone room p text (c ∷ cs) go none percent small later usable =
      IsDone-longer cs (p ∷ c ∷ cs) _ _ (directive_end p c cs percent)
        (later (text ++ c ∷ []) (omega (arith, length-append text (c ∷ []))))
  time_directive-IsDone room p text (c ∷ cs) go (some (printed sub)) percent small later usable =
      IsDone-longer cs (p ∷ c ∷ cs) _ _ (directive_end p c cs percent)
        (later (appended D room text sub) (appended-le room text sub (omega arith)))
  time_directive-IsDone room p text (c ∷ cs) go (some refused) percent small later usable =
      absurd usable
  time_directive-IsDone room p text (c ∷ cs) go (some no_argument) percent small later usable =
      absurd usable
  time_directive-IsDone room p text (c ∷ cs) go (some past_end) percent small later usable =
      absurd usable
  time_directive-IsDone room p text (c ∷ cs) go (some out_of_fuel) percent small later usable =
      absurd usable

  rest_of-le : (cs : Bytes) → length (rest_of cs) ≤ length cs
  rest_of-le [] = omega arith
  rest_of-le (c ∷ cs) = omega arith

  strftime_loop-IsDone :
      (f : ℕ) (tm : Tm) (room : ℕ) (format text : Bytes)
      → length format < f
      → length text ≤ room
      → IsDone format (suc room) (strftime_loop D f tm room format text)
  unfolding strftime_loop
  strftime_loop-IsDone zero tm room format text enough small = absurd (omega arith)
  strftime_loop-IsDone (suc f) tm room [] text enough small = printed-IsDone [] text room small
  strftime_loop-IsDone (suc f) tm room (c ∷ cs) text enough small =
      elim (Bool-cases (ltb (length text) room)) [
        | inr full ↦ rw full (printed-IsDone (c ∷ cs) text room small)
        | inl free ↦
            let more : length text < room = ltb→lt (length text) room free in
            elim (Bool-cases (c == b'%')) [
              | inr plain ↦
                  rw (free, plain)
                    (IsDone-longer cs (c ∷ cs) _ _ (plain_end c cs plain) (
                      strftime_loop-IsDone f tm room cs (text ++ c ∷ []) (omega arith)
                        (omega (arith, length-append text (c ∷ [])))))
              | inl percent ↦
                  rw (free, percent)
                    (time_directive-IsDone room c text cs (strftime_loop D f tm room (rest_of cs))
                      (sub_of D tm (first cs)) percent more
                      (λ t h.
                        strftime_loop-IsDone f tm room (rest_of cs) t (omega (arith, rest_of-le cs))
                          h)
                      (sub_of-SubUsable tm (first cs)))
            ]
      ]

  -- With more fuel than the format has bytes, strftime does not run out of it: its loop ends. Either it
  -- has written at most `max` bytes with the NUL, or `max` is 0 and it refuses, or the format ends
  -- with a '%' that begins a directive and the code reads on behind the NUL of the format, and
  -- nothing is said of what follows.
  pub strftime-IsDone :
      (fuel max : ℕ) (format : Bytes) (tm : Tm)
      → length format < fuel
      → IsDone format max (strftime D fuel max format tm)
  unfolding strftime
  strftime-IsDone fuel zero format tm enough = unfold IsDone in refl
  strftime-IsDone fuel (suc n) format tm enough =
      let less : suc n - 1 ≡ n = omega arith in
      rw (ne→== (suc n) 0 (omega arith), less)
        (strftime_loop-IsDone fuel tm n format [] enough (omega arith))
