-- ===== src/Stdio/Format/Print/Rest.antt =====
-- What the parser of a directive leaves of the format.
use c_lite.Base.{
  ℕ, ◌+◌, ◌-◌, ◌*◌, ◌≤◌, ◌≡◌, refl, inl, inr, Bool, true, false, not, ◌&&◌, ◌||◌, List, [], ◌∷◌,
  Option, none, some, ◌==◌, leb, if◌then◌else◌, length, ◌>>=◌, arith, Bool-cases,
}
use c_lite.Text.{Bytes, codes, has, first, rest_of}
use c_lite.Stdlib.Number.{negate, is_negative}
use c_lite.Stdio.Format.{Spec, flags_loop, number_loop, length_loop}
use c_lite.Stdio.Format.Double.{Doubles}
use c_lite.Stdio.Format.Print.{Arg, parse_width, parse_precision, parse_spec, take_word}

-- What may stand between the percent sign and the conversion letter.
unfoldable pub is_modifier : ℕ → Bool
is_modifier c = has c (codes "-0+ #123456789.*lhzjt")

-- Modifiers, up to the end or a NUL.
unfoldable pub modifiers_only : Bytes → Bool
modifiers_only [] = true
modifiers_only (c ∷ cs) = c == 0 || (is_modifier c && modifiers_only cs)

-- Some percent sign is followed by modifiers alone.
unfoldable pub ends_inside : Bytes → Bool
ends_inside [] = false
ends_inside (c ∷ cs) = (c == b'%' && modifiers_only cs) || ends_inside cs

-- `rest` is left of `cs` behind modifiers.
pub record IsRest (cs rest : Bytes) : Type 0 where
  pub shorter : length rest ≤ length cs
  pub only : modifiers_only rest ≡ true → modifiers_only cs ≡ true
  pub inside : ends_inside rest ≡ true → ends_inside cs ≡ true

pub all-IsRest : (cs : Bytes) → IsRest cs cs
all-IsRest cs = record { shorter = omega arith; only = λ h. h; inside = λ h. h }

IsRest-trans : (cs ds es : Bytes) → IsRest cs ds → IsRest ds es → IsRest cs es
IsRest-trans cs ds es a b = record {
  shorter = omega (arith, a.shorter, b.shorter);
  only = λ h. a.only (b.only h);
  inside = λ h. a.inside (b.inside h);
}

pub ends_inside-later : (c : ℕ) (cs : Bytes) → ends_inside cs ≡ true → ends_inside (c ∷ cs) ≡ true
unfolding ends_inside
ends_inside-later c cs h = rw h (ground arith)

skipped : (c : ℕ) (cs rest : Bytes) → is_modifier c ≡ true → IsRest cs rest → IsRest (c ∷ cs) rest
unfolding modifiers_only
skipped c cs rest e r = record {
  shorter = omega (arith, r.shorter);
  only = λ h. rw (e, r.only h) (ground arith);
  inside = λ h. ends_inside-later c cs (r.inside h);
}

if-IsRest :
    {A : Type 0} (cs : Bytes) (c : Bool) (rest : A → Bytes) (a b : A)
    → (c ≡ true → IsRest cs (rest a))
    → (c ≡ false → IsRest cs (rest b))
    → IsRest cs (rest (if c then a else b))
if-IsRest cs true rest a b h k = h refl
if-IsRest cs false rest a b h k = k refl

flags_loop-IsRest : (left zeros : Bool) (cs : Bytes) → IsRest cs (flags_loop left zeros cs).2
unfolding flags_loop
flags_loop-IsRest left zeros [] = all-IsRest []
flags_loop-IsRest left zeros (c ∷ cs) =
    if-IsRest (c ∷ cs) (c == b'-') (λ (r : Bool × Bool × Bytes). r.2) _ _
      (λ e.
        skipped c cs _ (unfold is_modifier has in ground arith) (flags_loop-IsRest true zeros cs))
      (λ _.
        if-IsRest (c ∷ cs) (c == b'0') (λ (r : Bool × Bool × Bytes). r.2) _ _
          (λ e.
            skipped c cs _ (unfold is_modifier has in ground arith)
              (flags_loop-IsRest left true cs))
          (λ _.
            if-IsRest (c ∷ cs) (c == b'+' || c == b' ' || c == b'#')
              (λ (r : Bool × Bool × Bytes). r.2) _ _
              (λ e.
                skipped c cs _ (unfold is_modifier has in ground arith)
                  (flags_loop-IsRest left zeros cs))
              (λ _. all-IsRest (c ∷ cs))))

digit-is_modifier : (c : ℕ) → (leb b'0' c && leb c b'9') ≡ true → is_modifier c ≡ true
unfolding is_modifier has
digit-is_modifier c e = ground arith

number_loop-IsRest : (n : ℕ) (cs : Bytes) → IsRest cs (number_loop n cs).1
unfolding number_loop
number_loop-IsRest n [] = all-IsRest []
number_loop-IsRest n (c ∷ cs) =
    if-IsRest (c ∷ cs) (leb b'0' c && leb c b'9') (λ (r : ℕ × Bytes). r.1) _ _
      (λ e. skipped c cs _ (digit-is_modifier c e) (number_loop-IsRest (n * 10 + (c - b'0')) cs))
      (λ _. all-IsRest (c ∷ cs))

length_loop-IsRest : (cs : Bytes) → IsRest cs (length_loop cs)
unfolding length_loop
length_loop-IsRest [] = all-IsRest []
length_loop-IsRest (c ∷ cs) =
    if-IsRest (c ∷ cs) (c == b'l' || c == b'h' || c == b'z' || c == b'j' || c == b't') (λ r. r) _ _
      (λ e. skipped c cs _ (unfold is_modifier has in ground arith) (length_loop-IsRest cs))
      (λ _. all-IsRest (c ∷ cs))

star_skipped : (cs : Bytes) → (first cs == b'*') ≡ true → IsRest cs (rest_of cs)
star_skipped [] e = all-IsRest []
star_skipped (c ∷ cs) e = skipped c cs cs (unfold is_modifier has in ground arith) (all-IsRest cs)

point_skipped : (cs : Bytes) → (first cs == b'.') ≡ true → IsRest cs (rest_of cs)
point_skipped [] e = all-IsRest []
point_skipped (c ∷ cs) e = skipped c cs cs (unfold is_modifier has in ground arith) (all-IsRest cs)

module _ (D : Doubles) where
  -- A part of a directive leaves a rest of the format.
  abbrev WidthLeaves : Bytes → Option (Bool × ℕ × List (Arg D) × Bytes) → Type 0
  WidthLeaves cs none = Unit
  WidthLeaves cs (some (left, width, args, rest)) = IsRest cs rest

  abbrev PrecisionLeaves : Bytes → Option (Option ℕ × List (Arg D) × Bytes) → Type 0
  PrecisionLeaves cs none = Unit
  PrecisionLeaves cs (some (precision, args, rest)) = IsRest cs rest

  abbrev pub SpecLeaves : Bytes → Option (Spec × List (Arg D) × Bytes) → Type 0
  SpecLeaves cs none = Unit
  SpecLeaves cs (some (spec, args, rest)) = IsRest cs rest

  width_star :
      (cs : Bytes) (r : Option (ℕ × List (Arg D)))
      → (first cs == b'*') ≡ true
      → WidthLeaves cs (do
        (w, args) ← r
        some (is_negative w, (if is_negative w then negate w else w), args, rest_of cs))
  width_star cs none star = tt
  width_star cs (some (w, args)) star = star_skipped cs star

  parse_width-leaves : (cs : Bytes) (args : List (Arg D)) → WidthLeaves cs (parse_width D cs args)
  unfolding parse_width
  parse_width-leaves cs args = elim (Bool-cases (first cs == b'*')) [
    | inl star ↦ rw star (width_star cs (take_word D args) star)
    | inr digits ↦ rw digits (number_loop-IsRest 0 cs)
  ]

  precision_star :
      (cs : Bytes) (r : Option (ℕ × List (Arg D)))
      → IsRest cs (rest_of (rest_of cs))
      → PrecisionLeaves cs (do
        (w, args) ← r
        some ((if is_negative w then none else some w), args, rest_of (rest_of cs)))
  precision_star cs none leaves = tt
  precision_star cs (some (w, args)) leaves = leaves

  parse_precision-leaves :
      (cs : Bytes) (args : List (Arg D)) → PrecisionLeaves cs (parse_precision D cs args)
  unfolding parse_precision
  parse_precision-leaves cs args = elim (Bool-cases (first cs == b'.')) [
    | inr absent ↦ rw absent (all-IsRest cs)
    | inl point ↦ elim (Bool-cases (first (rest_of cs) == b'*')) [
      | inl star ↦
          rw (point, star)
            (precision_star cs (take_word D args) (
              IsRest-trans cs (rest_of cs) _ (point_skipped cs point)
                (star_skipped (rest_of cs) star)))
      | inr digits ↦
          rw (point, digits)
            (IsRest-trans cs (rest_of cs) _ (point_skipped cs point)
              (number_loop-IsRest 0 (rest_of cs)))
    ]
  ]

  -- The steps of parse_spec, on what the parts give.
  spec_step :
      (cs : Bytes) (left zeros : Bool) (r : Option (Bool × ℕ × List (Arg D) × Bytes))
      → WidthLeaves cs r
      → SpecLeaves cs (do
        (minus, width, args', sized) ← r
        (precision, args'', rest) ← parse_precision D sized args'
        some (
          record {
            left_align = left || minus;
            pad = if zeros && not left then b'0' else b' ';
            width = width;
            precision = precision;
          },
          args'',
          length_loop rest,
        ))
  spec_step cs left zeros none le = tt
  spec_step cs left zeros (some (minus, width, args, sized)) le =
      last (parse_precision D sized args) (parse_precision-leaves sized args)
    where
      last :
          (r : Option (Option ℕ × List (Arg D) × Bytes))
          → PrecisionLeaves sized r
          → SpecLeaves cs (do
            (precision, args'', rest) ← r
            some (
              record {
                left_align = left || minus;
                pad = if zeros && not left then b'0' else b' ';
                width = width;
                precision = precision;
              },
              args'',
              length_loop rest,
            ))
      last none h = tt
      last (some (precision, args'', rest)) h =
          IsRest-trans cs sized _ le (IsRest-trans sized rest _ h (length_loop-IsRest rest))

  pub parse_spec-leaves : (cs : Bytes) (args : List (Arg D)) → SpecLeaves cs (parse_spec D cs args)
  unfolding parse_spec
  parse_spec-leaves cs args =
      let (left, zeros, flagged) = flags_loop false false cs in
      weaken _ (flags_loop-IsRest false false cs) (
        spec_step flagged left zeros (parse_width D flagged args) (parse_width-leaves flagged args))
    where
      weaken :
          (r : Option (Spec × List (Arg D) × Bytes))
          → IsRest cs (flags_loop false false cs).2
          → SpecLeaves (flags_loop false false cs).2 r
          → SpecLeaves cs r
      weaken none le h = tt
      weaken (some (spec, args', rest)) le h = IsRest-trans cs _ rest le h

-- Where the rest begins with the NUL, only modifiers stand between the percent sign and it.
nul_modifiers : (rest : Bytes) → (first rest == 0) ≡ true → modifiers_only rest ≡ true
unfolding modifiers_only
nul_modifiers [] e = refl
nul_modifiers (c ∷ cs) e = rw e refl

pub stops_inside :
    (c : ℕ) (cs rest : Bytes)
    → (c == b'%') ≡ true
    → IsRest cs rest
    → (first rest == 0) ≡ true
    → ends_inside (c ∷ cs) ≡ true
unfolding ends_inside
stops_inside c cs rest percent left nul = rw (percent, left.only (nul_modifiers rest nul)) refl

pub goes_inside :
    (c : ℕ) (cs rest : Bytes)
    → IsRest cs rest
    → ends_inside (rest_of rest) ≡ true
    → ends_inside (c ∷ cs) ≡ true
goes_inside c cs [] left h = absurd (unfold ends_inside in cc)
goes_inside c cs (d ∷ ds) left h = ends_inside-later c cs (left.inside (ends_inside-later d ds h))
