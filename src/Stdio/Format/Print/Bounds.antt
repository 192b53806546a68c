-- ===== src/Stdio/Format/Print/Bounds.antt =====
-- vsnprintf stays inside of its buffer, and its loop ends.
use c_lite.Base.{
  ℕ, zero, suc, ◌+◌, ◌-◌, ◌%◌, ◌≤◌, ◌<◌, ◌≡◌, inl, inr, refl, ap, Bool, true, false, ◌&&◌, ◌||◌,
  List, [], ◌∷◌, ◌++◌, Option, none, some, ltb, ltb→lt, ◌==◌, if◌then◌else◌, length, ◌>>=◌, arith,
  Bool-cases,
}
use c_lite.Text.{Bytes}
use c_lite.Stdlib.Number.{negate, is_negative}
use c_lite.Stdio.Format.{Out, put, put_all, put_pad, format_num, num_text, pad_text, Spec}
use c_lite.Stdio.Format.Double.{Doubles, double_text}
use c_lite.Stdio.Format.Print.{
  number, cut, text_of, places, take_word, take_text, take_double, Arg, convert,
}

length-snoc {ℓ} : {A : Type ℓ} (xs : List A) (x : A) → length (xs ++ x ∷ []) ≡ suc (length xs)
length-snoc [] x = refl
length-snoc (y ∷ xs) x = ap suc (length-snoc xs x)

-- What is written and the room that is left make up the buffer, and a byte is left for the NUL.
pub record IsWithin (size : ℕ) (o : Out) : Type 0 where
  pub whole : length o.text + o.rem ≡ size
  pub room : 1 ≤ o.rem

pub put-IsWithin : (size c : ℕ) (o : Out) → IsWithin size o → IsWithin size (put c o)
unfolding put
put-IsWithin size c o h = elim (Bool-cases (ltb 1 o.rem)) [
  | inl free ↦
      let lt : 1 < o.rem = ltb→lt 1 o.rem free in
      rw free (record { whole = omega (arith, length-snoc o.text c, h.whole); room = omega arith })
  | inr full ↦ rw full h
]

pub put_all-IsWithin :
    (size : ℕ) (cs : Bytes) (o : Out) → IsWithin size o → IsWithin size (put_all cs o)
unfolding put_all
put_all-IsWithin size [] o h = h
put_all-IsWithin size (c ∷ cs) o h = put_all-IsWithin size cs (put c o) (put-IsWithin size c o h)

pub put_pad-IsWithin : (size n c : ℕ) (o : Out) → IsWithin size o → IsWithin size (put_pad n c o)
unfolding put_pad
put_pad-IsWithin size zero c o h = h
put_pad-IsWithin size (suc n) c o h = put_pad-IsWithin size n c (put c o) (put-IsWithin size c o h)

format_num-IsWithin :
    (size val base : ℕ) (upper : Bool) (width pad : ℕ) (negative left : Bool) (o : Out)
    → IsWithin size o
    → IsWithin size (format_num val base upper width pad negative left o)
unfolding format_num
format_num-IsWithin size val base upper width pad negative left o h =
    let digits = num_text base upper val in
    let signed = if negative then b'-' ∷ digits else digits in
    let n = width - length signed in
    elim (Bool-cases left) [
      | inl to_left ↦ rw to_left (put_pad-IsWithin size n b' ' _ (put_all-IsWithin size signed o h))
      | inr to_right ↦ elim (Bool-cases (pad == b'0' && negative)) [
        | inl split ↦
            rw (to_right, split)
              (put_all-IsWithin size digits _
                (put_pad-IsWithin size n pad _ (put-IsWithin size b'-' o h)))
        | inr joined ↦
            rw (to_right, joined) (put_all-IsWithin size signed _ (put_pad-IsWithin size n pad o h))
      ]
    ]

pad_text-IsWithin :
    (size width : ℕ) (left : Bool) (cs : Bytes) (o : Out)
    → IsWithin size o
    → IsWithin size (pad_text width left cs o)
unfolding pad_text
pad_text-IsWithin size width true cs o h =
    put_pad-IsWithin size (width - length cs) b' ' _ (put_all-IsWithin size cs o h)
pad_text-IsWithin size width false cs o h =
    put_all-IsWithin size cs _ (put_pad-IsWithin size (width - length cs) b' ' o h)

module _ (D : Doubles) where
  -- The output of a conversion that finds its argument.
  unfoldable pub Converted : ℕ → Option (Out × List (Arg D)) → Type 0
  Converted size none = Unit
  Converted size (some (o, args)) = IsWithin size o

  if-Converted :
      (size : ℕ) (b : Bool) (x y : Option (Out × List (Arg D)))
      → Converted size x
      → Converted size y
      → Converted size (if b then x else y)
  if-Converted size true x y hx hy = hx
  if-Converted size false x y hx hy = hy

  bind-Converted :
      {A : Type 0} (size : ℕ) (r : Option (A × List (Arg D))) (f : A → Out)
      → ((a : A) → IsWithin size (f a))
      → Converted size (do (a, args) ← r; some (f a, args))
  unfolding Converted
  bind-Converted size none f h = tt
  bind-Converted size (some (a, args)) f h = h a

  some-Converted :
      (size : ℕ) (o : Out) (args : List (Arg D)) → IsWithin size o → Converted size (some (o, args))
  unfolding Converted
  some-Converted size o args h = h

  number-IsWithin :
      (size : ℕ) (spec : Spec) (base : ℕ) (upper : Bool) (val : ℕ) (negative : Bool) (o : Out)
      → IsWithin size o
      → IsWithin size (number D spec base upper val negative o)
  unfolding number
  number-IsWithin size spec base upper val negative o h =
      format_num-IsWithin size val base upper spec.width spec.pad negative spec.left_align o h

  pointer-IsWithin :
      (size : ℕ) (cs : Bytes) (o : Out)
      → IsWithin size o
      → IsWithin size (if ltb 3 o.rem then put_all cs o else o)
  pointer-IsWithin size cs o h = elim (Bool-cases (ltb 3 o.rem)) [
    | inl free ↦ rw free (put_all-IsWithin size cs o h)
    | inr full ↦ rw full h
  ]

  pub convert-Converted :
      (size c : ℕ) (spec : Spec) (args : List (Arg D)) (o : Out)
      → IsWithin size o
      → Converted size (convert D spec c args o)
  unfolding convert
  convert-Converted size c spec args o h =
      if-Converted size (c == b'c') _ _
        (bind-Converted size (take_word D args)
          (λ w. pad_text spec.width spec.left_align (w % 256 ∷ []) o) (λ w. padded (w % 256 ∷ [])))
        (if-Converted size (c == b's') _ _
          (bind-Converted size (take_text D args)
            (λ s. pad_text spec.width spec.left_align (cut D spec.precision (text_of D s)) o)
            (λ s. padded (cut D spec.precision (text_of D s))))
          (if-Converted size (c == b'd' || c == b'i') _ _
            (numbers 10 false (λ w. if is_negative w then negate w else w) is_negative)
            (if-Converted size (c == b'u') _ _ (numbers 10 false (λ w. w) (λ w. false)) (
              if-Converted size (c == b'x') _ _ (numbers 16 false (λ w. w) (λ w. false)) (
                if-Converted size (c == b'X') _ _ (numbers 16 true (λ w. w) (λ w. false)) (
                  if-Converted size (c == b'o') _ _ (numbers 8 false (λ w. w) (λ w. false)) (
                    if-Converted size (c == b'p') _ _
                      (bind-Converted size (take_word D args) _ (λ w.
                        format_num-IsWithin size w 16 false 8 b'0' false false _
                          (pointer-IsWithin size (b'0' ∷ b'x' ∷ []) o h)))
                      (if-Converted size (c == b'f') _ _
                        (bind-Converted size (take_double D args)
                          (λ v.
                            pad_text spec.width spec.left_align
                              (double_text D v (places D spec.precision)) o)
                          (λ v. padded (double_text D v (places D spec.precision))))
                        (some-Converted size (put c o) args (put-IsWithin size c o h))))))))))
    where
      numbers :
          (base : ℕ) (upper : Bool) (val : ℕ → ℕ) (neg : ℕ → Bool)
          → Converted size (do
            (w, rest) ← take_word D args
            some (number D spec base upper (val w) (neg w) o, rest))
      numbers base upper val neg =
          bind-Converted size (take_word D args) (λ w. number D spec base upper (val w) (neg w) o)
            (λ w. number-IsWithin size spec base upper (val w) (neg w) o h)

      padded : (cs : Bytes) → IsWithin size (pad_text spec.width spec.left_align cs o)
      padded cs = pad_text-IsWithin size spec.width spec.left_align cs o h
