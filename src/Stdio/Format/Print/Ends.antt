-- ===== src/Stdio/Format/Print/Ends.antt =====
-- The loop of vsnprintf ends, inside of its buffer.
use c_lite.Base.{
  ℕ, zero, suc, ◌≤◌, ◌<◌, ◌≡◌, ◌≢◌, inl, inr, true, false, not, List, [], ◌∷◌, Option, none, some,
  ltb, ==→eq, ==→ne, ◌==◌, length, arith, Bool-cases,
}
use c_lite.Text.{Bytes, first, rest_of}
use c_lite.Stdio.Format.{Out, put, Spec}
use c_lite.Stdio.Format.Double.{Doubles}
use c_lite.Stdio.Format.Print.{
  Printed, refused, printed, no_argument, past_end, out_of_fuel, Arg, parse_spec, convert,
  converted, parsed, directive, print_loop, vsnprintf,
}
use c_lite.Stdio.Format.Print.Rest.{
  ends_inside, ends_inside-later, all-IsRest, SpecLeaves, parse_spec-leaves, stops_inside,
  goes_inside,
}
use c_lite.Stdio.Format.Print.Bounds.{IsWithin, put-IsWithin, Converted, convert-Converted}

rest_of-le : (cs : Bytes) → length (rest_of cs) ≤ length cs
rest_of-le [] = omega arith
rest_of-le (c ∷ cs) = omega arith

rest_of-lt : (cs : Bytes) → (first cs == 0) ≡ false → suc (length (rest_of cs)) ≤ length cs
rest_of-lt [] h = cc
rest_of-lt (c ∷ cs) h = omega arith

-- What a call may end with: never out of fuel, with less than `size` bytes, and past the end only of a
-- format that ends inside of a directive.
abbrev pub IsSafe : Bytes → ℕ → Printed → Type 0
IsSafe format size refused = size ≡ 0
IsSafe format size (printed text) = length text < size
IsSafe format size no_argument = Unit
IsSafe format size past_end = ends_inside format ≡ true
IsSafe format size out_of_fuel = ⊥

-- Both sides of a step end inside of a directive.
inside_later :
    (format : Bytes) (c : ℕ) (cs : Bytes)
    → (ends_inside (c ∷ cs) ≡ true → ends_inside format ≡ true)
    → ends_inside cs ≡ true
    → ends_inside format ≡ true
inside_later format c cs h inside = h (ends_inside-later c cs inside)

inside_behind :
    (format : Bytes) (c : ℕ) (cs : Bytes)
    → (ends_inside (c ∷ cs) ≡ true → ends_inside format ≡ true)
    → ends_inside (rest_of cs) ≡ true
    → ends_inside format ≡ true
inside_behind format c cs h inside = h (goes_inside c cs cs (all-IsRest cs) inside)

module _ (D : Doubles) (format : Bytes) where
  -- What `go` must do with every shorter rest.
  abbrev Goes : ℕ → ℕ → (Bytes → List (Arg D) → Out → Printed) → Type 0
  Goes size n go =
      (rest : Bytes) (args : List (Arg D)) (o : Out)
      → suc (length rest) ≤ n
      → (ends_inside rest ≡ true → ends_inside format ≡ true)
      → IsWithin size o
      → IsSafe format size (go rest args o)

  converted-IsSafe :
      (size n : ℕ) (go : Bytes → List (Arg D) → Out → Printed) (rest : Bytes)
      (r : Option (Out × List (Arg D)))
      → Goes size n go
      → suc (length (rest_of rest)) ≤ n
      → (ends_inside (rest_of rest) ≡ true → ends_inside format ≡ true)
      → Converted D size r
      → IsSafe format size (converted D go rest r)
  unfolding Converted
  converted-IsSafe size n go rest none safe le inside h = tt
  converted-IsSafe size n go rest (some (o, args)) safe le inside h =
      safe (rest_of rest) args o le inside h

  parsed-IsSafe :
      (size c : ℕ) (cs : Bytes) (go : Bytes → List (Arg D) → Out → Printed) (o : Out)
      (r : Option (Spec × List (Arg D) × Bytes))
      → (c == b'%') ≡ true
      → (ends_inside (c ∷ cs) ≡ true → ends_inside format ≡ true)
      → Goes size (length cs) go
      → SpecLeaves D cs r
      → IsWithin size o
      → IsSafe format size (parsed D go o r)
  unfolding parsed
  parsed-IsSafe size c cs go o none percent inside safe left h = tt
  parsed-IsSafe size c cs go o (some (spec, args, rest)) percent inside safe left h =
      elim (Bool-cases (first rest == 0)) [
        | inl end ↦ rw end (inside (stops_inside c cs rest percent left end))
        | inr more ↦ rw more (
            converted-IsSafe size (length cs) go rest (convert D spec (first rest) args o) safe
              (omega (arith, left.shorter, rest_of-lt rest more))
              (λ e. inside (goes_inside c cs rest left e))
              (convert-Converted D size (first rest) spec args o h))
      ]

  print_loop-IsSafe :
      (f size : ℕ) (cs : Bytes) (args : List (Arg D)) (o : Out)
      → length cs < f
      → (ends_inside cs ≡ true → ends_inside format ≡ true)
      → IsWithin size o
      → IsSafe format size (print_loop D f cs args o)
  unfolding print_loop directive
  print_loop-IsSafe zero size cs args o enough inside h = absurd (omega arith)
  print_loop-IsSafe (suc f) size [] args o enough inside h = omega (arith, h.whole, h.room)
  print_loop-IsSafe (suc f) size (c ∷ cs) args o enough inside h =
      let stop : length o.text < size = omega (arith, h.whole, h.room) in
      elim (Bool-cases (not (ltb 1 o.rem))) [
        | inl full ↦ rw full stop
        | inr free ↦ elim (Bool-cases (c == b'%')) [
          | inr plain ↦
              rw (free, plain)
                (print_loop-IsSafe f size cs args (put c o) (omega arith)
                  (inside_later format c cs inside) (put-IsWithin size c o h))
          | inl percent ↦ elim (Bool-cases (first cs == 0)) [
            | inl end ↦ rw (free, percent, end) stop
            | inr more ↦ elim (Bool-cases (first cs == b'%')) [
              | inl twice ↦
                  rw (free, percent, more, twice)
                    (print_loop-IsSafe f size (rest_of cs) args (put b'%' o)
                      (omega (arith, rest_of-le cs)) (inside_behind format c cs inside)
                      (put-IsWithin size b'%' o h))
              | inr directed ↦
                  rw (free, percent, more, directed)
                    (parsed-IsSafe size c cs (print_loop D f) o (parse_spec D cs args) percent
                      inside
                      (λ rest args' o' le e h'.
                        print_loop-IsSafe f size rest args' o' (omega arith) e h')
                      (parse_spec-leaves D cs args) h)
            ]
          ]
        ]
      ]

module _ (D : Doubles) where
  pub vsnprintf-IsSafe :
      (fuel size : ℕ) (format : Bytes) (args : List (Arg D))
      → length format < fuel
      → IsSafe format size (vsnprintf D fuel size format args)
  unfolding vsnprintf
  vsnprintf-IsSafe fuel size format args enough = elim (Bool-cases (size == 0)) [
    | inl none_at_all ↦ rw none_at_all (==→eq size 0 none_at_all)
    | inr some_room ↦
        let ne : size ≢ 0 = ==→ne size 0 some_room in
        rw some_room (
          print_loop-IsSafe D format fuel size format args (record { text = []; rem = size }) enough
            (λ e. e) (record { whole = omega arith; room = omega arith }))
  ]
