-- ===== src/Stdio/Format/Print.antt =====
-- The loop of vsnprintf in src/stdio.c, and the functions that call it.
pub mod Bounds
pub mod Rest
pub mod Ends
pub mod Shows
use c_lite.Base.{
  ℕ, zero, suc, ◌+◌, ◌-◌, ◌*◌, ◌/◌, ◌%◌, ◌^◌, Bool, true, false, not, ◌&&◌, ◌||◌, List, [], ◌∷◌,
  ◌++◌, Option, none, some, leb, ltb, ◌==◌, if◌then◌else◌, length, take, ◌>>=◌,
}
use c_lite.Text.{Bytes, first, rest_of}
use c_lite.Stdlib.Number.{negate, is_negative}
use c_lite.Stdio.Format.{
  Out, put, put_all, put_pad, format_num, pad_text, Spec, flags_loop, number_loop, length_loop,
}
use c_lite.Stdio.Format.Double.{Doubles, double_text}

-- How a call ends: `refused` is a return of 0 that writes nothing; `printed` writes the bytes and a
-- NUL, and returns the number of the bytes. `no_argument` and `past_end` are undefined in C: a
-- directive wants an argument that is not there, or the format ends inside of a directive and the
-- code reads on behind its NUL.
pub data Printed : Type 0 where
  refused : Printed
  printed : Bytes → Printed
  no_argument : Printed
  past_end : Printed
  out_of_fuel : Printed

module _ (D : Doubles) where
  -- A variable argument: a word, a string or null, or a double.
  pub data Arg : Type 0 where
    word : ℕ → Arg
    text : Option Bytes → Arg
    double : D.Double → Arg

  abbrev pub take_word : List Arg → Option (ℕ × List Arg)
  take_word [] = none
  take_word (word w ∷ args) = some (w, args)
  take_word (text s ∷ args) = none
  take_word (double d ∷ args) = none

  abbrev pub take_text : List Arg → Option (Option Bytes × List Arg)
  take_text [] = none
  take_text (word w ∷ args) = none
  take_text (text s ∷ args) = some (s, args)
  take_text (double d ∷ args) = none

  abbrev pub take_double : List Arg → Option (D.Double × List Arg)
  take_double [] = none
  take_double (word w ∷ args) = none
  take_double (text s ∷ args) = none
  take_double (double d ∷ args) = some (d, args)

  -- The width: whether it turns left_align on, its value, and what follows.
  unfoldable pub parse_width : Bytes → List Arg → Option (Bool × ℕ × List Arg × Bytes)
  unfolding number_loop
  parse_width format args =
      if first format == b'*'
      then (do
        (w, args') ← take_word args
        some (is_negative w, (if is_negative w then negate w else w), args', rest_of format))
      else (let (width, rest) = number_loop 0 format in some (false, width, args, rest))

  unfoldable pub parse_precision : Bytes → List Arg → Option (Option ℕ × List Arg × Bytes)
  unfolding number_loop
  parse_precision format args =
      if not (first format == b'.')
      then some (none, args, format)
      else if first (rest_of format) == b'*'
      then (do
        (w, args') ← take_word args
        some ((if is_negative w then none else some w), args', rest_of (rest_of format)))
      else (let (precision, rest) = number_loop 0 (rest_of format) in
          some (some precision, args, rest))

  -- From behind '%' to the conversion.
  unfoldable pub parse_spec : Bytes → List Arg → Option (Spec × List Arg × Bytes)
  unfolding flags_loop parse_width parse_precision length_loop
  parse_spec format args = do
    let (left, zeros, flagged) = flags_loop false false format
    (minus, width, args', sized) ← parse_width flagged args
    (precision, args'', rest) ← parse_precision sized args'
    some (
      record {
        left_align = left || minus;
        pad = if zeros && not left then b'0' else b' ';
        width = width;
        precision = precision;
      },
      args'',
      length_loop rest,
    )

  abbrev pub cut : Option ℕ → Bytes → Bytes
  cut none s = s
  cut (some precision) s = take precision s

  abbrev pub text_of : Option Bytes → Bytes
  text_of none = b'(' ∷ b'n' ∷ b'u' ∷ b'l' ∷ b'l' ∷ b')' ∷ []
  text_of (some s) = s

  abbrev pub places : Option ℕ → ℕ
  places none = 6
  places (some precision) = precision

  unfoldable pub number : Spec → ℕ → Bool → ℕ → Bool → Out → Out
  unfolding format_num
  number spec base uppercase val negative o =
      format_num val base uppercase spec.width spec.pad negative spec.left_align o

  -- The switch over the conversion.
  unfoldable pub convert : Spec → ℕ → List Arg → Out → Option (Out × List Arg)
  unfolding put put_all pad_text format_num number double_text
  convert spec c args o =
      if c == b'c'
      then (do
        (w, args') ← take_word args
        some (pad_text spec.width spec.left_align (w % 256 ∷ []) o, args'))
      else if c == b's'
      then (do
        (s, args') ← take_text args
        some (pad_text spec.width spec.left_align (cut spec.precision (text_of s)) o, args'))
      else if c == b'd' || c == b'i'
      then (do
        (w, args') ← take_word args
        some
            (number spec 10 false (if is_negative w then negate w else w) (is_negative w) o, args'))
      else if c == b'u'
      then (do (w, args') ← take_word args; some (number spec 10 false w false o, args'))
      else if c == b'x'
      then (do (w, args') ← take_word args; some (number spec 16 false w false o, args'))
      else if c == b'X'
      then (do (w, args') ← take_word args; some (number spec 16 true w false o, args'))
      else if c == b'o'
      then (do (w, args') ← take_word args; some (number spec 8 false w false o, args'))
      else if c == b'p'
      then (do
        (w, args') ← take_word args
        some (
          format_num w 16 false 8 b'0' false false
              (if ltb 3 o.rem then put_all (b'0' ∷ b'x' ∷ []) o else o),
          args',
        ))
      else if c == b'f'
      then (do
        (v, args') ← take_double args
        some (
          pad_text spec.width spec.left_align (double_text D v (places spec.precision)) o,
          args',
        ))
      else some (put c o, args)

  -- What follows a conversion, with `go` for the rest of the loop.
  abbrev pub converted :
      (Bytes → List Arg → Out → Printed) → Bytes → Option (Out × List Arg) → Printed
  converted go rest none = no_argument
  converted go rest (some (o, args)) = go (rest_of rest) args o

  unfoldable pub parsed :
      (Bytes → List Arg → Out → Printed) → Out → Option (Spec × List Arg × Bytes) → Printed
  unfolding convert
  parsed go o none = no_argument
  parsed go o (some (spec, args, rest)) =
      if first rest == 0 then past_end else converted go rest (convert spec (first rest) args o)

  unfoldable pub directive : Bytes → List Arg → Out → (Bytes → List Arg → Out → Printed) → Printed
  unfolding parse_spec parsed
  directive format args o go = parsed go o (parse_spec format args)

  -- One unit of fuel is one round of the loop over the format.
  unfoldable pub print_loop : ℕ → Bytes → List Arg → Out → Printed
  unfolding put directive
  print_loop zero format args o = out_of_fuel
  print_loop (suc f) [] args o = printed o.text
  print_loop (suc f) (c ∷ cs) args o =
      let plain = print_loop f cs args (put c o) in
      let percent = print_loop f (rest_of cs) args (put b'%' o) in
      let directed = directive cs args o (print_loop f) in
      if not (ltb 1 o.rem)
      then printed o.text
      else if not (c == b'%')
      then plain
      else if first cs == 0
      then printed o.text
      else if first cs == b'%'
      then percent
      else directed

  -- `str` is not null.
  unfoldable pub vsnprintf : ℕ → ℕ → Bytes → List Arg → Printed
  unfolding print_loop
  vsnprintf fuel size format args =
      if size == 0 then refused else print_loop fuel format args (record { text = []; rem = size })

  unfoldable pub snprintf : ℕ → ℕ → Bytes → List Arg → Printed
  unfolding vsnprintf
  snprintf fuel size format args = vsnprintf fuel size format args

  unfoldable pub vsprintf : ℕ → Bytes → List Arg → Printed
  unfolding vsnprintf
  vsprintf fuel format args = vsnprintf fuel 1048576 format args

  unfoldable pub sprintf : ℕ → Bytes → List Arg → Printed
  unfolding vsprintf
  sprintf fuel format args = vsprintf fuel format args
