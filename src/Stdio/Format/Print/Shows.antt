-- ===== src/Stdio/Format/Print/Shows.antt =====
-- What vsnprintf prints: a format without directives, and a number as itoa writes it.
use c_lite.Base.{
  ℕ, zero, suc, ◌-◌, ◌/◌, ◌%◌, ◌^◌, ◌≤◌, ◌<◌, ◌≡◌, ◌≢◌, inl, inr, refl, sym, ap, ◌∙◌, false, List,
  [], ◌∷◌, ◌++◌, append-nil, append_assoc, some, lt→ltb, ==→eq, ==→ne, ne→==, ◌==◌, if◌then◌else◌,
  length, take, arith, Bool-cases,
}
use c_lite.Text.{Bytes, has}
use c_lite.Stdlib.Number.{negate, is_negative, itoa_loop, itoa, digit_char}
use c_lite.Stdlib.Number.RoundTrip.{half_power, quotient_bounds}
use c_lite.Stdio.Format.{Out, put, put_all, put_pad, format_num, num_loop, num_text}
use c_lite.Stdio.Format.Double.{Doubles}
use c_lite.Stdio.Format.Print.{Printed, printed, Arg, word, print_loop, snprintf, directive}

abbrev out : Bytes → ℕ → Out
out text rem = record { text = text; rem = rem }

put_free : (c n : ℕ) (text : Bytes) → put c (out text (suc (suc n))) ≡ out (text ++ c ∷ []) (suc n)
unfolding put
put_free c n text =
    let less : suc (suc n) - 1 ≡ suc n = omega arith in
    rw (lt→ltb 1 (suc (suc n)) (omega arith), less) refl

put_full : (c : ℕ) (text : Bytes) → put c (out text 1) ≡ out text 1
unfolding put
put_full c text = refl

-- The bytes that fit are written.
put_all-take : (cs text : Bytes) (n : ℕ) → (put_all cs (out text (suc n))).text ≡ text ++ take n cs
unfolding put_all
put_all-take [] text zero = sym (append-nil text)
put_all-take [] text (suc n) = sym (append-nil text)
put_all-take (c ∷ cs) text zero = put_all-take cs text zero
put_all-take (c ∷ cs) text (suc n) =
    ap (λ o. (put_all cs o).text) (put_free c n text)
    ∙ put_all-take cs (text ++ c ∷ []) n
    ∙ append_assoc text (c ∷ []) (take n cs)

-- The loop of format_num writes the digits that the loop of itoa writes.
num_loop-zero : (f base : ℕ) (acc : Bytes) → num_loop f base false 0 acc ≡ acc
unfolding num_loop
num_loop-zero zero base acc = refl
num_loop-zero (suc f) base acc = refl

num_loop-itoa_loop :
    (f base u : ℕ) (acc : Bytes)
    → 2 ≤ base
    → u ≢ 0
    → u < 2 ^ f
    → itoa_loop f base u acc ≡ some (num_loop f base false u acc)
unfolding itoa_loop num_loop
num_loop-itoa_loop zero base u acc low ne small = absurd (omega arith)
num_loop-itoa_loop (suc f) base u acc low ne small =
    let (whole, below, half) = quotient_bounds u base low in
    elim (Bool-cases (u / base == 0)) [
      | inl single ↦
          rw (single, ne→== u 0 ne, ==→eq _ _ single)
            (ap some (sym (num_loop-zero f base (digit_char (u % base) ∷ acc))))
      | inr more ↦
          rw (more, ne→== u 0 ne)
            (num_loop-itoa_loop f base (u / base) (digit_char (u % base) ∷ acc) low (==→ne _ _ more)
              (half_power (u / base) u f half small))
    ]

text-itoa_loop :
    (f u : ℕ)
    → u < 2 ^ f
    → 0 < f
    → itoa_loop f 10 u [] ≡ some (if u == 0 then b'0' ∷ [] else num_loop f 10 false u [])
text-itoa_loop zero u small pos = absurd (omega arith)
text-itoa_loop (suc f) u small pos = elim (Bool-cases (u == 0)) [
  | inl nothing ↦ rw (nothing, ==→eq u 0 nothing) (unfold itoa_loop in refl)
  | inr more ↦ rw more (num_loop-itoa_loop (suc f) 10 u [] (omega arith) (==→ne u 0 more) small)
]

num_text-itoa_loop : (u : ℕ) → u < 2 ^ 32 → itoa_loop 32 10 u [] ≡ some (num_text 10 false u)
unfolding num_text
num_text-itoa_loop u small = text-itoa_loop 32 u small (omega arith)

-- The text of a signed word.
abbrev signed_text : ℕ → Bytes
signed_text w =
    let digits = num_text 10 false (if is_negative w then negate w else w) in
    if is_negative w then b'-' ∷ digits else digits

itoa-signed_text : (w : ℕ) → w < 2 ^ 32 → itoa w 10 ≡ some (signed_text w)
unfolding itoa
itoa-signed_text w small = elim (Bool-cases (is_negative w)) [
  | inl minus ↦ rw (minus, num_text-itoa_loop (negate w) (omega arith)) refl
  | inr plain ↦ rw (plain, num_text-itoa_loop w small) refl
]

format_num-take :
    (w n : ℕ)
    → (format_num
        (if is_negative w then negate w else w)
        10
        false
        0
        b' '
        (is_negative w)
        false
        (out [] (suc n))).text
      ≡ take n (signed_text w)
unfolding format_num put_pad
format_num-take w n =
    let no_pad : 0 - length (signed_text w) ≡ 0 = omega arith in
    rw no_pad (put_all-take (signed_text w) [] n)

no_percent : (c : ℕ) (cs : Bytes) → has b'%' (c ∷ cs) ≡ false → (c ≢ b'%') × (has b'%' cs ≡ false)
unfolding has
no_percent c cs plain = ground arith

module _ (D : Doubles) where
  plain_step :
      (f n c : ℕ) (cs text : Bytes) (args : List (Arg D))
      → c ≢ b'%'
      → print_loop D (suc f) (c ∷ cs) args (out text (suc (suc n)))
        ≡ print_loop D f cs args (out (text ++ c ∷ []) (suc n))
  unfolding print_loop
  plain_step f n c cs text args ne =
      let less : suc (suc n) - 1 ≡ suc n = omega arith in
      rw (lt→ltb 1 (suc (suc n)) (omega arith), ne→== c b'%' ne, less) refl

  directive-signed :
      (n w : ℕ) (go : Bytes → List (Arg D) → Out → Printed)
      → directive D (b'd' ∷ []) (word w ∷ []) (out [] (suc n)) go
        ≡ go [] [] (
            format_num
              (if is_negative w then negate w else w)
              10
              false
              0
              b' '
              (is_negative w)
              false
              (out [] (suc n)))
  unfolding directive
  directive-signed n w go = refl

  print_loop-directive :
      (f n c : ℕ) (cs text : Bytes) (args : List (Arg D))
      → c ≢ 0
      → c ≢ b'%'
      → print_loop D (suc f) (b'%' ∷ c ∷ cs) args (out text (suc (suc n)))
        ≡ directive D (c ∷ cs) args (out text (suc (suc n))) (print_loop D f)
  unfolding print_loop
  print_loop-directive f n c cs text args ne np =
      rw (lt→ltb 1 (suc (suc n)) (omega arith), ne→== c 0 ne, ne→== c b'%' np) refl

  print_loop-end :
      (f : ℕ) (args : List (Arg D)) (o : Out) → print_loop D (suc f) [] args o ≡ printed o.text
  unfolding print_loop
  print_loop-end f args o = refl

  snprintf-print_loop :
      (f n : ℕ) (format : Bytes) (args : List (Arg D))
      → snprintf D f (suc n) format args ≡ print_loop D f format args (out [] (suc n))
  unfolding snprintf
  snprintf-print_loop f n format args = rw (ne→== (suc n) 0 (omega arith)) refl

  -- For every 32-bit word and a buffer that is not empty, with fuel from 2 on: with "%d", snprintf prints the
  -- text that itoa writes in base 10, cut to the buffer.
  pub snprintf-itoa :
      (f n w : ℕ)
      → w < 2 ^ 32
      → (text : Bytes) × (itoa w 10 ≡ some text)
        × (snprintf D (suc (suc f)) (suc n) (b'%' ∷ b'd' ∷ []) (word w ∷ [])
            ≡ printed (take n text))
  snprintf-itoa f zero w small = (
    signed_text w,
    itoa-signed_text w small,
    snprintf-print_loop (suc (suc f)) 0 (b'%' ∷ b'd' ∷ []) (word w ∷ [])
        ∙ (unfold print_loop in refl),
  )
  snprintf-itoa f (suc n) w small = (
    signed_text w,
    itoa-signed_text w small,
    snprintf-print_loop (suc (suc f)) (suc n) (b'%' ∷ b'd' ∷ []) (word w ∷ [])
        ∙ print_loop-directive (suc f) n b'd' [] [] (word w ∷ []) (omega arith) (omega arith)
        ∙ directive-signed (suc n) w (print_loop D (suc f))
        ∙ print_loop-end f [] _
        ∙ ap printed (format_num-take w (suc n)),
  )

  print_loop-plain :
      (cs text : Bytes) (f n : ℕ) (args : List (Arg D))
      → has b'%' cs ≡ false
      → length cs < f
      → print_loop D f cs args (out text (suc n)) ≡ printed (text ++ take n cs)
  print_loop-plain cs text zero n args plain enough = absurd (omega arith)
  print_loop-plain [] text (suc f) zero args plain enough =
      print_loop-end f args _ ∙ ap printed (sym (append-nil text))
  print_loop-plain [] text (suc f) (suc n) args plain enough =
      print_loop-end f args _ ∙ ap printed (sym (append-nil text))
  print_loop-plain (c ∷ cs) text (suc f) zero args plain enough =
      unfold print_loop in ap printed (sym (append-nil text))
  print_loop-plain (c ∷ cs) text (suc f) (suc n) args plain enough =
      let (other, later) = no_percent c cs plain in
      plain_step f n c cs text args other
      ∙ print_loop-plain cs (text ++ c ∷ []) f n args later (omega arith)
      ∙ ap printed (append_assoc text (c ∷ []) (take n cs))

  -- A format without '%' is printed as it stands, cut to the buffer.
  pub snprintf-plain :
      (format : Bytes) (f n : ℕ) (args : List (Arg D))
      → has b'%' format ≡ false
      → length format < f
      → snprintf D f (suc n) format args ≡ printed (take n format)
  snprintf-plain format f n args plain enough =
      snprintf-print_loop f n format args ∙ print_loop-plain format [] f n args plain enough
