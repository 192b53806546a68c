-- ===== src/Tests/Output.antt =====
-- Runs of the formatted output and of the streams.
use c_lite.Base.{ℕ, ◌+◌, ◌*◌, ◌-◌, ◌/◌, ◌≡◌, refl, ap, true, false, [], ◌∷◌, some, take, arith}
use c_lite.Base.Int.{pos}
use c_lite.Text.{Bytes, codes, rest_of, has}
use c_lite.Stdlib.Number.{itoa}
use c_lite.Time.{Tm}
use c_lite.Time.Format.{strftime}
use c_lite.Time.Ends.{IsDone, strftime-IsDone}
use c_lite.Syscall.{Os, World, Reply, write, read}
use c_lite.Stdio.Format.Double.{Doubles}
use c_lite.Stdio.Format.Print.{printed, word, snprintf}
use c_lite.Stdio.Format.Print.Shows.{snprintf-itoa}
use c_lite.Stdio.Output.{printf, asprintf}
use c_lite.Stdio.Output.Truncation.{IsShort, asprintf-IsShort, printf-plain}
use c_lite.Stdio.Stream.{is_one, fresh_file, fgets}
use c_lite.Stdio.Stream.Lines.{Source, none_back, IsAt, line, after_line, shown, fgets-line}

-- Doubles that are tenths.
abbrev pub tenths : Doubles
tenths = record {
  Double = ℕ;
  half = 5;
  is_below_zero = λ d. false;
  minus = λ d. 0;
  div_ten = λ d. d / 10;
  mul_ten = λ d. d * 10;
  plus = λ a b. a + b;
  less = λ a b. a - b;
  to_ulong = λ d. d / 10;
  of_ulong = λ n. n * 10;
}

-- A kernel whose every call reads one byte of a text.
abbrev reply_of : Bytes → Reply
reply_of [] = record { ret = pos 0; filled = [] }
reply_of (c ∷ cs) = record { ret = pos 1; filled = c ∷ [] }

abbrev one_file : Os
one_file = record { State = Bytes; answer = λ number args s. (reply_of s, rest_of s) }

abbrev holding : Bytes → World one_file
holding cs = record { os = cs; errno = 0 }

gives_first :
    (c : ℕ) (cs : Bytes) (w : World one_file)
    → w.os ≡ c ∷ cs
    → ((read one_file (pos 3) 1 w).0 ≡ record { ret = pos 1; filled = c ∷ [] })
      × ((read one_file (pos 3) 1 w).1.os ≡ cs)
unfolding read
gives_first c cs w h = (ap reply_of h, ap rest_of h)

gives_none :
    (w : World one_file)
    → w.os ≡ []
    → (is_one (read one_file (pos 3) 1 w).0.ret ≡ false) × ((read one_file (pos 3) 1 w).1.os ≡ [])
unfolding read
gives_none w h = (ap (λ s. is_one (reply_of s).ret) h, ap rest_of h)

abbrev source : Source one_file
source = record { fd = pos 3; Holds = λ cs w. w.os ≡ cs; gives = gives_first; ends = gives_none }

abbrev percent_d : Bytes
percent_d = b'%' ∷ b'd' ∷ []

snprintf-itoa_example :
    (text : Bytes) × (itoa 4294967254 10 ≡ some text)
    × (snprintf tenths 2 4 percent_d (word 4294967254 ∷ []) ≡ printed (take 3 text))
snprintf-itoa_example = snprintf-itoa tenths 0 3 4294967254 (omega arith)

asprintf-IsShort_example :
    IsShort 1024 (asprintf tenths true 3 true (some percent_d) (word 42 ∷ []))
asprintf-IsShort_example =
    asprintf-IsShort tenths true true 3 percent_d (word 42 ∷ []) (omega arith)

printf-plain_example :
    let r = write one_file (pos 1) (take 1023 (104 ∷ 10 ∷ [])) (holding []) in
    printf one_file tenths 3 (104 ∷ 10 ∷ []) [] (holding []) ≡ (some r.0, r.1)
printf-plain_example =
    printf-plain one_file tenths 104 (10 ∷ []) 3 [] (holding []) (unfold has in refl) (omega arith)

abbrev two_lines : Bytes
two_lines = 97 ∷ 10 ∷ 98 ∷ []

at_start : IsAt source two_lines (fresh_file (pos 3)) (holding two_lines)
unfolding IsAt
at_start = (refl, none_back refl)

fgets-line_example :
    let r = fgets one_file 9 (fresh_file (pos 3)) (holding two_lines) in
    (r.0.0 ≡ shown (line 8 two_lines)) × IsAt source (after_line 8 two_lines) r.0.1 r.1
fgets-line_example = fgets-line source 7 two_lines (fresh_file (pos 3)) (holding two_lines) at_start

abbrev new_year : Tm
new_year = record {
  tm_sec = pos 0;
  tm_min = pos 0;
  tm_hour = pos 0;
  tm_mday = pos 1;
  tm_mon = pos 0;
  tm_year = pos 70;
  tm_wday = pos 4;
  tm_yday = pos 0;
  tm_isdst = pos 0;
}

strftime-IsDone_example : IsDone (codes "%a %d") 9 (strftime tenths 6 9 (codes "%a %d") new_year)
strftime-IsDone_example = strftime-IsDone tenths 6 9 (codes "%a %d") new_year (omega arith)
