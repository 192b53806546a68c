-- ===== src/Time/Format.antt =====
-- strftime of src/time.c.
use c_lite.Base.{
  ℕ, zero, suc, ◌-◌, ◌%◌, ◌^◌, not, ◌||◌, List, [], ◌∷◌, ◌++◌, Option, none, some, ltb, ◌==◌,
  if◌then◌else◌, length, take, get_or,
}
use c_lite.Base.Int.{ℤ, pos, negsuc, ◌+ℤ◌, is_zero, ltb_ℤ}
use c_lite.Text.{Bytes, codes, first, rest_of}
use c_lite.Stdio.Format.Double.{Doubles}
use c_lite.Stdio.Format.Print.{
  Printed, refused, printed, no_argument, past_end, out_of_fuel, word, snprintf,
}
use c_lite.Time.{Tm}

abbrev pub wday_name : List Bytes
wday_name =
    codes "Sun"
    ∷ codes "Mon"
    ∷ codes "Tue"
    ∷ codes "Wed"
    ∷ codes "Thu"
    ∷ codes "Fri"
    ∷ codes "Sat"
    ∷ []

abbrev pub wday_fullname : List Bytes
wday_fullname =
    codes "Sunday"
    ∷ codes "Monday"
    ∷ codes "Tuesday"
    ∷ codes "Wednesday"
    ∷ codes "Thursday"
    ∷ codes "Friday"
    ∷ codes "Saturday"
    ∷ []

abbrev pub mon_name : List Bytes
mon_name =
    codes "Jan"
    ∷ codes "Feb"
    ∷ codes "Mar"
    ∷ codes "Apr"
    ∷ codes "May"
    ∷ codes "Jun"
    ∷ codes "Jul"
    ∷ codes "Aug"
    ∷ codes "Sep"
    ∷ codes "Oct"
    ∷ codes "Nov"
    ∷ codes "Dec"
    ∷ []

abbrev pub mon_fullname : List Bytes
mon_fullname =
    codes "January"
    ∷ codes "February"
    ∷ codes "March"
    ∷ codes "April"
    ∷ codes "May"
    ∷ codes "June"
    ∷ codes "July"
    ∷ codes "August"
    ∷ codes "September"
    ∷ codes "October"
    ∷ codes "November"
    ∷ codes "December"
    ∷ []

-- The name at a number, and "?" where the number is out of range.
unfoldable pub name_of : List Bytes → ℤ → Bytes
name_of names (pos n) = get_or names n (codes "?")
name_of names (negsuc n) = codes "?"

-- An int as a machine word.
unfoldable pub to_word : ℤ → ℕ
to_word (pos n) = n % 2 ^ 32
to_word (negsuc n) = 2 ^ 32 - 1 - n % 2 ^ 32

-- a % m of C, which keeps the sign of a.
unfoldable pub rem_ℤ : ℤ → ℕ → ℤ
rem_ℤ (pos n) m = pos (n % m)
rem_ℤ (negsuc n) m = if suc n % m == 0 then pos 0 else negsuc (suc n % m - 1)

-- The hour on a clock of twelve hours.
unfoldable pub hour_12 : ℤ → ℤ
unfolding rem_ℤ
hour_12 h = if is_zero (rem_ℤ h 12) then pos 12 else rem_ℤ h 12

module _ (D : Doubles) where
  -- snprintf into `temp`, of 32 bytes, for a format of at most 4 bytes.
  unfoldable pub shown_int : Bytes → ℤ → Printed
  unfolding snprintf to_word
  shown_int format v = snprintf D 5 32 format (word (to_word v) ∷ [])

  -- `sub` for a directive; none is the default case and "%%".
  unfoldable pub sub_of : Tm → ℕ → Option Printed
  unfolding shown_int name_of hour_12 rem_ℤ ◌+ℤ◌
  sub_of tm c =
      if c == b'a'
      then some (printed (name_of wday_name tm.tm_wday))
      else if c == b'A'
      then some (printed (name_of wday_fullname tm.tm_wday))
      else if c == b'b' || c == b'h'
      then some (printed (name_of mon_name tm.tm_mon))
      else if c == b'B'
      then some (printed (name_of mon_fullname tm.tm_mon))
      else if c == b'd'
      then some (shown_int (codes "%02d") tm.tm_mday)
      else if c == b'e'
      then some (shown_int (codes "%2d") tm.tm_mday)
      else if c == b'H'
      then some (shown_int (codes "%02d") tm.tm_hour)
      else if c == b'I'
      then some (shown_int (codes "%02d") (hour_12 tm.tm_hour))
      else if c == b'm'
      then some (shown_int (codes "%02d") (tm.tm_mon +ℤ pos 1))
      else if c == b'M'
      then some (shown_int (codes "%02d") tm.tm_min)
      else if c == b'p'
      then some (printed (if ltb_ℤ tm.tm_hour (pos 12) then codes "AM" else codes "PM"))
      else if c == b'S'
      then some (shown_int (codes "%02d") tm.tm_sec)
      else if c == b'Y'
      then some (shown_int (codes "%d") (tm.tm_year +ℤ pos 1900))
      else if c == b'y'
      then some (shown_int (codes "%02d") (rem_ℤ (tm.tm_year +ℤ pos 1900) 100))
      else none

  -- while (*sub && p < end), on the bytes already written.
  abbrev pub appended : ℕ → Bytes → Bytes → Bytes
  appended room text sub = text ++ take (room - length text) sub

  unfoldable pub substituted : ℕ → Bytes → (Bytes → Printed) → Printed → Printed
  substituted room text go refused = refused
  substituted room text go (printed sub) = go (appended room text sub)
  substituted room text go no_argument = no_argument
  substituted room text go past_end = past_end
  substituted room text go out_of_fuel = out_of_fuel

  -- The default case puts the byte out and goes on behind it, also where it is the NUL.
  unfoldable pub time_directive : ℕ → Bytes → Bytes → (Bytes → Printed) → Option Printed → Printed
  unfolding substituted
  time_directive room text [] go sub = past_end
  time_directive room text (c ∷ cs) go none = go (text ++ c ∷ [])
  time_directive room text (c ∷ cs) go (some sub) = substituted room text go sub

  -- while (*format && p < end): one unit of fuel is one round, `room` is max - 1.
  unfoldable pub strftime_loop : ℕ → Tm → ℕ → Bytes → Bytes → Printed
  unfolding sub_of time_directive
  strftime_loop zero tm room format text = out_of_fuel
  strftime_loop (suc f) tm room [] text = printed text
  strftime_loop (suc f) tm room (c ∷ cs) text =
      let plain = strftime_loop f tm room cs (text ++ c ∷ []) in
      let directed =
        time_directive room text cs (strftime_loop f tm room (rest_of cs)) (sub_of tm (first cs)) in
      if not (ltb (length text) room)
      then printed text
      else if not (c == b'%')
      then plain
      else directed

  -- `s`, `format` and `tm` are not null.
  unfoldable pub strftime : ℕ → ℕ → Bytes → Tm → Printed
  unfolding strftime_loop
  strftime fuel max format tm =
      if max == 0 then refused else strftime_loop fuel tm (max - 1) format []
