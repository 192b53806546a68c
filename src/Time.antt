-- ===== src/Time.antt =====
-- src/time.c: the clock that stands still. strftime is in Format.
pub mod Format
pub mod Ends
use c_lite.Base.{
  ℕ, zero, suc, ◌+◌, ◌-◌, ◌%◌, ◌^◌, Bool, true, false, not, ◌&&◌, ◌||◌, List, [], ◌∷◌, ◌++◌, Option,
  none, some, ltb, ◌==◌, if◌then◌else◌, length, take, get_or,
}
use c_lite.Base.Int.{ℤ, pos, negsuc, ◌+ℤ◌, is_zero, is_neg, ltb_ℤ}
use c_lite.Text.{Bytes, codes, first, rest_of}
use c_lite.Stdio.Format.Double.{Doubles}
use c_lite.Stdio.Format.Print.{
  Printed, refused, printed, no_argument, past_end, out_of_fuel, word, snprintf,
}

-- struct tm
pub record Tm : Type 0 where
  pub tm_sec : ℤ
  pub tm_min : ℤ
  pub tm_hour : ℤ
  pub tm_mday : ℤ
  pub tm_mon : ℤ
  pub tm_year : ℤ
  pub tm_wday : ℤ
  pub tm_yday : ℤ
  pub tm_isdst : ℤ

-- What is returned; it is also written to `*tloc`, where that is not null.
unfoldable pub time : ℤ
time = pos 0

-- The seconds and microseconds at `tv`, where it is not null.
unfoldable pub gettimeofday : ℤ × ℤ
gettimeofday = (pos 0, pos 0)

unfoldable pub nanosleep : ℤ × ℤ → ℤ
nanosleep req = pos 0

unfoldable pub sleep : ℕ → ℕ
unfolding nanosleep
sleep seconds = let r = nanosleep (pos seconds, pos 0) in 0

-- `none` for a null pointer `result`.
unfoldable pub gmtime_r : ℤ → Option Tm → Option Tm
gmtime_r t none = none
gmtime_r t (some result) = some (record {
  tm_sec = pos 0;
  tm_min = pos 0;
  tm_hour = pos 0;
  tm_mday = pos 1;
  tm_mon = pos 0;
  tm_year = pos 70;
  tm_wday = pos 4;
  tm_yday = pos 0;
  tm_isdst = pos 0;
})

unfoldable pub localtime_r : ℤ → Option Tm → Option Tm
unfolding gmtime_r
localtime_r t result = gmtime_r t result

unfoldable pub gmtime : ℤ → Tm → Option Tm
unfolding gmtime_r
gmtime t static_tm = gmtime_r t (some static_tm)

unfoldable pub localtime : ℤ → Tm → Option Tm
unfolding gmtime_r
localtime t static_tm = gmtime_r t (some static_tm)

unfoldable pub ctime : ℤ → Bytes
ctime t = codes "Thu Jan  1 00:00:00 1970\n"

unfoldable pub mktime : Tm → ℤ
mktime tm = pos 0

unfoldable pub clock : ℤ
clock = pos 0
