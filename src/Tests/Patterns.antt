-- ===== src/Tests/Patterns.antt =====
-- Runs of fnmatch.
use c_lite.Base.{◌≡◌, refl, ◌↔◌, Bool, true, [], ◌∷◌, some, arith}
use c_lite.Text.{Bytes}
use c_lite.Fnmatch.{Flags, fnmatch}
use c_lite.Fnmatch.Wildcards.{no_flags, Matches}
use c_lite.Fnmatch.Decides.{fnmatch-Matches}
use c_lite.Fnmatch.Literal.{IsAscii, fnmatch-IsPlain}

abbrev text : Bytes
text = b'a' ∷ 200 ∷ []

fnmatch-IsPlain_example :
    (r : Bool) × (fnmatch 3 text text no_flags ≡ some r)
    × ((r ≡ true) ↔ ((text ≡ text) × IsAscii text))
fnmatch-IsPlain_example =
    fnmatch-IsPlain text text 3 no_flags
      (
        omega arith,
        omega arith,
        omega arith,
        omega arith,
        omega arith,
        (omega arith, omega arith, omega arith, omega arith, omega arith, tt),
      )
      (omega arith, (omega arith, tt)) (omega arith)

-- "*[b]?" on "xbc"
abbrev wildcards : Bytes
wildcards = b'*' ∷ b'[' ∷ b'b' ∷ b']' ∷ b'?' ∷ []

abbrev subject : Bytes
subject = b'x' ∷ b'b' ∷ b'c' ∷ []

fnmatch-Matches_example :
    (r : Bool) × (fnmatch 6 wildcards subject no_flags ≡ some r)
    × ((r ≡ true) ↔ Matches wildcards subject)
fnmatch-Matches_example =
    fnmatch-Matches wildcards subject 6
      (omega arith, (omega arith, (omega arith, (omega arith, (omega arith, tt)))))
      (omega arith, (omega arith, (omega arith, tt))) (omega arith)

fnmatch_run : fnmatch 6 wildcards subject no_flags ≡ some true
unfolding fnmatch
fnmatch_run = refl

abbrev all_flags : Flags
all_flags = record { pathname = true; noescape = true; period = true }
