-- ===== src/Tests/Options.antt =====
-- A run of getopt.
use c_lite.Base.{refl, inl, List, [], ◌∷◌, none}
use c_lite.Base.Int.{pos}
use c_lite.Text.{Bytes, has}
use c_lite.Getopt.{Options, getopt}
use c_lite.Getopt.Progress.{left_of, IsReady, Goes, getopt-Goes}
use c_lite.Getopt.Words.{AreStrings}

-- ls -ab x
abbrev words : List Bytes
words = (b'l' ∷ b's' ∷ []) ∷ (b'-' ∷ b'a' ∷ b'b' ∷ []) ∷ (b'x' ∷ []) ∷ []

abbrev started : Options
started = record { optarg = none; optind = pos 1; optopt = pos b'?'; optpos = 1 }

words-AreStrings : AreStrings words
unfolding AreStrings has
words-AreStrings = (refl, (refl, (refl, tt)))

started-IsReady : IsReady words started
unfolding IsReady
started-IsReady = inl refl

getopt-Goes_example :
    Goes words (left_of words started) (getopt words (b'a' ∷ b'b' ∷ b':' ∷ []) started)
getopt-Goes_example =
    getopt-Goes words (b'a' ∷ b'b' ∷ b':' ∷ []) started words-AreStrings started-IsReady
