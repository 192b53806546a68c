-- ===== src/Tests/Globbing.antt =====
-- Runs of glob over a directory with one entry.
use c_lite.Base.{ℕ, ◌≡◌, refl, [], ◌∷◌, some, true, false, none, ◌==◌, if◌then◌else◌, arith}
use c_lite.Base.Int.{pos}
use c_lite.Text.{Bytes}
use c_lite.Syscall.{Os, Reply, World}
use c_lite.Syscall.Numbers.{sys_getdents}
use c_lite.Dirent.{uint_at, name_at}
use c_lite.Compat.Glob.Walk.{Work, ◌>>=◌, pure, run}
use c_lite.Compat.Glob.Quote.{quote, glob-quote}
use c_lite.Compat.Glob.Call.{GlobFlags, Glob, returned, glob}

-- The record of a file whose name is not ASCII.
abbrev one_record : Bytes
one_record = 1 ∷ 0 ∷ 0 ∷ 0 ∷ 16 ∷ 0 ∷ 0 ∷ 0 ∷ 195 ∷ b'b' ∷ 0 ∷ []

abbrev clear : ℕ → ℕ
clear i = 0

abbrev reply_to : ℕ → Reply
reply_to number =
    if number == sys_getdents
    then record { ret = pos 16; filled = one_record }
    else record { ret = pos 0; filled = [] }

abbrev one_entry : Os
one_entry = record { State = Unit; answer = λ number args s. (reply_to number, s) }

abbrev plain_flags : GlobFlags
plain_flags = record {
  mark = false;
  nocheck = false;
  append = false;
  noescape = false;
  period = false;
  onlydir = false;
}

abbrev no_glob : Glob
no_glob = record { gl_pathc = 0; gl_pathv = none; gl_offs = 0 }

abbrev granted : Work one_entry clear
granted = record {
  world = record { os = tt; errno = 0 };
  grants = true ∷ true ∷ true ∷ true ∷ true ∷ true ∷ true ∷ true ∷ true ∷ [];
}

-- "?b"
abbrev one_pattern : Bytes
one_pattern = b'?' ∷ b'b' ∷ []

-- "a*", escaped.
abbrev starred : Bytes
starred = b'a' ∷ b'*' ∷ []

abbrev quiet : World one_entry
quiet = record { os = tt; errno = 0 }

glob-quote_example :
    glob one_entry clear 0
      (some (quote starred))
      plain_flags
      no_glob
      (record { world = quiet; grants = true ∷ true ∷ true ∷ [] })
    ≡ (
      returned 0 (record { gl_pathc = 1; gl_pathv = some (starred ∷ []); gl_offs = 0 }),
      record { world = quiet; grants = [] },
    )
glob-quote_example =
    glob-quote one_entry clear 0 starred plain_flags no_glob quiet []
      (omega arith, (omega arith, tt)) (omega arith) refl refl

-- "?b/" finds the file without asking whether it is a directory.
glob_run :
    (glob one_entry clear 4098 (some (b'?' ∷ b'b' ∷ b'/' ∷ [])) plain_flags no_glob granted).0
    ≡ returned 0 (record { gl_pathc = 1; gl_pathv = some ((195 ∷ b'b' ∷ []) ∷ []); gl_offs = 0 })
unfolding glob ◌>>=◌ pure run uint_at name_at
glob_run = refl
