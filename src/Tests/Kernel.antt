-- ===== src/Tests/Kernel.antt =====
-- Runs of the system call wrappers.
use c_lite.Base.{ℕ, zero, suc, ◌≡◌, refl, [], ◌∷◌, some, arith}
use c_lite.Base.Int.{pos, negsuc}
use c_lite.Text.{has}
use c_lite.Stdlib.Env.{Environ, matches, getenv}
use c_lite.Syscall.{Os, World, Reply}
use c_lite.Syscall.Exec.{execvp, path_of, path_name}
use c_lite.Syscall.Exec.Search.{dirs, candidates, run_first, execvp-run_first}

-- A kernel that counts its calls and answers the first with -2 and the others with 0.
abbrev answer_of : ℕ → Reply
answer_of zero = record { ret = negsuc 1; filled = [] }
answer_of (suc n) = record { ret = pos 0; filled = [] }

abbrev counting : Os
counting = record { State = ℕ; answer = λ number args n. (answer_of n, suc n) }

abbrev fresh_world : World counting
fresh_world = record { os = 0; errno = 0 }

-- PATH=a::b
abbrev search_path : Environ
search_path = some ((b'P' ∷ b'A' ∷ b'T' ∷ b'H' ∷ b'=' ∷ b'a' ∷ b':' ∷ b':' ∷ b'b' ∷ []) ∷ [])

execvp-run_first_example :
    let paths =
      candidates (b'l' ∷ b's' ∷ []) (dirs (path_of (getenv search_path (some path_name)))) in
    let r = run_first counting search_path [] paths fresh_world in
    execvp counting 99 search_path (some (b'l' ∷ b's' ∷ [])) [] fresh_world ≡ (some r.0, r.1)
unfolding matches
execvp-run_first_example =
    execvp-run_first counting 99 search_path b'l' (b's' ∷ []) [] fresh_world (unfold has in refl)
      (unfold getenv in omega arith)
