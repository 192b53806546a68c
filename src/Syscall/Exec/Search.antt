-- ===== src/Syscall/Exec/Search.antt =====
-- execvp tries the directories of PATH in their order.
use c_lite.Base.{
  ℕ, zero, suc, ◌≤◌, ◌<◌, ◌≡◌, refl, ◌∙◌, ap, inl, inr, true, false, ltb, ◌+◌, List, [], ◌∷◌, ◌++◌,
  Option, none, some, ◌==◌, if◌then◌else◌, length, arith, Bool-cases,
}
use c_lite.Base.Int.{ℤ, is_zero}
use c_lite.Text.{Bytes, has, rest_of}
use c_lite.Stdlib.Env.{Environ, getenv}
use c_lite.Syscall.{Os, World, Sys, fail, minus_one, execve}
use c_lite.Syscall.Files.{access}
use c_lite.Syscall.Numbers.{enoent}
use c_lite.Syscall.Exec.{
  candidate, fits_buffer, entry, end_of_entry, try_entry, path_loop, path_of, path_name, execvp,
}

-- Put a byte in front of the first directory.
abbrev pub onto_first : ℕ → List Bytes → List Bytes
onto_first c [] = (c ∷ []) ∷ []
onto_first c (d ∷ ds) = (c ∷ d) ∷ ds

-- The directories of a path, each ended by a colon or the end of the path.
unfoldable pub dirs : Bytes → List Bytes
dirs [] = []
dirs (c ∷ cs) = if c == b':' then [] ∷ dirs cs else onto_first c (dirs cs)

-- The files to look for: the name in each directory, "./" for an empty one. A directory is passed over
-- where its name, the file's, a slash and a NUL need all of 256 bytes, or more.
unfoldable pub candidates : Bytes → List Bytes → List Bytes
candidates file [] = []
candidates file ([] ∷ ds) =
    if ltb (length file + 2) 256
    then (b'.' ∷ b'/' ∷ file) ∷ candidates file ds
    else candidates file ds
candidates file ((c ∷ cs) ∷ ds) =
    if ltb (length (c ∷ cs) + 1 + length file + 1) 256
    then ((c ∷ cs) ++ b'/' ∷ file) ∷ candidates file ds
    else candidates file ds

-- The first of the files that access finds is run, and nothing is tried behind it. Where access
-- finds none, the search fails with ENOENT.
unfoldable pub run_first : (O : Os) → Environ → List Bytes → List Bytes → Sys O ℤ
run_first O environ argv [] w = fail enoent minus_one w
run_first O environ argv (path ∷ paths) w =
    let (found, w') = access O (some path) 0 w in
    if is_zero found then execve O path argv environ w' else run_first O environ argv paths w'

dirs-entry :
    (c : ℕ) (cs : Bytes) → dirs (c ∷ cs) ≡ entry (c ∷ cs) ∷ dirs (rest_of (end_of_entry (c ∷ cs)))
unfolding dirs entry end_of_entry
dirs-entry c [] = elim (Bool-cases (c == b':')) [
  | inl colon ↦ rw colon refl
  | inr other ↦ rw other refl
]
dirs-entry c (d ∷ cs) = elim (Bool-cases (c == b':')) [
  | inl colon ↦ rw colon refl
  | inr other ↦ rw other (ap (onto_first c) (dirs-entry d cs))
]

end_of_entry-le : (cs : Bytes) → length (rest_of (end_of_entry cs)) ≤ length (rest_of cs)
unfolding end_of_entry
end_of_entry-le [] = omega arith
end_of_entry-le (c ∷ cs) = elim (Bool-cases (c == b':')) [
  | inl colon ↦ rw colon (omega arith)
  | inr other ↦ rw other (omega (arith, end_of_entry-le cs, rest_le cs))
]
  where
    rest_le : (cs : Bytes) → length (rest_of cs) ≤ length cs
    rest_le [] = omega arith
    rest_le (c ∷ cs) = omega arith

same_size_nil : (file : Bytes) → ltb (length file + 2) 256 ≡ fits_buffer [] file
same_size_nil file = ap (λ n. ltb n 256) (omega arith)

same_size :
    (c : ℕ) (cs file : Bytes)
    → ltb (length (c ∷ cs) + 1 + length file + 1) 256 ≡ fits_buffer (c ∷ cs) file
same_size c cs file = ap (λ n. ltb n 256) (omega arith)

candidates-passed :
    (d : Bytes) (file : Bytes) (ds : List Bytes)
    → fits_buffer d file ≡ false
    → candidates file (d ∷ ds) ≡ candidates file ds
unfolding candidates
candidates-passed [] file ds e = rw (same_size_nil file ∙ e) refl
candidates-passed (c ∷ cs) file ds e = rw (same_size c cs file ∙ e) refl

-- The next file to look for, where the first directory fits into the buffer and where it does not.
candidates-fits :
    (d : Bytes) (file : Bytes) (ds : List Bytes)
    → fits_buffer d file ≡ true
    → candidates file (d ∷ ds) ≡ candidate d file ∷ candidates file ds
unfolding candidates candidate
candidates-fits [] file ds e = rw (same_size_nil file ∙ e) refl
candidates-fits (c ∷ cs) file ds e = rw (same_size c cs file ∙ e) refl

module _ (O : Os) (environ : Environ) (file : Bytes) (argv : List Bytes) where
  -- A round of the loop in which the directory does not fit, and one in which it does.
  passed_over :
      (d : Bytes) (w : World O)
      → fits_buffer d file ≡ false
      → try_entry O environ file argv d w ≡ (none, w)
  unfolding try_entry
  passed_over d w e = rw e refl

  missed :
      (d : Bytes) (w : World O)
      → fits_buffer d file ≡ true
      → is_zero (access O (some (candidate d file)) 0 w).0 ≡ false
      → try_entry O environ file argv d w ≡ (none, (access O (some (candidate d file)) 0 w).1)
  unfolding try_entry
  missed d w e absent = rw (e, absent) refl

  found :
      (d : Bytes) (w : World O)
      → fits_buffer d file ≡ true
      → is_zero (access O (some (candidate d file)) 0 w).0 ≡ true
      → let (ret, w') =
          execve O (candidate d file) argv environ (access O (some (candidate d file)) 0 w).1 in
        try_entry O environ file argv d w ≡ (some ret, w')
  unfolding try_entry
  found d w e present = rw (e, present) refl

  -- What a round gives, and the loop behind it.
  abbrev step : (World O → Option ℤ × World O) → Option ℤ × World O → Option ℤ × World O
  step later t = elim t.0 [ none ↦ later t.1 | some r ↦ (some r, t.1) ]

  round :
      (d : Bytes) (ds : List Bytes) (w : World O) (later : World O → Option ℤ × World O)
      → ((w' : World O)
          → let r = run_first O environ argv (candidates file ds) w' in later w' ≡ (some r.0, r.1))
      → let r = run_first O environ argv (candidates file (d ∷ ds)) w in
        step later (try_entry O environ file argv d w) ≡ (some r.0, r.1)
  unfolding run_first
  round d ds w later goes = elim (Bool-cases (fits_buffer d file)) [
    | inr long ↦
        ap (step later) (passed_over d w long) ∙ rw (candidates-passed d file ds long) (goes w)
    | inl fits ↦ elim (Bool-cases (is_zero (access O (some (candidate d file)) 0 w).0)) [
      | inr absent ↦
          ap (step later) (missed d w fits absent)
          ∙ rw (candidates-fits d file ds fits, absent)
              (goes (access O (some (candidate d file)) 0 w).1)
      | inl present ↦
          ap (step later) (found d w fits present)
          ∙ rw (candidates-fits d file ds fits, present) refl
    ]
  ]

  path_loop-run_first :
      (f : ℕ) (p : Bytes) (w : World O)
      → length p < f
      → let r = run_first O environ argv (candidates file (dirs p)) w in
        path_loop O f environ file argv p w ≡ (some r.0, r.1)
  unfolding path_loop
  path_loop-run_first zero p w enough = absurd (omega arith)
  path_loop-run_first (suc f) [] w enough = unfold dirs candidates run_first in refl
  path_loop-run_first (suc f) (c ∷ cs) w enough = rw (dirs-entry c cs) (
      round (entry (c ∷ cs)) (dirs (rest_of (end_of_entry (c ∷ cs)))) w
        (path_loop O f environ file argv (rest_of (end_of_entry (c ∷ cs))))
        (λ w'.
          path_loop-run_first f (rest_of (end_of_entry (c ∷ cs))) w'
            (omega (arith, end_of_entry-le (c ∷ cs)))))

module _ (O : Os) where
  -- A name without a slash: with more fuel than the path has bytes, execvp ends. It asks access for
  -- the name in each directory of PATH, or of the default path, in their order, an empty directory
  -- standing for "./". A directory is passed over where the two names, the slash and the NUL need
  -- 256 bytes or more ("./" and a name of more than 253 bytes likewise). The first file that access
  -- finds is run, and what execve returns is the result. Where it finds none, execvp fails with ENOENT.
  pub execvp-run_first :
      (fuel : ℕ) (environ : Environ) (c : ℕ) (cs : Bytes) (argv : List Bytes) (w : World O)
      → has b'/' (c ∷ cs) ≡ false
      → length (path_of (getenv environ (some path_name))) < fuel
      → let paths = candidates (c ∷ cs) (dirs (path_of (getenv environ (some path_name)))) in
        let r = run_first O environ argv paths w in
        execvp O fuel environ (some (c ∷ cs)) argv w ≡ (some r.0, r.1)
  unfolding execvp
  execvp-run_first fuel environ c cs argv w plain enough = rw plain (
      path_loop-run_first O environ (c ∷ cs) argv fuel (path_of (getenv environ (some path_name))) w
        enough)
