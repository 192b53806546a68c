-- ===== src/Compat/Glob/Ends.antt =====
-- The walk of glob ends: how its jobs end where the kernel fills directories in order.
use c_lite.Base.{
  ℕ, zero, suc, ◌+◌, ◌<◌, ◌≤◌, ◌≡◌, refl, Bool, true, false, not, ◌||◌, List, [], ◌∷◌, Option, none,
  some, leb, ◌==◌, leb→le, if◌then◌else◌, length, arith,
}
use c_lite.Text.{Bytes}
use c_lite.Syscall.{Os}
use c_lite.Dirent.{Entry, Dir, opendir, readdir}
use c_lite.Dirent.Steady.{
  IsOrderly, Advanced, readdir-Advanced, IsOrderlyKernel, IsOpened, opendir-IsOpened,
}
use c_lite.Compat.Glob.{glob_has_meta, glob_unescape_to, components}
use c_lite.Compat.Glob.Walk.{
  Vec, empty_vec, Status, going, nospace, overrun, out_of_fuel, is_going, Level, Work, Job, ◌>>=◌,
  pure, run, entries_from, entries_loop, scan_dir, dir_or_dot, meta_level, literal_level, level,
}
use c_lite.Compat.Glob.Call.{GlobFlags, level_of, status_of, levels_loop, expand, found_paths}

-- There was fuel, and a buffer is overrun by a text of `len` bytes only where it is too long.
unfoldable pub IsFine : ℕ → Status → Type 0
IsFine len going = Unit
IsFine len nospace = Unit
IsFine len overrun = 1024 ≤ len
IsFine len out_of_fuel = ⊥

module _ (O : Os) (junk : ℕ → ℕ) (len : ℕ) where
  unfoldable pub Fine : Job O junk (Status × Vec) → Type 0
  Fine m = (w : Work O junk) → IsFine len (m w).0.0

  pub pure-Fine : (st : Status) (sv : Vec) → IsFine len st → Fine (pure (st, sv))
  unfolding Fine pure
  pure-Fine st sv h w = h

  going-Fine : (sv : Vec) → Fine (pure (going, sv))
  unfolding Fine pure IsFine
  going-Fine sv w = tt

  nospace-Fine : (sv : Vec) → Fine (pure (nospace, sv))
  unfolding Fine pure IsFine
  nospace-Fine sv w = tt

  status_of-Fine : (b : Bool) (sv : Vec) → Fine (pure (status_of b, sv))
  status_of-Fine true sv = going-Fine sv
  status_of-Fine false sv = nospace-Fine sv

  if-Fine :
      (c : Bool) (m n : Job O junk (Status × Vec))
      → (c ≡ true → Fine m)
      → (c ≡ false → Fine n)
      → Fine (if c then m else n)
  if-Fine true m n h k = h refl
  if-Fine false m n h k = k refl

  any-Fine :
      {A : Type 0} (m : Job O junk A) (f : A → Job O junk (Status × Vec))
      → ((a : A) → Fine (f a))
      → Fine (do a ← m; f a)
  unfolding Fine ◌>>=◌
  any-Fine m f h w = h (m w).0 (m w).1

  then-Fine :
      (m : Job O junk (Status × Vec)) (f : Status × Vec → Job O junk (Status × Vec))
      → Fine m
      → ((r : Status × Vec) → IsFine len r.0 → Fine (f r))
      → Fine (do r ← m; f r)
  unfolding Fine ◌>>=◌
  then-Fine m f k h w = h (m w).0 (k w) (m w).1

  module _ (l : Level) (dir : Bytes) where
    entries_from-Fine :
        (f : ℕ) (d : Dir) (next : Vec) (o : Option (Option Entry × Dir))
        → Advanced d o
        → d.buflen + 1 < d.index + suc f
        → ((d' : Dir) (sv : Vec)
            → IsOrderly d'
            → 1 < f
            → d'.buflen + 1 < d'.index + f
            → Fine (entries_loop O junk f l dir d' sv))
        → Fine (entries_from O junk l dir next (entries_loop O junk f l dir) o)
    unfolding entries_from Advanced
    entries_from-Fine f d next none h enough later = absurd h
    entries_from-Fine f d next (some (none, d')) h enough later = going-Fine next
    entries_from-Fine f d next (some (some e, d')) (inside, further, same, orderly) enough later =
        any-Fine _ _ (λ r.
          if-Fine r.0 _ _ (λ _. later d' r.1 orderly (omega arith) (omega arith))
            (λ _. nospace-Fine r.1))

    entries_loop-Fine :
        (f : ℕ) (d : Dir) (next : Vec)
        → IsOrderly d
        → 1 < f
        → d.buflen + 1 < d.index + f
        → Fine (entries_loop O junk f l dir d next)
    unfolding entries_loop
    entries_loop-Fine zero d next h some_fuel enough = absurd (omega arith)
    entries_loop-Fine (suc f) d next h some_fuel enough =
        entries_from-Fine f d next (readdir f d)
          (readdir-Advanced f d h (omega arith) (omega arith)) enough
          (λ d' sv. entries_loop-Fine f d' sv)

    scan_dir-Fine :
        (f : ℕ) (next : Vec) (o : Option Dir)
        → IsOpened O junk o
        → 4098 ≤ f
        → Fine (scan_dir O junk f l dir next o)
    unfolding scan_dir IsOpened
    scan_dir-Fine f next none h enough = going-Fine next
    scan_dir-Fine f next (some d) (h, start) enough =
        let fit = h.fit in
        then-Fine _ _ (entries_loop-Fine f d next h (omega arith) (omega arith))
          (λ r fine. any-Fine _ _ (λ _. pure-Fine r.0 r.1 fine))

  opened-Fine :
      (granted b : Bool) (name : Bytes) (f : Option Dir → Job O junk (Status × Vec))
      → IsOrderlyKernel O junk
      → ((o : Option Dir) → IsOpened O junk o → Fine (f o))
      → Fine (do o ← run (opendir O granted (if b then some junk else none) (some name)); f o)
  unfolding Fine ◌>>=◌ run
  opened-Fine granted b name f orderly h w =
      h _ (opendir-IsOpened O junk granted b name w.world orderly) _

  module _ (orderly : IsOrderlyKernel O junk) (f : ℕ) (enough : 4098 ≤ f) where
    meta_level-Fine :
        (l : Level) (dirs : List Bytes) (next : Vec) → Fine (meta_level O junk f l dirs next)
    unfolding meta_level
    meta_level-Fine l [] next = going-Fine next
    meta_level-Fine l (dir ∷ dirs) next = any-Fine _ _ (λ granted. any-Fine _ _ (λ block.
        opened-Fine granted block (dir_or_dot dir) _ orderly (λ dp opened.
          then-Fine _ _ (scan_dir-Fine l dir f next dp opened enough) (λ r fine.
            if-Fine (is_going r.0) _ _ (λ _. meta_level-Fine l dirs r.1)
              (λ _. pure-Fine r.0 r.1 fine)))))

    literal_level-Fine :
        (l : Level) (dirs : List Bytes) (next : Vec) → Fine (literal_level O junk l dirs next)
    unfolding literal_level
    literal_level-Fine l [] next = going-Fine next
    literal_level-Fine l (dir ∷ dirs) next =
        any-Fine _ _
          (λ r. if-Fine r.0 _ _ (λ _. literal_level-Fine l dirs r.1) (λ _. nospace-Fine r.1))

    level-Fine : (l : Level) (dirs : List Bytes) → Fine (level O junk f l dirs)
    unfolding level
    level-Fine l dirs =
        if-Fine (glob_has_meta l.noescape l.comp) _ _ (λ _. meta_level-Fine l dirs empty_vec)
          (λ _. literal_level-Fine l dirs empty_vec)

    levels_loop-Fine :
        (fl : GlobFlags) (pattern : Bytes) (cs : List Bytes) (cur : Vec)
        → Fine (levels_loop O junk f fl pattern cs cur)
    unfolding levels_loop
    levels_loop-Fine fl pattern [] cur = going-Fine cur
    levels_loop-Fine fl pattern (c ∷ cs) cur =
        if-Fine (length c == 0) _ _ (λ _. levels_loop-Fine fl pattern cs cur)
          (λ _. then-Fine _ _ (level-Fine (level_of fl pattern c cs) cur.v) (λ r fine.
            if-Fine (length r.1.v == 0 || not (is_going r.0)) _ _ (λ _. pure-Fine r.0 r.1 fine)
              (λ _. levels_loop-Fine fl pattern cs r.1)))

    expand-Fine :
        (fl : GlobFlags) (pattern : Bytes) (out : Vec) → Fine (expand O junk f fl pattern out)
    unfolding expand
    expand-Fine fl pattern out =
        if-Fine (leb 1024 (length pattern)) _ _ (λ _. going-Fine out)
          (λ _. any-Fine _ _ (λ root.
            if-Fine (not root.0) _ _ (λ _. nospace-Fine out)
              (λ _.
                then-Fine _ _ (levels_loop-Fine fl pattern (components fl.noescape pattern) root.1)
                  (λ r fine.
                    if-Fine (not (is_going r.0)) _ _ (λ _. pure-Fine r.0 out fine)
                      (λ _. any-Fine _ _ (λ pushed. status_of-Fine pushed.0 pushed.1))))))

    -- With fuel for the 4096 bytes that a directory fills, the paths are found.
    pub found_paths-Fine :
        (fl : GlobFlags) (pattern : Bytes) (out : Vec)
        → length (glob_unescape_to fl.noescape pattern) ≡ len
        → Fine (found_paths O junk f fl pattern out)
    unfolding found_paths
    found_paths-Fine fl pattern out same =
        if-Fine (glob_has_meta fl.noescape pattern) _ _ (λ _. expand-Fine fl pattern out)
          (λ _.
            if-Fine (leb 1024 (length (glob_unescape_to fl.noescape pattern))) _ _
              (λ long.
                pure-Fine overrun out (unfold IsFine in omega (arith, same, leb→le _ _ long)))
              (λ _. any-Fine _ _ (λ pushed. status_of-Fine pushed.0 pushed.1)))
