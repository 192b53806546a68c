-- ===== src/Compat/Glob/Expansion.antt =====
-- What a level of the walk of glob finds: paths that extend those of the level before by one component.
use c_lite.Base.{
  ℕ, zero, suc, ◌+◌, ◌≡◌, refl, Bool, true, false, not, ◌&&◌, ◌||◌, List, [], ◌∷◌, ◌++◌, Option,
  none, some, leb, ltb, if◌then◌else◌, length, arith,
}
use c_lite.Base.Int.{is_zero}
use c_lite.Text.{Bytes}
use c_lite.Syscall.{Os}
use c_lite.Syscall.Stat.{is_dir_mode}
use c_lite.Fnmatch.{fnmatch}
use c_lite.Dirent.{Entry, Dir, readdir}
use c_lite.Compat.Glob.{glob_has_meta, glob_unescape_to, glob_join, is_dots, with_slash}
use c_lite.Compat.Glob.Walk.{
  Vec, empty_vec, Status, going, nospace, out_of_fuel, is_going, Level, Job, is_match,
  fnmatch_flags, push_entry, entry_step, entries_from, entries_loop, scan_dir, meta_level,
  push_literal, literal_level, level,
}
use c_lite.Compat.Glob.Keeps.{
  Every, Keeps, pure-Keeps, if-Keeps, any-Keeps, then-Keeps, glob_vec_push-Keeps,
}

-- The names that a component stands for: a name that fnmatch accepts and that is not "." or "..", or the
-- component without its escapes.
pub data Accepts (l : Level) : Bytes → Type 0 where
  by_pattern :
      {name : Bytes}
      → glob_has_meta l.noescape l.comp ≡ true
      → is_dots name ≡ false
      → fnmatch (suc (length l.comp)) l.comp name (fnmatch_flags l) ≡ some true
      → Accepts l name
  by_text :
      {name : Bytes}
      → glob_has_meta l.noescape l.comp ≡ false
      → name ≡ glob_unescape_to l.noescape l.comp
      → Accepts l name

-- A path of the next level: a name behind the directory, which fits, and may have a slash behind it.
pub data Extends (l : Level) (dir : Bytes) : Bytes → Type 0 where
  plain : {name path : Bytes} → Accepts l name → glob_join dir name ≡ some path → Extends l dir path
  marked :
      {name path : Bytes}
      → Accepts l name
      → glob_join dir name ≡ some path
      → Extends l dir (path ++ b'/' ∷ [])

module _ (O : Os) (junk : ℕ → ℕ) (P : Bytes → Type 0) (l : Level) where
  -- A path that was joined may be kept, with a slash or without.
  abbrev Allows : Option Bytes → Type 0
  Allows o = (path : Bytes) → o ≡ some path → P path × P (path ++ b'/' ∷ [])

  marked-P :
      (b : Bool) (path : Bytes)
      → P path
      → P (path ++ b'/' ∷ [])
      → P (if b then with_slash path else path)
  marked-P false path h k = h
  marked-P true path h k = room (leb (length path + 2) 1024)
    where
      room : (c : Bool) → P (if c then path ++ b'/' ∷ [] else path)
      room true = k
      room false = h

  push_entry-Keeps :
      (next : Vec) (o : Option Bytes)
      → Every P next.v
      → Allows o
      → Keeps O junk P (push_entry O junk l next o)
  unfolding push_entry
  push_entry-Keeps next none h allows = pure-Keeps O junk P true next h
  push_entry-Keeps next (some joined) h allows =
      let (bare, slash) = allows joined refl in
      any-Keeps O junk P _ _ (λ wanted. any-Keeps O junk P _ _ (λ m.
        if-Keeps O junk P wanted _ _
          (λ _.
            glob_vec_push-Keeps O junk P next (if m then with_slash joined else joined) h
              (marked-P m joined bare slash))
          (λ _. pure-Keeps O junk P true next h)))

  -- Every path behind `dir` may be kept.
  abbrev pub AllowsBehind : Bytes → Type 0
  AllowsBehind dir = (path : Bytes) → Extends l dir path → P path

  allowed : (dir name : Bytes) → Accepts l name → AllowsBehind dir → Allows (glob_join dir name)
  allowed dir name accepted behind path e =
      (behind path (plain accepted e), behind (path ++ b'/' ∷ []) (marked accepted e))

  module _ (dir : Bytes) (behind : AllowsBehind dir) where
    entry_step-Keeps :
        (name : Bytes) (next : Vec)
        → glob_has_meta l.noescape l.comp ≡ true
        → Every P next.v
        → Keeps O junk P (entry_step O junk l dir name next)
    unfolding entry_step
    entry_step-Keeps name next pattern h =
        if-Keeps O junk P (is_dots name) _ _ (λ _. pure-Keeps O junk P true next h)
          (λ named.
            if-Keeps O junk P
              (not (is_match (fnmatch (suc (length l.comp)) l.comp name (fnmatch_flags l)))) _ _
              (λ _. pure-Keeps O junk P true next h)
              (λ hit.
                push_entry-Keeps next (glob_join dir name) h
                  (allowed dir name (by_pattern pattern named (matched _ hit)) behind)))
      where
        matched : (o : Option Bool) → not (is_match o) ≡ false → o ≡ some true
        matched none e = absurd (ground arith)
        matched (some true) e = refl
        matched (some false) e = absurd (ground arith)

    entries_from-Keeps :
        (next : Vec) (go : Dir → Vec → Job O junk (Status × Vec)) (o : Option (Option Entry × Dir))
        → glob_has_meta l.noescape l.comp ≡ true
        → Every P next.v
        → ((d : Dir) (sv : Vec) → Every P sv.v → Keeps O junk P (go d sv))
        → Keeps O junk P (entries_from O junk l dir next go o)
    unfolding entries_from
    entries_from-Keeps next go none pattern h later = pure-Keeps O junk P out_of_fuel next h
    entries_from-Keeps next go (some (none, d)) pattern h later = pure-Keeps O junk P going next h
    entries_from-Keeps next go (some (some e, d)) pattern h later =
        then-Keeps O junk P _ _ (entry_step-Keeps e.d_name next pattern h) (λ r kept.
          if-Keeps O junk P r.0 _ _ (λ _. later d r.1 kept)
            (λ _. pure-Keeps O junk P nospace r.1 kept))

    entries_loop-Keeps :
        (f : ℕ) (d : Dir) (next : Vec)
        → glob_has_meta l.noescape l.comp ≡ true
        → Every P next.v
        → Keeps O junk P (entries_loop O junk f l dir d next)
    unfolding entries_loop
    entries_loop-Keeps zero d next pattern h = pure-Keeps O junk P out_of_fuel next h
    entries_loop-Keeps (suc f) d next pattern h =
        entries_from-Keeps next (entries_loop O junk f l dir) (readdir f d) pattern h
          (λ d' sv. entries_loop-Keeps f d' sv pattern)

    scan_dir-Keeps :
        (f : ℕ) (next : Vec) (o : Option Dir)
        → glob_has_meta l.noescape l.comp ≡ true
        → Every P next.v
        → Keeps O junk P (scan_dir O junk f l dir next o)
    unfolding scan_dir
    scan_dir-Keeps f next none pattern h = pure-Keeps O junk P going next h
    scan_dir-Keeps f next (some d) pattern h =
        then-Keeps O junk P _ _ (entries_loop-Keeps f d next pattern h)
          (λ r kept. any-Keeps O junk P _ _ (λ _. pure-Keeps O junk P r.0 r.1 kept))

    push_literal-Keeps :
        (next : Vec) (o : Option Bytes)
        → Every P next.v
        → Allows o
        → Keeps O junk P (push_literal O junk l next o)
    unfolding push_literal
    push_literal-Keeps next none h allows = pure-Keeps O junk P true next h
    push_literal-Keeps next (some joined) h allows =
        let (bare, slash) = allows joined refl in
        let same = pure-Keeps O junk P true next h in
        let kept = glob_vec_push-Keeps O junk P next joined h bare in
        if-Keeps O junk P (not l.last) _ _
          (λ _.
            any-Keeps O junk P _ _ (λ found. if-Keeps O junk P found _ _ (λ _. kept) (λ _. same)))
          (λ _. any-Keeps O junk P _ _ (λ st.
            if-Keeps O junk P
              (not (is_zero st.ret) || (l.directories && not (is_dir_mode st.filled))) _ _
              (λ _. same)
              (λ _.
                if-Keeps O junk P (not (l.markdirs && is_dir_mode st.filled)) _ _ (λ _. kept)
                  (λ _.
                    if-Keeps O junk P (ltb 1024 (length joined + 2)) _ _ (λ _. same)
                      (λ _. glob_vec_push-Keeps O junk P next _ h slash)))))

  meta_level-Keeps :
      (f : ℕ) (dirs : List Bytes) (next : Vec)
      → glob_has_meta l.noescape l.comp ≡ true
      → Every AllowsBehind dirs
      → Every P next.v
      → Keeps O junk P (meta_level O junk f l dirs next)
  unfolding meta_level
  meta_level-Keeps f [] next pattern behind h = pure-Keeps O junk P going next h
  meta_level-Keeps f (dir ∷ dirs) next pattern (b, behind) h = any-Keeps O junk P _ _ (λ granted.
      any-Keeps O junk P _ _ (λ block. any-Keeps O junk P _ _ (λ dp.
        then-Keeps O junk P _ _ (scan_dir-Keeps dir b f next dp pattern h) (λ r kept.
          if-Keeps O junk P (is_going r.0) _ _
            (λ _. meta_level-Keeps f dirs r.1 pattern behind kept)
            (λ _. pure-Keeps O junk P r.0 r.1 kept)))))

  literal_level-Keeps :
      (dirs : List Bytes) (next : Vec)
      → glob_has_meta l.noescape l.comp ≡ false
      → Every AllowsBehind dirs
      → Every P next.v
      → Keeps O junk P (literal_level O junk l dirs next)
  unfolding literal_level
  literal_level-Keeps [] next text behind h = pure-Keeps O junk P going next h
  literal_level-Keeps (dir ∷ dirs) next text (b, behind) h =
      then-Keeps O junk P _ _
        (push_literal-Keeps dir b next _ h
          (allowed dir (glob_unescape_to l.noescape l.comp) (by_text text refl) b))
        (λ r kept.
          if-Keeps O junk P r.0 _ _ (λ _. literal_level-Keeps dirs r.1 text behind kept)
            (λ _. pure-Keeps O junk P nospace r.1 kept))

  -- A level finds paths behind the directories that it is given.
  pub level-Keeps :
      (f : ℕ) (dirs : List Bytes) → Every AllowsBehind dirs → Keeps O junk P (level O junk f l dirs)
  unfolding level
  level-Keeps f dirs behind =
      if-Keeps O junk P (glob_has_meta l.noescape l.comp) _ _
        (λ pattern. meta_level-Keeps f dirs empty_vec pattern behind tt)
        (λ text. literal_level-Keeps dirs empty_vec text behind tt)
