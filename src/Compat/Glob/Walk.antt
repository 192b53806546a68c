-- ===== src/Compat/Glob/Walk.antt =====
-- The walk of glob of src/compat.c through the directories, one component after another. The answers
-- of malloc and realloc are a list in the order of the requests, and an empty list refuses; opendir
-- takes two of them also where it asks for less. `junk` is what the memory holds that nothing filled.
use c_lite.Base.{
  ℕ, zero, suc, ◌+◌, ◌*◌, Bool, true, false, not, ◌&&◌, ◌||◌, List, [], ◌∷◌, ◌++◌, Option, none,
  some, leb, ltb, ◌==◌, if◌then◌else◌, length,
}
use c_lite.Base.Int.{is_zero}
use c_lite.Text.{Bytes}
use c_lite.Syscall.{Os, World, Sys}
use c_lite.Syscall.Stat.{is_dir_mode, stat_filled, lstat_filled}
use c_lite.Fnmatch.{Flags, fnmatch}
use c_lite.Dirent.{Entry, Dir, opendir, readdir, closedir}
use c_lite.Compat.Glob.{glob_has_meta, glob_unescape_to, glob_join, is_dots, with_slash}

pub record Vec : Type 0 where
  pub v : List Bytes
  pub cap : ℕ

abbrev pub empty_vec : Vec
empty_vec = record { v = []; cap = 0 }

-- How a loop ends: it goes on, GLOB_NOSPACE, a buffer that the text does not fit in, or no fuel.
pub data Status : Type 0 where
  going : Status
  nospace : Status
  overrun : Status
  out_of_fuel : Status

abbrev pub is_going : Status → Bool
is_going going = true
is_going nospace = false
is_going overrun = false
is_going out_of_fuel = false

abbrev pub dir_or_dot : Bytes → Bytes
dir_or_dot [] = b'.' ∷ []
dir_or_dot (c ∷ cs) = c ∷ cs

-- One component, and the flags that its level reads.
pub record Level : Type 0 where
  pub comp : Bytes
  pub last : Bool
  pub noescape : Bool
  pub period : Bool
  pub directories : Bool
  pub markdirs : Bool

abbrev pub fnmatch_flags : Level → Flags
fnmatch_flags l = record { pathname = false; noescape = l.noescape; period = not l.period }

-- fnmatch(comp, name, fnflags) == 0: the fuel is enough for it to return.
abbrev pub is_match : Option Bool → Bool
is_match none = false
is_match (some r) = r

module _ (O : Os) (junk : ℕ → ℕ) where
  pub record Work : Type 0 where
    pub world : World O
    pub grants : List Bool

  abbrev pub Job : Type 0 → Type 0
  Job A = Work → A × Work

infixl 5 ◌>>=◌
module _ {O : Os} {junk : ℕ → ℕ} {A : Type 0} where
  unfoldable pub ◌>>=◌ : {B : Type 0} → Job O junk A → (A → Job O junk B) → Job O junk B
  ◌>>=◌ m f w = let (a, w') = m w in f a w'

  unfoldable pub pure : A → Job O junk A
  pure a w = (a, w)

  unfoldable pub run : Sys O A → Job O junk A
  run m w = let (a, world) = m w.world in (a, record w { world = world })

module _ (O : Os) (junk : ℕ → ℕ) where
  abbrev next_grant : Work O junk → List Bool → Bool × Work O junk
  next_grant w [] = (false, w)
  next_grant w (g ∷ gs) = (g, record w { grants = gs })

  unfoldable pub grant : Job O junk Bool
  grant w = next_grant w w.grants

  -- The copy of strdup behind the others.
  unfoldable pub keep_copy : Vec → Bytes → Job O junk (Bool × Vec)
  unfolding grant
  keep_copy sv s = do
    copied ← grant
    pure (if copied then (true, record sv { v = sv.v ++ s ∷ [] }) else (false, sv))

  -- The Boolean is whether the result is 0.
  unfoldable pub glob_vec_push : Vec → Bytes → Job O junk (Bool × Vec)
  unfolding grant keep_copy
  glob_vec_push sv s =
      let ncap = if sv.cap == 0 then 16 else sv.cap * 2 in
      if leb 1024 (length sv.v)
      then pure (false, sv)
      else if ltb sv.cap (length sv.v + 1)
      then (do
        grown ← grant
        if grown then keep_copy (record sv { cap = ncap }) s else pure (false, sv))
      else keep_copy sv s

  unfoldable pub glob_is_dir : Bytes → Job O junk Bool
  unfolding stat_filled is_dir_mode
  glob_is_dir path = do
    st ← run (stat_filled O path)
    pure (is_zero st.ret && is_dir_mode st.filled)

  -- What becomes of a path that was joined: `none` is one that is too long.
  unfoldable pub push_entry : Level → Vec → Option Bytes → Job O junk (Bool × Vec)
  unfolding glob_is_dir glob_vec_push
  push_entry l next none = pure (true, next)
  push_entry l next (some joined) = do
    wanted ← if not l.last || not l.directories then pure true else glob_is_dir joined
    marked ← if wanted && l.last && l.markdirs then glob_is_dir joined else pure false
    if wanted
        then glob_vec_push next (if marked then with_slash joined else joined)
        else pure (true, next)

  -- One entry of the directory `dir`.
  unfoldable pub entry_step : Level → Bytes → Bytes → Vec → Job O junk (Bool × Vec)
  unfolding fnmatch glob_join push_entry
  entry_step l dir name next =
      if is_dots name
      then pure (true, next)
      else if not (is_match (fnmatch (suc (length l.comp)) l.comp name (fnmatch_flags l)))
      then pure (true, next)
      else push_entry l next (glob_join dir name)

  -- What readdir gives: an entry, the end, or no fuel. `go` is the loop behind an entry.
  unfoldable pub entries_from :
      Level
      → Bytes
      → Vec
      → (Dir → Vec → Job O junk (Status × Vec))
      → Option (Option Entry × Dir)
      → Job O junk (Status × Vec)
  unfolding entry_step
  entries_from l dir next go none = pure (out_of_fuel, next)
  entries_from l dir next go (some (none, d)) = pure (going, next)
  entries_from l dir next go (some (some e, d)) = do
    r ← entry_step l dir e.d_name next
    if r.0 then go d r.1 else pure (nospace, r.1)

  -- while ((de = readdir(dp)) != NULL): one unit of fuel is one round.
  unfoldable pub entries_loop : ℕ → Level → Bytes → Dir → Vec → Job O junk (Status × Vec)
  unfolding entries_from readdir
  entries_loop zero l dir d next = pure (out_of_fuel, next)
  entries_loop (suc f) l dir d next = entries_from l dir next (entries_loop f l dir) (readdir f d)

  -- The entries of a directory, where it can be opened.
  unfoldable pub scan_dir : ℕ → Level → Bytes → Vec → Option Dir → Job O junk (Status × Vec)
  unfolding entries_loop closedir
  scan_dir fuel l dir next none = pure (going, next)
  scan_dir fuel l dir next (some d) = do
    r ← entries_loop fuel l dir d next
    _ ← run (closedir O (some d))
    pure r

  -- for (k < cur.n), for a component with special bytes.
  unfoldable pub meta_level : ℕ → Level → List Bytes → Vec → Job O junk (Status × Vec)
  unfolding grant opendir scan_dir
  meta_level fuel l [] next = pure (going, next)
  meta_level fuel l (dir ∷ dirs) next = do
    granted ← grant
    block ← grant
    dp ← run (opendir O granted (if block then some junk else none) (some (dir_or_dot dir)))
    r ← scan_dir fuel l dir next dp
    if is_going r.0 then meta_level fuel l dirs r.1 else pure r

  -- What a component without special bytes does with a path that was joined.
  unfoldable pub push_literal : Level → Vec → Option Bytes → Job O junk (Bool × Vec)
  unfolding glob_is_dir glob_vec_push lstat_filled is_dir_mode
  push_literal l next none = pure (true, next)
  push_literal l next (some joined) =
      if not l.last
      then (do
        found ← glob_is_dir joined
        if found then glob_vec_push next joined else pure (true, next))
      else (do
        st ← run (lstat_filled O joined)
        let found = is_dir_mode st.filled
        if not (is_zero st.ret) || (l.directories && not found)
            then pure (true, next)
            else if not (l.markdirs && found)
            then glob_vec_push next joined
            else if ltb 1024 (length joined + 2)
            then pure (true, next)
            else glob_vec_push next (joined ++ b'/' ∷ []))

  -- for (k < cur.n), for a component without special bytes.
  unfoldable pub literal_level : Level → List Bytes → Vec → Job O junk (Status × Vec)
  unfolding glob_unescape_to glob_join push_literal
  literal_level l [] next = pure (going, next)
  literal_level l (dir ∷ dirs) next = do
    r ← push_literal l next (glob_join dir (glob_unescape_to l.noescape l.comp))
    if r.0 then literal_level l dirs r.1 else pure (nospace, r.1)

  unfoldable pub level : ℕ → Level → List Bytes → Job O junk (Status × Vec)
  unfolding glob_has_meta meta_level literal_level
  level fuel l cur =
      if glob_has_meta l.noescape l.comp
      then meta_level fuel l cur empty_vec
      else literal_level l cur empty_vec
