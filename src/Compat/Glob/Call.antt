-- ===== src/Compat/Glob/Call.antt =====
-- The call of glob, and globfree, of src/compat.c and include/glob.h. errfunc is ignored by the code.
use c_lite.Base.{
  ℕ, Bool, true, false, not, ◌||◌, List, [], ◌∷◌, Option, none, some, leb, ◌==◌, if◌then◌else◌,
  length, take,
}
use c_lite.Text.{Bytes, first}
use c_lite.Syscall.{Os}
use c_lite.Compat.Glob.{glob_has_meta, glob_unescape_to, components, trailing_slash}
use c_lite.Compat.Glob.Walk.{
  Vec, empty_vec, Status, going, nospace, overrun, out_of_fuel, Level, Job, ◌>>=◌, pure, grant,
  glob_vec_push, is_going, level,
}

pub record GlobFlags : Type 0 where
  pub mark : Bool
  pub nocheck : Bool
  pub append : Bool
  pub noescape : Bool
  pub period : Bool
  pub onlydir : Bool

-- glob_t: `gl_pathv` is the array before its null pointer, or a null pointer.
pub record Glob : Type 0 where
  pub gl_pathc : ℕ
  pub gl_pathv : Option (List Bytes)
  pub gl_offs : ℕ

abbrev pub glob_nospace : ℕ
glob_nospace = 1

abbrev pub glob_aborted : ℕ
glob_aborted = 2

abbrev pub glob_nomatch : ℕ
glob_nomatch = 3

-- The result, or a text that is written behind the 1024 bytes of `lit`, or no fuel.
pub data Globbed : Type 0 where
  returned : ℕ → Glob → Globbed
  writes_past : Globbed
  no_fuel : Globbed

-- The level of a component.
abbrev pub level_of : GlobFlags → Bytes → Bytes → List Bytes → Level
level_of fl pattern comp later = record {
  comp = comp;
  last = length later == 0;
  noescape = fl.noescape;
  period = fl.period;
  directories = trailing_slash fl.noescape pattern || fl.onlydir;
  markdirs = fl.mark || fl.onlydir;
}

-- The existing results for GLOB_APPEND.
abbrev pub seeds : GlobFlags → Glob → List Bytes
seeds fl g = if fl.append then taken g.gl_pathv else []
  where
    taken : Option (List Bytes) → List Bytes
    taken none = []
    taken (some paths) = take g.gl_pathc paths

abbrev pub status_of : Bool → Status
status_of true = going
status_of false = nospace

module _ (O : Os) (junk : ℕ → ℕ) where
  unfoldable pub push_all : List Bytes → Vec → Job O junk (Bool × Vec)
  unfolding glob_vec_push
  push_all [] sv = pure (true, sv)
  push_all (s ∷ ss) sv = do r ← glob_vec_push O junk sv s; if r.0 then push_all ss r.1 else pure r

  -- for (ci < ncomp && ret == 0)
  unfoldable pub levels_loop : ℕ → GlobFlags → Bytes → List Bytes → Vec → Job O junk (Status × Vec)
  unfolding level
  levels_loop fuel fl pattern [] cur = pure (going, cur)
  levels_loop fuel fl pattern (c ∷ cs) cur =
      if length c == 0 then levels_loop fuel fl pattern cs cur else (do
        r ← level O junk fuel (level_of fl pattern c cs) cur.v
        if length r.1.v == 0 || not (is_going r.0)
            then pure r
            else levels_loop fuel fl pattern cs r.1)

  -- A pattern with special bytes. The root of an absolute one is "/".
  unfoldable pub expand : ℕ → GlobFlags → Bytes → Vec → Job O junk (Status × Vec)
  unfolding glob_vec_push components levels_loop push_all
  expand fuel fl pattern out = if leb 1024 (length pattern) then pure (going, out) else (do
    root ← glob_vec_push O junk empty_vec (if first pattern == b'/' then b'/' ∷ [] else [])
    if not root.0 then pure (nospace, out) else (do
      r ← levels_loop fuel fl pattern (components fl.noescape pattern) root.1
      if not (is_going r.0)
          then pure (r.0, out)
          else (do pushed ← push_all r.1.v out; pure (status_of pushed.0, pushed.1))))

  -- `lit` has 1024 bytes.
  unfoldable pub found_paths : ℕ → GlobFlags → Bytes → Vec → Job O junk (Status × Vec)
  unfolding glob_has_meta glob_unescape_to expand glob_vec_push
  found_paths fuel fl pattern out =
      let lit = glob_unescape_to fl.noescape pattern in
      if glob_has_meta fl.noescape pattern
      then expand fuel fl pattern out
      else if leb 1024 (length lit)
      then pure (overrun, out)
      else (do pushed ← glob_vec_push O junk out lit; pure (status_of pushed.0, pushed.1))

  -- GLOB_NOCHECK: the pattern itself.
  unfoldable pub unchecked : GlobFlags → Bytes → Glob → Job O junk Globbed
  unfolding glob_unescape_to grant
  unchecked fl pattern g =
      let lit = glob_unescape_to fl.noescape pattern in
      let refused = returned glob_nospace (record g { gl_pathv = none }) in
      if leb 1024 (length lit) then pure writes_past else (do
        array ← grant O junk
        if not array then pure refused else (do
          copy ← grant O junk
          if not copy
              then pure refused
              else pure
                  (returned 0 (record { gl_pathc = 1; gl_pathv = some (lit ∷ []); gl_offs = 0 }))))

  -- done:
  unfoldable pub finish_glob : GlobFlags → Bytes → Glob → Status × Vec → Job O junk Globbed
  unfolding unchecked grant
  finish_glob fl pattern g (overrun, out) = pure writes_past
  finish_glob fl pattern g (out_of_fuel, out) = pure no_fuel
  finish_glob fl pattern g (nospace, out) =
      pure (
        returned glob_nospace (if fl.append then g else record g { gl_pathc = 0; gl_pathv = none }))
  finish_glob fl pattern g (going, out) =
      if length out.v == 0
      then if fl.nocheck
        then unchecked fl pattern g
        else pure (returned glob_nomatch (record { gl_pathc = 0; gl_pathv = none; gl_offs = 0 }))
      else (do
        array ← grant O junk
        pure (
            if array
            then returned 0 (record { gl_pathc = length out.v; gl_pathv = some out.v; gl_offs = 0 })
            else returned glob_nospace (record g { gl_pathc = 0; gl_pathv = none })))

  -- `pglob` is not null.
  unfoldable pub glob : ℕ → Option Bytes → GlobFlags → Glob → Job O junk Globbed
  unfolding push_all found_paths finish_glob
  glob fuel none fl g = pure (returned glob_aborted g)
  glob fuel (some pattern) fl g = do
    seeded ← push_all (seeds fl g) empty_vec
    if not seeded.0
        then finish_glob fl pattern g (nospace, seeded.1)
        else (do r ← found_paths fuel fl pattern seeded.1; finish_glob fl pattern g r)

-- `pglob` is not null. The strings and the array are freed.
unfoldable pub globfree : Glob → Glob
globfree g = freed g.gl_pathv
  where
    freed : Option (List Bytes) → Glob
    freed none = g
    freed (some paths) = record g { gl_pathc = 0; gl_pathv = none }
