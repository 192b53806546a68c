-- ===== src/Compat/Glob/Found.antt =====
-- Where the paths that glob returns come from.
use c_lite.Base.{
  ℕ, ◌≡◌, refl, Bool, true, false, not, ◌||◌, List, [], ◌∷◌, leb, ◌==◌, ==→eq, if◌then◌else◌,
  length, arith,
}
use c_lite.Text.{Bytes, first}
use c_lite.Syscall.{Os}
use c_lite.Compat.Glob.{components}
use c_lite.Compat.Glob.Walk.{
  Vec, empty_vec, Status, going, nospace, is_going, Work, Job, ◌>>=◌, pure,
}
use c_lite.Compat.Glob.Keeps.{
  Every, map-Every, Keeps, pure-Keeps, if-Keeps, then-Keeps, glob_vec_push-Keeps,
}
use c_lite.Compat.Glob.Expansion.{Extends, level-Keeps}
use c_lite.Compat.Glob.Call.{GlobFlags, level_of, push_all, levels_loop, expand}

-- The paths that the components lead to from a directory: an empty one is skipped.
pub data Expands (fl : GlobFlags) (pattern : Bytes) : List Bytes → Bytes → Bytes → Type 0 where
  arrived : {dir : Bytes} → Expands fl pattern [] dir dir
  skipped :
      {c : Bytes} {cs : List Bytes} {dir path : Bytes}
      → length c ≡ 0
      → Expands fl pattern cs dir path
      → Expands fl pattern (c ∷ cs) dir path
  entered :
      {c : Bytes} {cs : List Bytes} {dir next path : Bytes}
      → Extends (level_of fl pattern c cs) dir next
      → Expands fl pattern cs next path
      → Expands fl pattern (c ∷ cs) dir path

-- The directory that the walk begins with.
abbrev pub root_of : Bytes → Bytes
root_of pattern = if first pattern == b'/' then b'/' ∷ [] else []

module _ (O : Os) (junk : ℕ → ℕ) (fl : GlobFlags) (pattern : Bytes) (P : Bytes → Type 0) where
  -- Every path that the components lead to from `dir` may be kept.
  abbrev pub Leads : List Bytes → Bytes → Type 0
  Leads cs dir = (path : Bytes) → Expands fl pattern cs dir path → P path

  -- The paths of a loop that has gone on to its end.
  unfoldable Ends : Job O junk (Status × Vec) → Type 0
  Ends m = (w : Work O junk) → is_going (m w).0.0 ≡ true → Every P (m w).0.1.v

  if-Ends :
      (c : Bool) (m n : Job O junk (Status × Vec))
      → (c ≡ true → Ends m)
      → (c ≡ false → Ends n)
      → Ends (if c then m else n)
  if-Ends true m n h k = h refl
  if-Ends false m n h k = k refl

  pure-Ends : (r : Status × Vec) → (is_going r.0 ≡ true → Every P r.1.v) → Ends (pure r)
  unfolding Ends pure
  pure-Ends r h w e = h e

  then-Ends :
      (Q : Bytes → Type 0) (m : Job O junk (Status × Vec))
      (f : Status × Vec → Job O junk (Status × Vec))
      → Keeps O junk Q m
      → ((r : Status × Vec) → Every Q r.1.v → Ends (f r))
      → Ends (do r ← m; f r)
  unfolding Ends Keeps ◌>>=◌
  then-Ends Q m f k h w = h (m w).0 (k w) (m w).1

  none_left :
      (vs : List Bytes) (going_on : Bool)
      → (length vs == 0 || not going_on) ≡ true
      → going_on ≡ true
      → Every P vs
  none_left [] b e g = tt
  none_left (x ∷ xs) b e g = absurd (ground arith)

  levels_loop-Ends :
      (f : ℕ) (cs : List Bytes) (cur : Vec)
      → Every (Leads cs) cur.v
      → Ends (levels_loop O junk f fl pattern cs cur)
  unfolding levels_loop
  levels_loop-Ends f [] cur h =
      pure-Ends (going, cur) (λ _. map-Every (Leads []) P cur.v (λ dir leads. leads dir arrived) h)
  levels_loop-Ends f (c ∷ cs) cur h =
      if-Ends (length c == 0) _ _
        (λ e. levels_loop-Ends f cs cur (
          map-Every (Leads (c ∷ cs)) (Leads cs) cur.v
            (λ dir leads path x. leads path (skipped (==→eq _ _ e) x)) h))
        (λ _.
          then-Ends (Leads cs) _ _
            (level-Keeps O junk (Leads cs) (level_of fl pattern c cs) f cur.v (
              map-Every (Leads (c ∷ cs)) _ cur.v
                (λ dir leads next step path x. leads path (entered step x)) h))
            (λ r kept.
              if-Ends (length r.1.v == 0 || not (is_going r.0)) _ _
                (λ e. pure-Ends r (none_left r.1.v (is_going r.0) e))
                (λ _. levels_loop-Ends f cs r.1 kept)))

  -- A job that keeps another predicate, where what follows does not return its vector.
  rooted-Keeps :
      {X Y : Type 0} {Q : Bytes → Type 0} (m : Job O junk (X × Vec))
      (f : X × Vec → Job O junk (Y × Vec))
      → Keeps O junk Q m
      → ((r : X × Vec) → Every Q r.1.v → Keeps O junk P (f r))
      → Keeps O junk P (do r ← m; f r)
  unfolding Keeps ◌>>=◌
  rooted-Keeps m f k h w = h (m w).0 (k w) (m w).1

  Ends-Keeps :
      {X : Type 0} (m : Job O junk (Status × Vec)) (f : Status × Vec → Job O junk (X × Vec))
      → Ends m
      → ((r : Status × Vec) → (is_going r.0 ≡ true → Every P r.1.v) → Keeps O junk P (f r))
      → Keeps O junk P (do r ← m; f r)
  unfolding Ends Keeps ◌>>=◌
  Ends-Keeps m f k h w = h (m w).0 (k w) (m w).1

  pub push_all-Keeps :
      (ss : List Bytes) (sv : Vec)
      → Every P ss
      → Every P sv.v
      → Keeps O junk P (push_all O junk ss sv)
  unfolding push_all
  push_all-Keeps [] sv hs h = pure-Keeps O junk P true sv h
  push_all-Keeps (s ∷ ss) sv (k, hs) h =
      then-Keeps O junk P _ _ (glob_vec_push-Keeps O junk P sv s h k) (λ r kept.
        if-Keeps O junk P r.0 _ _ (λ _. push_all-Keeps ss r.1 hs kept)
          (λ _. pure-Keeps O junk P r.0 r.1 kept))

  is_on : (b : Bool) → not b ≡ false → b ≡ true
  is_on b e = ground arith

  pub expand-Keeps :
      (f : ℕ) (out : Vec)
      → Leads (components fl.noescape pattern) (root_of pattern)
      → Every P out.v
      → Keeps O junk P (expand O junk f fl pattern out)
  unfolding expand
  expand-Keeps f out leads h =
      if-Keeps O junk P (leb 1024 (length pattern)) _ _ (λ _. pure-Keeps O junk P going out h)
        (λ _.
          rooted-Keeps _ _
            (glob_vec_push-Keeps O junk (Leads (components fl.noescape pattern)) empty_vec
              (root_of pattern) tt leads)
            (λ root kept.
              if-Keeps O junk P (not root.0) _ _ (λ _. pure-Keeps O junk P nospace out h)
                (λ _.
                  Ends-Keeps _ _ (levels_loop-Ends f (components fl.noescape pattern) root.1 kept)
                    (λ r found.
                      if-Keeps O junk P (not (is_going r.0)) _ _
                        (λ _. pure-Keeps O junk P r.0 out h)
                        (λ on.
                          then-Keeps O junk P _ _ (push_all-Keeps r.1.v out (found (is_on _ on)) h)
                            (λ pushed kept. pure-Keeps O junk P _ pushed.1 kept))))))
