-- ===== src/Compat/Glob/Keeps.antt =====
-- What a job of glob keeps true of the paths in the vector that it returns.
use c_lite.Base.{
  ℕ, ◌+◌, ◌≡◌, refl, Bool, true, false, List, [], ◌∷◌, ◌++◌, leb, ltb, if◌then◌else◌, length,
}
use c_lite.Text.{Bytes}
use c_lite.Syscall.{Os}
use c_lite.Compat.Glob.Walk.{Vec, Work, Job, ◌>>=◌, pure, grant, keep_copy, glob_vec_push}

abbrev pub Every : (Bytes → Type 0) → List Bytes → Type 0
Every P [] = Unit
Every P (x ∷ xs) = P x × Every P xs

pub append-Every :
    (P : Bytes → Type 0) (xs : List Bytes) (x : Bytes) → Every P xs → P x → Every P (xs ++ x ∷ [])
append-Every P [] x h k = (k, tt)
append-Every P (y ∷ ys) x (h, hs) k = (h, append-Every P ys x hs k)

pub map-Every :
    (P Q : Bytes → Type 0) (xs : List Bytes) → ((x : Bytes) → P x → Q x) → Every P xs → Every Q xs
map-Every P Q [] f h = tt
map-Every P Q (x ∷ xs) f (h, hs) = (f x h, map-Every P Q xs f hs)

module _ (O : Os) (junk : ℕ → ℕ) (P : Bytes → Type 0) where
  unfoldable pub Keeps : {X : Type 0} → Job O junk (X × Vec) → Type 0
  Keeps m = (w : Work O junk) → Every P (m w).0.1.v

  pub pure-Keeps : {X : Type 0} (x : X) (sv : Vec) → Every P sv.v → Keeps (pure (x, sv))
  unfolding Keeps pure
  pure-Keeps x sv h w = h

  pub if-Keeps :
      {X : Type 0} (c : Bool) (m n : Job O junk (X × Vec))
      → (c ≡ true → Keeps m)
      → (c ≡ false → Keeps n)
      → Keeps (if c then m else n)
  if-Keeps true m n h k = h refl
  if-Keeps false m n h k = k refl

  pub any-Keeps :
      {A X : Type 0} (m : Job O junk A) (f : A → Job O junk (X × Vec))
      → ((a : A) → Keeps (f a))
      → Keeps (do a ← m; f a)
  unfolding Keeps ◌>>=◌
  any-Keeps m f h w = h (m w).0 (m w).1

  pub then-Keeps :
      {X Y : Type 0} (m : Job O junk (X × Vec)) (f : X × Vec → Job O junk (Y × Vec))
      → Keeps m
      → ((r : X × Vec) → Every P r.1.v → Keeps (f r))
      → Keeps (do r ← m; f r)
  unfolding Keeps ◌>>=◌
  then-Keeps m f k h w = h (m w).0 (k w) (m w).1

  either_vec :
      (b : Bool) (r r' : Bool × Vec)
      → Every P r.1.v
      → Every P r'.1.v
      → Every P (if b then r else r').1.v
  either_vec true r r' h k = h
  either_vec false r r' h k = k

  keep_copy-Keeps : (sv : Vec) (s : Bytes) → Every P sv.v → P s → Keeps (keep_copy O junk sv s)
  unfolding keep_copy Keeps ◌>>=◌ pure
  keep_copy-Keeps sv s h k w =
      either_vec (grant O junk w).0 (true, record sv { v = sv.v ++ s ∷ [] }) (false, sv)
        (append-Every P sv.v s h k) h

  pub glob_vec_push-Keeps :
      (sv : Vec) (s : Bytes) → Every P sv.v → P s → Keeps (glob_vec_push O junk sv s)
  unfolding glob_vec_push
  glob_vec_push-Keeps sv s h k =
      if-Keeps (leb 1024 (length sv.v)) _ _ (λ _. pure-Keeps false sv h)
        (λ _.
          if-Keeps (ltb sv.cap (length sv.v + 1)) _ _
            (λ _. any-Keeps (grant O junk) _ (λ grown.
              if-Keeps grown _ _ (λ _. keep_copy-Keeps _ s h k) (λ _. pure-Keeps false sv h)))
            (λ _. keep_copy-Keeps sv s h k))
