-- ===== src/Stdlib/Env/Api.antt =====
-- The environment of src/stdlib.c as its callers see it.
use c_lite.Base.{
  ◌≡◌, ◌≢◌, refl, sym, ◌∙◌, inl, inr, Bool, true, false, not, ◌&&◌, List, [], ◌∷◌, ◌++◌, Option,
  none, some, arith, Bool-cases,
}
use c_lite.Base.Int.{pos, negsuc}
use c_lite.Text.{Bytes, has}
use c_lite.Stdlib.Env.{
  Environ, is_empty, lookup, getenv, new_entry, bound, replace, bad_name, is_some, put_entry,
  setenv, remove, unsetenv,
}
use c_lite.Stdlib.Env.Lookup.{
  text_of, lookup-replace, lookup-append, lookup-replace_other, lookup-append_other, lookup-remove,
  lookup-remove_other, IsUnique,
}

-- A good name is not empty and has no '='.
good_name : (n : Bytes) → bad_name n ≡ false → (is_empty n ≡ false) × (has b'=' n ≡ false)
unfolding bad_name
good_name n good = ground arith

-- The environment `after` gives `value` for `name`, and for every other good name what `before` gives.
abbrev pub Bound : Environ → Environ → Bytes → Option Bytes → Type 0
Bound before after name value =
    (getenv after (some name) ≡ value)
    × ((k : Bytes) → bad_name k ≡ false → name ≢ k → getenv after (some k) ≡ getenv before (some k))

getenv-lookup :
    (es : List Bytes) (n : Bytes) → bad_name n ≡ false → getenv (some es) (some n) ≡ lookup n es
unfolding getenv
getenv-lookup es n good = rw ((good_name n good).0) refl

put_entry-Bound :
    (environ : Environ) (n : Bytes) (v : Option Bytes)
    → bad_name n ≡ false
    → (after : Environ) × (put_entry true environ n (new_entry n v) ≡ (pos 0, after))
      × Bound environ after n (some (text_of v))
unfolding put_entry
put_entry-Bound none n v good = (
  some (new_entry n v ∷ []),
  refl,
  (
    getenv-lookup (new_entry n v ∷ []) n good ∙ lookup-append n v [] (unfold bound in refl),
    λ k good' ne.
        getenv-lookup (new_entry n v ∷ []) k good'
        ∙ lookup-append_other n k v [] (good_name n good).1 (good_name k good').1 ne
        ∙ unfold lookup getenv in refl,
  ),
)
put_entry-Bound (some es) n v good = elim (Bool-cases (bound n es)) [
  | inl old ↦ (
    some (replace n (new_entry n v) es),
    rw old refl,
    (
      getenv-lookup (replace n (new_entry n v) es) n good ∙ lookup-replace n v es old,
      λ k good' ne.
          getenv-lookup (replace n (new_entry n v) es) k good'
          ∙ lookup-replace_other n k v es (good_name n good).1 (good_name k good').1 ne
          ∙ sym (getenv-lookup es k good'),
    ),
  )
  | inr new ↦ (
    some (es ++ new_entry n v ∷ []),
    rw new refl,
    (
      getenv-lookup (es ++ new_entry n v ∷ []) n good ∙ lookup-append n v es new,
      λ k good' ne.
          getenv-lookup (es ++ new_entry n v ∷ []) k good'
          ∙ lookup-append_other n k v es (good_name n good).1 (good_name k good').1 ne
          ∙ sym (getenv-lookup es k good'),
    ),
  )
]

-- Where the name is not empty and has no '=', malloc grants both blocks, and the caller overwrites
-- or the name has no value yet: setenv returns 0, getenv then gives the value (the empty string for
-- a null pointer), and every other good name keeps its value.
pub setenv-getenv :
    (environ : Environ) (n : Bytes) (v : Option Bytes) (overwrite : Bool)
    → bad_name n ≡ false
    → (is_some (getenv environ (some n)) && not overwrite) ≡ false
    → (after : Environ) × (setenv true true environ (some n) v overwrite ≡ (pos 0, after))
      × Bound environ after n (some (text_of v))
unfolding setenv
setenv-getenv environ n v overwrite good allowed =
    rw (good, allowed) (put_entry-Bound environ n v good)

-- On an environment that names nothing twice, unsetenv of a good name returns 0, getenv then gives
-- a null pointer for it, and every other good name keeps its value.
pub unsetenv-getenv :
    (es : List Bytes) (n : Bytes)
    → bad_name n ≡ false
    → IsUnique es
    → (after : Environ) × (unsetenv (some es) (some n) ≡ (pos 0, after))
      × Bound (some es) after n none
unfolding unsetenv
unsetenv-getenv es n good unique = (
  some (remove n es),
  rw good refl,
  (
    getenv-lookup (remove n es) n good ∙ lookup-remove n es (good_name n good).1 unique,
    λ k good' ne.
        getenv-lookup (remove n es) k good'
        ∙ lookup-remove_other n k es (good_name n good).1 (good_name k good').1 ne
        ∙ sym (getenv-lookup es k good'),
  ),
)

-- A call of setenv that returns -1 leaves the environment as it was.
pub setenv_failed :
    (e a : Bool) (environ : Environ) (n v : Option Bytes) (overwrite : Bool)
    → (setenv e a environ n v overwrite).0 ≡ negsuc 0
    → (setenv e a environ n v overwrite).1 ≡ environ
unfolding setenv put_entry
setenv_failed e a environ none v overwrite failed = refl
setenv_failed e a none (some n) v overwrite failed = ground arith
setenv_failed e a (some es) (some n) v overwrite failed = ground arith
