-- ===== src/Stdlib/Env/Lookup.antt =====
-- getenv after setenv and unsetenv.
use c_lite.Base.{
  suc, ◌≡◌, ◌≢◌, refl, sym, ap, ◌∙◌, inl, inr, true, false, List, [], ◌∷◌, ◌++◌, Option, none, some,
  arith, ==_refl, Bool-cases, length, drop,
}
use c_lite.Text.{Bytes, has, is_prefix}
use c_lite.Stdlib.Env.{matches, lookup, new_entry, bound, replace, remove}

-- The text of an optional value, empty for a null pointer.
abbrev pub text_of : Option Bytes → Bytes
text_of none = []
text_of (some v) = v

pub matches_new : (n : Bytes) (v : Option Bytes) → matches n (new_entry n v) ≡ true
unfolding matches is_prefix
matches_new [] none = refl
matches_new [] (some v) = refl
matches_new (x ∷ n) none = rw (==_refl x) (matches_new n none)
matches_new (x ∷ n) (some v) = rw (==_refl x) (matches_new n (some v))

value_new : (n : Bytes) (v : Option Bytes) → drop (suc (length n)) (new_entry n v) ≡ text_of v
value_new [] none = refl
value_new [] (some v) = refl
value_new (x ∷ n) none = value_new n none
value_new (x ∷ n) (some v) = value_new n (some v)

-- An entry has one name.
pub same_name :
    (n k e : Bytes)
    → has b'=' n ≡ false
    → has b'=' k ≡ false
    → matches n e ≡ true
    → matches k e ≡ true
    → n ≡ k
unfolding matches is_prefix has
same_name [] [] e hn hk mn mk = refl
same_name [] (x ∷ k) [] hn hk mn mk = absurd (ground arith)
same_name [] (x ∷ k) (y ∷ e) hn hk mn mk = absurd (ground arith)
same_name (x ∷ n) k [] hn hk mn mk = absurd (ground arith)
same_name (x ∷ n) [] (y ∷ e) hn hk mn mk = absurd (ground arith)
same_name (x ∷ n) (z ∷ k) (y ∷ e) hn hk mn mk =
    let xy : x ≡ y = ground arith in
    let zy : z ≡ y = ground arith in
    let rest : n ≡ k =
      same_name n k e (ground arith) (ground arith) (ground arith) (ground arith) in
    rw (xy, zy, rest)

-- The value of a name that the array was given.
pub lookup-replace :
    (n : Bytes) (v : Option Bytes) (es : List Bytes)
    → bound n es ≡ true
    → lookup n (replace n (new_entry n v) es) ≡ some (text_of v)
unfolding lookup replace bound
lookup-replace n v [] h = cc
lookup-replace n v (e ∷ es) h = elim (Bool-cases (matches n e)) [
  | inl hit ↦ rw (hit, matches_new n v) (ap some (value_new n v))
  | inr miss ↦ rw (miss, lookup, miss) (lookup-replace n v es (ground arith))
]

pub lookup-append :
    (n : Bytes) (v : Option Bytes) (es : List Bytes)
    → bound n es ≡ false
    → lookup n (es ++ new_entry n v ∷ []) ≡ some (text_of v)
unfolding lookup bound
lookup-append n v [] h = rw (matches_new n v) (ap some (value_new n v))
lookup-append n v (e ∷ es) h =
    let miss : matches n e ≡ false = ground arith in rw miss (lookup-append n v es (ground arith))

-- An entry of another name is no entry of this one.
pub other_miss :
    (n k : Bytes) (v : Option Bytes)
    → has b'=' n ≡ false
    → has b'=' k ≡ false
    → n ≢ k
    → matches k (new_entry n v) ≡ false
other_miss n k v hn hk ne = elim (Bool-cases (matches k (new_entry n v))) [
  | inl hit ↦ absurd (ne (same_name n k (new_entry n v) hn hk (matches_new n v) hit))
  | inr miss ↦ miss
]

pub one_name :
    (n k e : Bytes)
    → has b'=' n ≡ false
    → has b'=' k ≡ false
    → n ≢ k
    → matches n e ≡ true
    → matches k e ≡ false
one_name n k e hn hk ne hit = elim (Bool-cases (matches k e)) [
  | inl both ↦ absurd (ne (same_name n k e hn hk hit both))
  | inr miss ↦ miss
]

lookup_miss :
    (k e : Bytes) (es : List Bytes) → matches k e ≡ false → lookup k (e ∷ es) ≡ lookup k es
unfolding lookup
lookup_miss k e es miss = rw miss

-- The other names keep their values.
pub lookup-replace_other :
    (n k : Bytes) (v : Option Bytes) (es : List Bytes)
    → has b'=' n ≡ false
    → has b'=' k ≡ false
    → n ≢ k
    → lookup k (replace n (new_entry n v) es) ≡ lookup k es
unfolding replace lookup
lookup-replace_other n k v [] hn hk ne = refl
lookup-replace_other n k v (e ∷ es) hn hk ne = elim (Bool-cases (matches n e)) [
  | inl hit ↦ rw hit (
      lookup_miss k (new_entry n v) es (other_miss n k v hn hk ne)
      ∙ sym (lookup_miss k e es (one_name n k e hn hk ne hit)))
  | inr miss ↦ rw (miss, lookup, lookup-replace_other n k v es hn hk ne)
]

pub lookup-append_other :
    (n k : Bytes) (v : Option Bytes) (es : List Bytes)
    → has b'=' n ≡ false
    → has b'=' k ≡ false
    → n ≢ k
    → lookup k (es ++ new_entry n v ∷ []) ≡ lookup k es
unfolding lookup
lookup-append_other n k v [] hn hk ne = lookup_miss k (new_entry n v) [] (other_miss n k v hn hk ne)
lookup-append_other n k v (e ∷ es) hn hk ne = rw (lookup-append_other n k v es hn hk ne)

pub lookup-remove_other :
    (n k : Bytes) (es : List Bytes)
    → has b'=' n ≡ false
    → has b'=' k ≡ false
    → n ≢ k
    → lookup k (remove n es) ≡ lookup k es
unfolding remove lookup
lookup-remove_other n k [] hn hk ne = refl
lookup-remove_other n k (e ∷ es) hn hk ne = elim (Bool-cases (matches n e)) [
  | inl hit ↦ rw hit (sym (lookup_miss k e es (one_name n k e hn hk ne hit)))
  | inr miss ↦ rw (miss, lookup, lookup-remove_other n k es hn hk ne)
]

lookup-bound : (n : Bytes) (es : List Bytes) → bound n es ≡ false → lookup n es ≡ none
unfolding lookup bound
lookup-bound n [] h = refl
lookup-bound n (e ∷ es) h =
    let miss : matches n e ≡ false = ground arith in rw miss (lookup-bound n es (ground arith))

-- No name stands in two entries.
abbrev pub IsUnique : List Bytes → Type 0
IsUnique [] = Unit
IsUnique (e ∷ es) =
    ((n : Bytes) → has b'=' n ≡ false → matches n e ≡ true → bound n es ≡ false) × IsUnique es

pub lookup-remove :
    (n : Bytes) (es : List Bytes) → has b'=' n ≡ false → IsUnique es → lookup n (remove n es) ≡ none
unfolding lookup remove
lookup-remove n [] hn unique = refl
lookup-remove n (e ∷ es) hn (once, unique) = elim (Bool-cases (matches n e)) [
  | inl hit ↦ rw hit (lookup-bound n es (once n hn hit))
  | inr miss ↦ rw (miss, lookup, miss) (lookup-remove n es hn unique)
]
