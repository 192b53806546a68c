-- ===== src/Stdlib/Sort.antt =====
-- bsearch and qsort of src/stdlib.c. The element `i` of an array is what stands at
-- `base + i * size`; an array is a function from indices to elements, and swapping all bytes of two
-- elements swaps the elements. The comparison is the caller's function, a parameter.
pub mod Search
pub mod Swaps
pub mod Partition
pub mod Sorts
use c_lite.Base.{
  ℕ, zero, suc, ◌+◌, ◌-◌, ◌*◌, ◌/◌, ◌≡◌, Bool, true, false, not, ◌&&◌, ◌||◌, Option, none, some,
  leb, ltb, ◌==◌, if◌then◌else◌, ◌>>=◌,
}
use c_lite.Base.Int.{ℤ, pos, negsuc, is_zero, is_neg}
use c_lite.Memory.{Addr, null}

-- `order p` is compar(key, p).
pub bsearch_loop : ℕ → (Addr → ℤ) → Addr → ℕ → ℕ → ℕ → Option Addr
bsearch_loop zero order base size l r = none
bsearch_loop (suc f) order base size l r =
    let m = l + (r - l) / 2 in
    let cmp = order (base + m * size) in
    let below = bsearch_loop f order base size l m in
    let above = bsearch_loop f order base size (m + 1) r in
    if ltb l r
    then if is_zero cmp then some (base + m * size) else if is_neg cmp then below else above
    else some null

unfoldable pub bsearch : ℕ → (Addr → ℤ) → Addr → ℕ → ℕ → Option Addr
unfolding bsearch_loop
bsearch fuel order base nmemb size = bsearch_loop fuel order base size 0 nmemb

module _ {ℓ} {A : Type ℓ} where
  unfoldable pub swap : (ℕ → A) → ℕ → ℕ → ℕ → A
  swap a i j k = if k == i then a j else if k == j then a i else a k

  -- compar(x, y) <= 0
  abbrev pub at_most : (A → A → ℤ) → A → A → Bool
  at_most compar x y = is_neg (compar x y) || is_zero (compar x y)

  -- The for loop, `todo` rounds before its end; the pivot is the last element.
  pub partition_loop : (A → A → ℤ) → ℕ → ℕ → ℕ → ℕ → ℕ → (ℕ → A) → (ℕ → A) × ℕ
  unfolding swap
  partition_loop compar b last zero j i a = (a, i)
  partition_loop compar b last (suc todo) j i a =
      let moved = partition_loop compar b last todo (j + 1) (i + 1) (swap a (b + i) (b + j)) in
      let kept = partition_loop compar b last todo (j + 1) i a in
      if at_most compar (a (b + j)) (a last) then moved else kept

  -- The elements from `b` on, `nmemb` of them.
  unfoldable pub qsort : ℕ → (A → A → ℤ) → ℕ → ℕ → (ℕ → A) → Option (ℕ → A)
  unfolding swap partition_loop
  qsort zero compar b nmemb a = none
  qsort (suc f) compar b nmemb a =
      let pivot = b + (nmemb - 1) in
      let (split, i) = partition_loop compar b pivot (nmemb - 1) 0 0 a in
      let whole = swap split (b + i) pivot in
      let left = qsort f compar b i whole in
      if ltb nmemb 2 then some a else (do
        half ← if ltb 1 i then left else some whole
        if ltb 1 (nmemb - i - 1)
            then qsort f compar (b + (i + 1)) (nmemb - i - 1) half
            else some half)
