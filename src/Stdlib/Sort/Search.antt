-- ===== src/Stdlib/Sort/Search.antt =====
-- What bsearch finds.
use c_lite.Base.{
  ℕ, zero, suc, ◌+◌, ◌-◌, ◌*◌, ◌/◌, ◌≤◌, ◌<◌, ◌≡◌, refl, ◌⊎◌, inl, inr, true, false, some, ltb,
  ltb→lt, ltb→ge, arith, Bool-cases,
}
use c_lite.Base.Int.{ℤ, pos, negsuc, is_zero, is_neg}
use c_lite.Memory.{Addr, null}
use c_lite.Stdlib.Sort.{bsearch_loop, bsearch}

-- The elements are sorted for the key: those below it come first, then those equal to it.
pub record IsOrdered (order : Addr → ℤ) (base nmemb size : ℕ) : Type 0 where
  pub above_stay :
      (i j : ℕ)
      → i ≤ j
      → j < nmemb
      → is_neg (order (base + i * size)) ≡ true
      → is_neg (order (base + j * size)) ≡ true
  pub below_stay :
      (i j : ℕ)
      → i ≤ j
      → j < nmemb
      → is_neg (order (base + j * size)) ≡ false
      → is_zero (order (base + j * size)) ≡ false
      → (is_neg (order (base + i * size)) ≡ false) × (is_zero (order (base + i * size)) ≡ false)

-- An element that is equal to the key, or null where there is none.
abbrev pub Search : (Addr → ℤ) → ℕ → ℕ → ℕ → Addr → Type 0
Search order base nmemb size r =
    ((i : ℕ) × (i < nmemb) × (r ≡ base + i * size) × (is_zero (order r) ≡ true))
    ⊎ ((r ≡ null) × ((i : ℕ) → i < nmemb → is_zero (order (base + i * size)) ≡ false))

neg-zero : (z : ℤ) → is_neg z ≡ true → is_zero z ≡ false
neg-zero (pos n) h = cc
neg-zero (negsuc n) h = refl

sides : (i l r : ℕ) → r ≤ l → (i < l) ⊎ (r ≤ i)
sides i l r shut = ground arith

bsearch_loop-Search :
    (order : Addr → ℤ) (base nmemb size f l r : ℕ)
    → IsOrdered order base nmemb size
    → l ≤ r
    → r ≤ nmemb
    → r < f + l
    → ((i : ℕ) → i < nmemb → (i < l) ⊎ (r ≤ i) → is_zero (order (base + i * size)) ≡ false)
    → (p : Addr) × (bsearch_loop f order base size l r ≡ some p) × Search order base nmemb size p
unfolding bsearch_loop
bsearch_loop-Search order base nmemb size zero l r sorted low top fuel out = absurd (omega arith)
bsearch_loop-Search order base nmemb size (suc f) l r sorted low top fuel out =
    let m : ℕ = l + (r - l) / 2 in
    elim (Bool-cases (ltb l r)) [
      | inr done ↦
          let shut : r ≤ l = ltb→ge l r done in
          (null, rw done refl, inr (refl, λ i lt. out i lt (sides i l r shut)))
      | inl more ↦
          let lt : l < r = ltb→lt l r more in
          elim (Bool-cases (is_zero (order (base + m * size)))) [
            | inl hit ↦ (base + m * size, rw (more, hit) refl, inl (m, omega arith, refl, hit))
            | inr miss ↦ elim (Bool-cases (is_neg (order (base + m * size)))) [
              | inl less ↦
                  let (p, run, res) =
                    bsearch_loop-Search order base nmemb size f l m sorted (omega arith)
                      (omega arith) (omega arith)
                      (λ i i_lt. elim [
                        | inl left ↦ out i i_lt (inl left)
                        | inr right ↦ neg-zero _ (sorted.above_stay m i right i_lt less)
                      ]) in
                  (p, rw (more, miss, less) run, res)
              | inr more_than ↦
                  let (p, run, res) =
                    bsearch_loop-Search order base nmemb size f (m + 1) r sorted (omega arith) top
                      (omega arith)
                      (λ i i_lt. elim [
                        | inl left ↦
                            (sorted.below_stay i m (omega arith) (omega arith) more_than miss).1
                        | inr right ↦ out i i_lt (inr right)
                      ]) in
                  (p, rw (more, miss, more_than) run, res)
            ]
          ]
    ]

-- Where the elements are sorted for the key and the fuel exceeds their number, bsearch returns the
-- address of an element that compares equal to the key, or null, and then no element does.
pub bsearch-Search :
    (order : Addr → ℤ) (base nmemb size fuel : ℕ)
    → IsOrdered order base nmemb size
    → nmemb < fuel
    → (p : Addr) × (bsearch fuel order base nmemb size ≡ some p) × Search order base nmemb size p
unfolding bsearch
bsearch-Search order base nmemb size fuel sorted enough =
    bsearch_loop-Search order base nmemb size fuel 0 nmemb sorted (omega arith) (omega arith)
      (omega arith)
      (λ i lt. elim [ inl left ↦ absurd (omega arith) | inr right ↦ absurd (omega arith) ])
