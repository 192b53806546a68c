-- ===== src/Stdlib/Sort/Swaps.antt =====
-- Rearrangements of a range of an array by swaps.
use c_lite.Base.{
  ℕ, ◌≤◌, ◌<◌, ◌≡◌, ◌≢◌, refl, ◌∙◌, ◌⊎◌, inl, inr, ◌==◌, ==→eq, eq→==, ne→==, arith, Bool-cases,
}
use c_lite.Stdlib.Sort.{swap}

module _ {ℓ} {A : Type ℓ} where
  -- `c` is made from `a` by swaps of elements from `lo` on and below `hi`.
  pub data Swapped (lo hi : ℕ) : (ℕ → A) → (ℕ → A) → Type ℓ where
    unmoved : (a : ℕ → A) → Swapped lo hi a a
    swapped :
        (a c : ℕ → A) (i j : ℕ)
        → lo ≤ i
        → i < hi
        → lo ≤ j
        → j < hi
        → Swapped lo hi (swap a i j) c
        → Swapped lo hi a c

  pub Swapped-trans :
      (lo hi : ℕ) (a b c : ℕ → A) → Swapped lo hi a b → Swapped lo hi b c → Swapped lo hi a c
  Swapped-trans lo hi a _ c (unmoved _) q = q
  Swapped-trans lo hi a b c (swapped _ _ i j p1 p2 p3 p4 r) q =
      swapped a c i j p1 p2 p3 p4 (Swapped-trans lo hi (swap a i j) b c r q)

  pub Swapped-wider :
      (lo hi lo' hi' : ℕ) (a c : ℕ → A)
      → lo' ≤ lo
      → hi ≤ hi'
      → Swapped lo hi a c
      → Swapped lo' hi' a c
  Swapped-wider lo hi lo' hi' a _ l h (unmoved _) = unmoved a
  Swapped-wider lo hi lo' hi' a c l h (swapped _ _ i j p1 p2 p3 p4 r) =
      swapped a c i j (omega arith) (omega arith) (omega arith) (omega arith)
        (Swapped-wider lo hi lo' hi' (swap a i j) c l h r)

  pub swap_other : (a : ℕ → A) (i j k : ℕ) → k ≢ i → k ≢ j → swap a i j k ≡ a k
  unfolding swap
  swap_other a i j k ni nj = rw (ne→== k i ni, ne→== k j nj)

  pub swap_left : (a : ℕ → A) (i j : ℕ) → swap a i j i ≡ a j
  unfolding swap
  swap_left a i j = rw (eq→== i i refl)

  pub swap_right : (a : ℕ → A) (i j : ℕ) → swap a i j j ≡ a i
  unfolding swap
  swap_right a i j = elim (Bool-cases (j == i)) [
    | inl e ↦ rw (e, ==→eq j i e) refl
    | inr ne ↦ rw (ne, eq→== j j refl) refl
  ]

  -- What lies outside the range stays.
  pub Swapped-outside :
      (lo hi : ℕ) (a c : ℕ → A) (k : ℕ) → (k < lo) ⊎ (hi ≤ k) → Swapped lo hi a c → c k ≡ a k
  Swapped-outside lo hi a _ k out (unmoved _) = refl
  Swapped-outside lo hi a c k out (swapped _ _ i j p1 p2 p3 p4 r) =
      Swapped-outside lo hi (swap a i j) c k out r
      ∙ swap_other a i j k (ground arith) (ground arith)

  swap-all :
      (P : A → Type 0) (lo hi : ℕ) (a : ℕ → A) (i j : ℕ)
      → P (a i)
      → P (a j)
      → ((k : ℕ) → lo ≤ k → k < hi → P (a k))
      → (k : ℕ) → lo ≤ k
      → k < hi
      → P (swap a i j k)
  unfolding swap
  swap-all P lo hi a i j pi pj all k l h = elim (Bool-cases (k == i)) [
    | inl at_i ↦ rw at_i pj
    | inr off_i ↦ elim (Bool-cases (k == j)) [
      | inl at_j ↦ rw (off_i, at_j) pi
      | inr off_j ↦ rw (off_i, off_j) (all k l h)
    ]
  ]

  -- What holds of all elements of the range holds of them after the swaps.
  pub Swapped-all :
      (P : A → Type 0) (lo hi : ℕ) (a c : ℕ → A)
      → Swapped lo hi a c
      → ((k : ℕ) → lo ≤ k → k < hi → P (a k))
      → (k : ℕ) → lo ≤ k
      → k < hi
      → P (c k)
  Swapped-all P lo hi a _ (unmoved _) all = all
  Swapped-all P lo hi a c (swapped _ _ i j p1 p2 p3 p4 r) all =
      Swapped-all P lo hi (swap a i j) c r (swap-all P lo hi a i j (all i p1 p2) (all j p3 p4) all)
