-- ===== src/Stdlib/Sort/Partition.antt =====
-- The partition of qsort.
use c_lite.Base.{
  ℕ, zero, suc, ◌+◌, ◌≤◌, ◌<◌, ◌≡◌, ◌≢◌, ap, ◌∙◌, inl, inr, true, false, ◌==◌, ==→eq, ==→ne, arith,
  Bool-cases,
}
use c_lite.Base.Int.{ℤ}
use c_lite.Stdlib.Sort.{swap, at_most, partition_loop}
use c_lite.Stdlib.Sort.Swaps.{Swapped, unmoved, swapped, swap_other, swap_left, swap_right}

module _ {ℓ} {A : Type ℓ} (compar : A → A → ℤ) (b last : ℕ) (p : A) where
  -- From `b` on the elements below `m` are at most the pivot, those from there to `e` are not.
  pub record IsSplit (c : ℕ → A) (m e : ℕ) : Type ℓ where
    pub pivot : c last ≡ p
    pub low : (k : ℕ) → b ≤ k → k < m → at_most compar (c k) p ≡ true
    pub high : (k : ℕ) → m ≤ k → k < e → at_most compar (c k) p ≡ false

  step_moved :
      (a : ℕ → A) (m e m' e' : ℕ)
      → m' ≡ m + 1
      → e' ≡ e + 1
      → b ≤ m
      → m ≤ e
      → e < last
      → IsSplit a m e
      → at_most compar (a e) p ≡ true
      → IsSplit (swap a m e) m' e'
  step_moved a m e m' e' em ee bm me el h t = record {
    pivot = swap_other a m e last (omega arith) (omega arith) ∙ h.pivot;
    low = λ k l u. elim (Bool-cases (k == m)) [
      | inl at_m ↦ rw (==→eq k m at_m, swap_left a m e) t
      | inr off ↦
          let ne : k ≢ m = ==→ne k m off in
          rw (swap_other a m e k ne (omega arith)) (h.low k l (omega arith))
    ];
    high = λ k l u. elim (Bool-cases (k == e)) [
      | inl at_e ↦
          let same : k ≡ e = ==→eq k e at_e in
          rw (same, swap_right a m e) (h.high m (omega arith) (omega arith))
      | inr off ↦
          let ne : k ≢ e = ==→ne k e off in
          rw (swap_other a m e k (omega arith) ne) (h.high k (omega arith) (omega arith))
    ];
  }

  step_kept :
      (a : ℕ → A) (m e e' : ℕ)
      → e' ≡ e + 1
      → IsSplit a m e
      → at_most compar (a e) p ≡ false
      → IsSplit a m e'
  step_kept a m e e' ee h t = record {
    pivot = h.pivot;
    low = h.low;
    high = λ k l u. elim (Bool-cases (k == e)) [
      | inl at_e ↦ rw (==→eq k e at_e) t
      | inr off ↦ let ne : k ≢ e = ==→ne k e off in h.high k l (omega arith)
    ];
  }

  abbrev pub Partitioned : (ℕ → A) → (ℕ → A) × ℕ → Type ℓ
  Partitioned a (c, n) = Swapped b last a c × (b + n ≤ last) × IsSplit c (b + n) last

  pub partition_loop-Partitioned :
      (todo j i : ℕ) (a : ℕ → A)
      → i ≤ j
      → b + (j + todo) ≡ last
      → IsSplit a (b + i) (b + j)
      → Partitioned a (partition_loop compar b last todo j i a)
  unfolding partition_loop
  partition_loop-Partitioned zero j i a ij e h = (
    unmoved a,
    omega arith,
    record { pivot = h.pivot; low = h.low; high = λ k l u. h.high k l (omega arith) },
  )
  partition_loop-Partitioned (suc todo) j i a ij e h =
      let next : b + (j + 1 + todo) ≡ last = omega arith in
      elim (Bool-cases (at_most compar (a (b + j)) p)) [
        | inl t ↦
            let (swaps, top, split) =
              partition_loop-Partitioned todo (j + 1) (i + 1) (swap a (b + i) (b + j)) (omega arith)
                next
                (step_moved a (b + i) (b + j) (b + (i + 1)) (b + (j + 1)) (omega arith)
                  (omega arith) (omega arith) (omega arith) (omega arith) h t) in
            rw (ap (at_most compar (a (b + j))) h.pivot ∙ t) (
              swapped a _ (b + i) (b + j) (omega arith) (omega arith) (omega arith) (omega arith)
                  swaps,
              top,
              split,
            )
        | inr t ↦ rw (ap (at_most compar (a (b + j))) h.pivot ∙ t) (
            partition_loop-Partitioned todo (j + 1) i a (omega arith) next
              (step_kept a (b + i) (b + j) (b + (j + 1)) (omega arith) h t))
      ]
