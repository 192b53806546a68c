-- ===== src/Stdlib/Sort/Sorts.antt =====
-- qsort sorts.
use c_lite.Base.{
  ℕ, zero, suc, ◌+◌, ◌-◌, ◌≤◌, ◌<◌, ◌≡◌, ◌≢◌, refl, ◌∙◌, inl, inr, true, false, Option, some, ltb,
  ltb→lt, ltb→ge, ◌==◌, ==→eq, ==→ne, if◌then◌else◌, arith, Bool-cases,
}
use c_lite.Base.Int.{ℤ}
use c_lite.Stdlib.Sort.{swap, at_most, partition_loop, qsort}
use c_lite.Stdlib.Sort.Swaps.{
  Swapped, unmoved, swapped, Swapped-trans, Swapped-wider, Swapped-outside, Swapped-all, swap_other,
  swap_left, swap_right,
}
use c_lite.Stdlib.Sort.Partition.{IsSplit, partition_loop-Partitioned}

-- The comparison is a total preorder.
pub record IsOrder {ℓ} {A : Type ℓ} (compar : A → A → ℤ) : Type ℓ where
  pub total : (x y : A) → at_most compar x y ≡ false → at_most compar y x ≡ true
  pub trans :
      (x y z : A)
      → at_most compar x y ≡ true
      → at_most compar y z ≡ true
      → at_most compar x z ≡ true

module _ {ℓ} {A : Type ℓ} (compar : A → A → ℤ) where
  -- Each element from `lo` on and below `hi` is at most those behind it.
  abbrev pub IsSorted : ℕ → ℕ → (ℕ → A) → Type 0
  IsSorted lo hi c = (i j : ℕ) → lo ≤ i → i ≤ j → j < hi → at_most compar (c i) (c j) ≡ true

  -- A result of sorting the elements of the range.
  abbrev pub Sorts : ℕ → ℕ → (ℕ → A) → Option (ℕ → A) → Type ℓ
  Sorts lo hi a r = (c : ℕ → A) × (r ≡ some c) × Swapped lo hi a c × IsSorted lo hi c

  module _ (ord : IsOrder compar) where
    reflexive : (x : A) → at_most compar x x ≡ true
    reflexive x = elim (Bool-cases (at_most compar x x)) [ inl t ↦ t | inr f ↦ ord.total x x f ]

    short-IsSorted : (lo hi : ℕ) (a : ℕ → A) → hi ≤ lo + 1 → IsSorted lo hi a
    short-IsSorted lo hi a short i j l ij u = let e : j ≡ i = omega arith in rw e (reflexive (a i))

    -- A call under `if (n > 1)`.
    part-Sorts :
        (lo n : ℕ) (a : ℕ → A) (r : Option (ℕ → A))
        → Sorts lo (lo + n) a r
        → Sorts lo (lo + n) a (if ltb 1 n then r else some a)
    part-Sorts lo n a r h = elim (Bool-cases (ltb 1 n)) [
      | inl long ↦ rw long h
      | inr short ↦
          let few : n ≤ 1 = ltb→ge 1 n short in
          rw short (a, refl, unmoved a, short-IsSorted lo (lo + n) a (omega arith))
    ]

    -- The elements below `m` are at most `p`, which stands at `m`, and those above are at least `p`.
    abbrev IsBetween : (ℕ → A) → ℕ → ℕ → ℕ → A → Type ℓ
    IsBetween c lo m hi p =
        (c m ≡ p)
        × ((k : ℕ) → lo ≤ k → k < m → at_most compar (c k) p ≡ true)
        × ((k : ℕ) → m < k → k < hi → at_most compar p (c k) ≡ true)

    joined-IsSorted :
        (c : ℕ → A) (lo m hi : ℕ) (p : A)
        → IsBetween c lo m hi p
        → IsSorted lo m c
        → IsSorted (m + 1) hi c
        → IsSorted lo hi c
    joined-IsSorted c lo m hi p (at, low, high) left right i j l ij u =
        elim (Bool-cases (ltb j m)) [
          | inl below ↦ let lt : j < m = ltb→lt j m below in left i j l ij lt
          | inr above ↦
              let ge : m ≤ j = ltb→ge j m above in
              elim (Bool-cases (ltb m i)) [
                | inl later ↦ let lt : m < i = ltb→lt m i later in right i j (omega arith) ij u
                | inr early ↦
                    let le : i ≤ m = ltb→ge m i early in
                    ord.trans (c i) p (c j) (upto i l le) (from j ge u)
              ]
        ]
      where
        upto : (k : ℕ) → lo ≤ k → k ≤ m → at_most compar (c k) p ≡ true
        upto k l le = elim (Bool-cases (k == m)) [
          | inl e ↦ rw (==→eq k m e, at) (reflexive p)
          | inr ne ↦ let off : k ≢ m = ==→ne k m ne in low k l (omega arith)
        ]

        from : (k : ℕ) → m ≤ k → k < hi → at_most compar p (c k) ≡ true
        from k ge u = elim (Bool-cases (k == m)) [
          | inl e ↦ rw (==→eq k m e, at) (reflexive p)
          | inr ne ↦ let off : k ≢ m = ==→ne k m ne in high k (omega arith) u
        ]

    pivot-IsBetween :
        (a : ℕ → A) (b last m hi : ℕ) (p : A)
        → hi ≡ last + 1
        → b ≤ m
        → m ≤ last
        → IsSplit compar b last p a m last
        → IsBetween (swap a m last) b m hi p
    pivot-IsBetween a b last m hi p end bm ml h = (
      swap_left a m last ∙ h.pivot,
      λ k l u. rw (swap_other a m last k (omega arith) (omega arith)) (h.low k l u),
      λ k l u. elim (Bool-cases (k == last)) [
        | inl e ↦
            let same : k ≡ last = ==→eq k last e in
            rw (same, swap_right a m last)
              (ord.total (a m) p (h.high m (omega arith) (omega arith)))
        | inr ne ↦
            let off : k ≢ last = ==→ne k last ne in
            rw (swap_other a m last k (omega arith) off)
              (ord.total (a k) p (h.high k (omega arith) (omega arith)))
      ],
    )

    -- Sorting one side keeps the pivot in its place.
    below-IsBetween :
        (x y : ℕ → A) (lo m hi : ℕ) (p : A)
        → lo ≤ m
        → IsBetween x lo m hi p
        → Swapped lo m x y
        → IsBetween y lo m hi p
    below-IsBetween x y lo m hi p lm (at, low, high) moves = (
      Swapped-outside lo m x y m (inr (omega arith)) moves ∙ at,
      Swapped-all (λ e. at_most compar e p ≡ true) lo m x y moves low,
      λ k l u. rw (Swapped-outside lo m x y k (inr (omega arith)) moves) (high k l u),
    )

    above-IsBetween :
        (x y : ℕ → A) (lo m hi : ℕ) (p : A)
        → IsBetween x lo m hi p
        → Swapped (m + 1) hi x y
        → IsBetween y lo m hi p
    above-IsBetween x y lo m hi p (at, low, high) moves = (
      Swapped-outside (m + 1) hi x y m (inl (omega arith)) moves ∙ at,
      λ k l u. rw (Swapped-outside (m + 1) hi x y k (inl (omega arith)) moves) (low k l u),
      λ k l u.
          Swapped-all (λ e. at_most compar p e ≡ true) (m + 1) hi x y moves
            (λ k' l' u'. high k' (omega arith) u') k (omega arith) u,
    )

    -- What the two calls of qsort make of the partitioned array.
    halves-Sorts :
        (a whole half c : ℕ → A) (lo m hi : ℕ) (p : A)
        → lo ≤ m
        → m < hi
        → Swapped lo hi a whole
        → IsBetween whole lo m hi p
        → Swapped lo m whole half
        → IsSorted lo m half
        → Swapped (m + 1) hi half c
        → IsSorted (m + 1) hi c
        → Swapped lo hi a c × IsSorted lo hi c
    halves-Sorts a whole half c lo m hi p lm mh moves between moves_l sorted_l moves_r sorted_r =
        let wide_l = Swapped-wider lo m lo hi whole half (omega arith) (omega arith) moves_l in
        let wide_r = Swapped-wider (m + 1) hi lo hi half c (omega arith) (omega arith) moves_r in
        let between_l = below-IsBetween whole half lo m hi p lm between moves_l in
        let between_r = above-IsBetween half c lo m hi p between_l moves_r in
        let kept : IsSorted lo m c = λ i j l ij u.
          rw
            (
              Swapped-outside (m + 1) hi half c i (inl (omega arith)) moves_r,
              Swapped-outside (m + 1) hi half c j (inl (omega arith)) moves_r,
            )
            (sorted_l i j l ij u) in
        (
          Swapped-trans lo hi a whole c moves (Swapped-trans lo hi whole half c wide_l wide_r),
          joined-IsSorted c lo m hi p between_r kept sorted_r,
        )

    -- For a comparison that is a total preorder and more fuel than elements, qsort returns; the
    -- elements of the range are rearranged by swaps within the range, so nothing else changes, and
    -- they are sorted.
    pub qsort-Sorts : (f b n : ℕ) (a : ℕ → A) → n < f → Sorts b (b + n) a (qsort f compar b n a)
    unfolding qsort
    qsort-Sorts zero b n a enough = absurd (omega arith)
    qsort-Sorts (suc f) b n a enough = elim (Bool-cases (ltb n 2)) [
      | inl short ↦
          let few : n < 2 = ltb→lt n 2 short in
          rw short (a, refl, unmoved a, short-IsSorted b (b + n) a (omega arith))
      | inr long ↦
          let many : 2 ≤ n = ltb→ge n 2 long in
          let last : ℕ = b + (n - 1) in
          let (moves, top, parted) =
            partition_loop-Partitioned compar b last (a last) (n - 1) 0 0 a (omega arith)
              (omega arith)
              (record {
                pivot = refl;
                low = λ k l u. absurd (omega arith);
                high = λ k l u. absurd (omega arith);
              }) in
          let r = partition_loop compar b last (n - 1) 0 0 a in
          let m : ℕ = b + r.1 in
          let whole = swap r.0 m last in
          let (half, run_l, moves_l, sorted_l) =
            part-Sorts b r.1 whole (qsort f compar b r.1 whole)
              (qsort-Sorts f b r.1 whole (omega arith)) in
          let (c, run_r, moves_r, sorted_r) =
            part-Sorts (b + (r.1 + 1)) (n - r.1 - 1) half
              (qsort f compar (b + (r.1 + 1)) (n - r.1 - 1) half)
              (qsort-Sorts f (b + (r.1 + 1)) (n - r.1 - 1) half (omega arith)) in
          let rest : ℕ = n - r.1 - 1 in
          let upper : Swapped (m + 1) (b + n) half c =
            Swapped-wider (b + (r.1 + 1)) (b + (r.1 + 1) + rest) (m + 1) (b + n) half c
              (omega arith) (omega arith) moves_r in
          let sorted_u : IsSorted (m + 1) (b + n) c =
            λ i j l ij u. sorted_r i j (omega arith) ij (omega arith) in
          let (swaps, sorted) =
            halves-Sorts a whole half c b m (b + n) (a last) (omega arith) (omega arith)
              (Swapped-trans b (b + n) a r.0 whole
                (Swapped-wider b last b (b + n) a r.0 (omega arith) (omega arith) moves)
                (swapped r.0 whole m last (omega arith) (omega arith) (omega arith) (omega arith)
                  (unmoved whole)))
              (pivot-IsBetween r.0 b last m (b + n) (a last) (omega arith) (omega arith) top parted)
              moves_l sorted_l upper sorted_u in
          (c, rw (long, run_l, run_r) refl, swaps, sorted)
    ]
