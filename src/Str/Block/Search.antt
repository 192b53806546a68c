-- ===== src/Str/Block/Search.antt =====
-- memchr, memrchr, memcmp and memmem: what they find.
use mathlib.Core.Path.{subst}
use native.Mathlib.Decide.{ℕ_discrete}
use c_lite.Base.{
  ℕ, zero, suc, ◌+◌, ◌-◌, ◌≤◌, ◌<◌, ◌≡◌, ◌≢◌, ◌↔◌, refl, ◌⊎◌, inl, inr, List, [], ◌∷◌, arith, tests,
  ==→ne, ltb, ◌==◌, if◌then◌else◌, Bool-cases,
}
use c_lite.Base.Int.{ℤ, pos, sub_ℕ, is_zero, is_zero→eq, is_zero→ne}
use c_lite.Memory.{Addr, null, Mem, peek}
use c_lite.Str.Block.{byte, memcmp_loop, memcmp, memchr_loop, memchr, memrchr, memmem_loop, memmem}

-- `r` is `p + i` for the least `i` of the range with `P i`, or null where there is none.
abbrev pub IsFirst : (ℕ → Type 0) → ℕ → ℕ → Addr → Addr → Type 0
IsFirst P lo hi p r =
    ((r ≡ null) × ((j : ℕ) → lo ≤ j → j < hi → ¬ P j))
    ⊎ ((i : ℕ) × (lo ≤ i) × (i < hi) × (r ≡ p + i) × P i × ((j : ℕ) → lo ≤ j → j < i → ¬ P j))

-- The same for the greatest such `i`.
abbrev pub IsLast : (ℕ → Type 0) → ℕ → Addr → Addr → Type 0
IsLast P hi p r =
    ((r ≡ null) × ((j : ℕ) → j < hi → ¬ P j))
    ⊎ ((i : ℕ) × (i < hi) × (r ≡ p + i) × P i × ((j : ℕ) → i < j → j < hi → ¬ P j))

module _ (P : ℕ → Type 0) where
  -- No hit at `k` and none on the rest of the range.
  none_below :
      (k : ℕ) (R : ℕ → Type 0) → ¬ P k → ((j : ℕ) → j ≢ k → R j → ¬ P j) → (j : ℕ) → R j → ¬ P j
  none_below k R miss rest j r = elim (ℕ_discrete j k) [
    | yes e ↦ λ here. miss (subst P e here)
    | no ne ↦ rest j ne r
  ]

  pub IsFirst-nil : (p lo hi : ℕ) → hi ≤ lo → IsFirst P lo hi p null
  IsFirst-nil p lo hi h = inl (refl, λ j a b. absurd (omega arith))

  pub IsFirst-hit : (p lo hi : ℕ) → lo < hi → P lo → IsFirst P lo hi p (p + lo)
  IsFirst-hit p lo hi h here = inr (lo, omega arith, h, refl, here, λ j a b. absurd (omega arith))

  -- A miss at `lo` leaves the search to the rest of the range.
  pub IsFirst-miss :
      (p lo hi : ℕ) (r : Addr) → ¬ P lo → IsFirst P (lo + 1) hi p r → IsFirst P lo hi p r
  IsFirst-miss p lo hi r miss (inl (e, later)) = inl (
    e,
    λ j a b.
        none_below lo (λ j. (lo ≤ j) × (j < hi)) miss (λ j ne (a, b). later j (omega arith) b) j
          (a, b),
  )
  IsFirst-miss p lo hi r miss (inr (i, above, below, e, here, before)) = inr (
    i,
    omega arith,
    below,
    e,
    here,
    λ j a b.
        none_below lo (λ j. (lo ≤ j) × (j < i)) miss (λ j ne (a, b). before j (omega arith) b) j
          (a, b),
  )

  -- The same, where the rest of the range is searched from the next byte on.
  pub IsFirst-next :
      (p hi : ℕ) (r : Addr)
      → ¬ P 0
      → IsFirst (λ j. P (suc j)) 0 hi (p + 1) r
      → IsFirst P 0 (suc hi) p r
  IsFirst-next p hi r miss (inl (e, later)) =
      inl (e, elim [ zero ↦ λ a b. miss | suc j ↦ λ a b. later j (omega arith) (omega arith) ])
  IsFirst-next p hi r miss (inr (i, above, below, e, here, before)) = inr (
    suc i,
    omega arith,
    omega arith,
    omega arith,
    here,
    elim [ zero ↦ λ a b. miss | suc j ↦ λ a b. before j (omega arith) (omega arith) ],
  )

  pub IsLast-miss : (p hi : ℕ) (r : Addr) → ¬ P hi → IsLast P hi p r → IsLast P (suc hi) p r
  IsLast-miss p hi r miss (inl (e, before)) =
      inl (e, none_below hi (λ j. j < suc hi) miss λ j ne a. before j (omega arith))
  IsLast-miss p hi r miss (inr (i, below, e, here, later)) = inr (
    i,
    omega arith,
    e,
    here,
    λ j a b.
        none_below hi (λ j. (i < j) × (j < suc hi)) miss (λ j ne (a, b). later j a (omega arith)) j
          (a, b),
  )

memchr_loop-IsFirst :
    (n i hi : ℕ) (m : Mem) (p : Addr) (c : ℕ)
    → i + n ≡ hi
    → IsFirst (λ j. m (p + j) ≡ byte c) i hi p (memchr_loop n i m p c)
unfolding memchr_loop
memchr_loop-IsFirst zero i hi m p c e = IsFirst-nil _ p i hi (omega arith)
memchr_loop-IsFirst (suc n) i hi m p c e = elim (Bool-cases (m (p + i) == byte c)) [
  | inl hit ↦ rw hit (IsFirst-hit _ p i hi (omega arith) (omega (tests, hit)))
  | inr miss ↦ rw miss (
      IsFirst-miss _ p i hi _ (==→ne _ _ miss)
        (memchr_loop-IsFirst n (i + 1) hi m p c (omega arith)))
]

-- memchr returns the address of the first of the `n` bytes that is `(unsigned char)c`, and null
-- where none of them is.
pub memchr-IsFirst :
    (m : Mem) (s : Addr) (c n : ℕ) → IsFirst (λ j. m (s + j) ≡ byte c) 0 n s (memchr m s c n)
unfolding memchr
memchr-IsFirst m s c n = memchr_loop-IsFirst n 0 n m s c (omega arith)

-- memrchr returns the address of the last of the `n` bytes that is `(unsigned char)c`, and null
-- where none of them is.
pub memrchr-IsLast :
    (m : Mem) (s : Addr) (c n : ℕ) → IsLast (λ j. m (s + j) ≡ byte c) n s (memrchr m s c n)
unfolding memrchr
memrchr-IsLast m s c zero = inl (refl, λ j a. absurd (omega arith))
memrchr-IsLast m s c (suc n) = elim (Bool-cases (m (s + n) == byte c)) [
  | inl hit ↦ rw hit (inr (n, omega arith, refl, omega (tests, hit), λ j a b. absurd (omega arith)))
  | inr miss ↦ rw miss (IsLast-miss _ s n _ (==→ne _ _ miss) (memrchr-IsLast m s c n))
]

-- The difference of the first two bytes that differ, 0 where there are none.
pub first_difference : List ℕ → List ℕ → ℤ
first_difference [] ys = pos 0
first_difference (x ∷ xs) [] = pos 0
first_difference (x ∷ xs) (y ∷ ys) =
    let rest = first_difference xs ys in if x == y then rest else sub_ℕ x y

memcmp_loop-peek :
    (n i : ℕ) (m : Mem) (a b p q : Addr)
    → p ≡ a + i
    → q ≡ b + i
    → memcmp_loop n i m a b ≡ first_difference (peek m p n) (peek m q n)
unfolding memcmp_loop first_difference peek
memcmp_loop-peek zero i m a b p q ep eq = refl
memcmp_loop-peek (suc n) i m a b p q ep eq =
    rw (← ep, ← eq, memcmp_loop-peek n (i + 1) m a b (p + 1) (q + 1) (omega arith) (omega arith))

-- memcmp subtracts the first two bytes that differ.
pub memcmp-first_difference :
    (m : Mem) (a b : Addr) (n : ℕ) → memcmp m a b n ≡ first_difference (peek m a n) (peek m b n)
unfolding memcmp
memcmp-first_difference m a b n = memcmp_loop-peek n 0 m a b a b (omega arith) (omega arith)

first_difference-zero :
    (n : ℕ) (m : Mem) (a b : Addr)
    → (first_difference (peek m a n) (peek m b n) ≡ pos 0) ↔ (peek m a n ≡ peek m b n)
unfolding first_difference peek
first_difference-zero zero m a b = (λ _. refl, λ _. refl)
first_difference-zero (suc n) m a b =
    let ih = first_difference-zero n m (a + 1) (b + 1) in
    (λ h. ground (arith, ih), λ h. ground (arith, ih))

-- memcmp is 0 exactly where the two blocks hold the same bytes.
pub memcmp-zero :
    (m : Mem) (a b : Addr) (n : ℕ) → (memcmp m a b n ≡ pos 0) ↔ (peek m a n ≡ peek m b n)
memcmp-zero m a b n = rw memcmp-first_difference (first_difference-zero n m a b)

memmem_loop-IsFirst :
    (k i hi : ℕ) (m : Mem) (h n : Addr) (len : ℕ)
    → i + k ≡ hi
    → IsFirst (λ j. peek m (h + j) len ≡ peek m n len) i hi h (memmem_loop k i m h n len)
unfolding memmem_loop
memmem_loop-IsFirst zero i hi m h n len e = IsFirst-nil _ h i hi (omega arith)
memmem_loop-IsFirst (suc k) i hi m h n len e =
    elim (Bool-cases (is_zero (memcmp m (h + i) n len))) [
      | inl hit ↦
          rw hit (
            IsFirst-hit _ h i hi (omega arith) ((memcmp-zero m (h + i) n len).0 (is_zero→eq _ hit)))
      | inr miss ↦ rw miss (
          IsFirst-miss _ h i hi _ (λ same. is_zero→ne _ miss ((memcmp-zero m (h + i) n len).1 same))
            (memmem_loop-IsFirst k (i + 1) hi m h n len (omega arith)))
    ]

-- memmem returns the address of the first of the places `j` with `j + needlelen <= haystacklen`
-- where the needle's bytes stand, and null where there is none.
pub memmem-IsFirst :
    (m : Mem) (h : Addr) (hlen : ℕ) (n : Addr) (len : ℕ)
    → IsFirst (λ j. peek m (h + j) len ≡ peek m n len) 0 (hlen + 1 - len) h (memmem m h hlen n len)
unfolding memmem peek
memmem-IsFirst m h hlen n len = elim (Bool-cases (len == 0)) [
  | inl empty ↦
      let e : len ≡ 0 = omega (tests, empty) in
      rw empty (inr (0, omega arith, omega arith, omega arith, rw (e, peek), λ j a b. elim b [ ]))
  | inr full ↦ elim (Bool-cases (ltb hlen len)) [
    | inl short ↦ rw (full, short) (IsFirst-nil _ h 0 _ (omega (tests, short)))
    | inr long ↦
        rw (full, long)
          (memmem_loop-IsFirst (hlen - len + 1) 0 (hlen + 1 - len) m h n len (omega (tests, long)))
  ]
]
