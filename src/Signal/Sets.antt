-- ===== src/Signal/Sets.antt =====
-- The sets of src/signal.c are sets of the signals from 1 to 31.
use c_lite.Base.{
  ℕ, zero, suc, ◌≤◌, ◌<◌, ◌≡◌, refl, inl, inr, Bool, false, not, ◌&&◌, ◌||◌, Option, some, lt→ltb,
  ◌==◌, ==→eq, ==→ne, ne→==, ==_refl, if◌then◌else◌, Bool-cases, arith,
}
use c_lite.Base.Int.{ℤ, pos}
use c_lite.Signal.{
  Word, bit, or_word, and_word, complement, any_bit, bit_of, sigaddset, sigdelset, sigismember,
  nsig,
}

any_bit-ge : (a : Word) (k n : ℕ) → n ≤ k → any_bit n (and_word a (bit k)) ≡ false
unfolding any_bit
any_bit-ge a k zero h = refl
any_bit-ge a k (suc n) h =
    rw (ne→== n k (omega arith), any_bit-ge a k n (omega arith)) (ground arith)

any_bit-bit : (a : Word) (k n : ℕ) → k < n → any_bit n (and_word a (bit k)) ≡ a k
unfolding any_bit
any_bit-bit a k zero h = elim h [ ]
any_bit-bit a k (suc n) h = elim (Bool-cases (n == k)) [
  | inl same ↦ rw (==→eq n k same, ==_refl k, any_bit-ge a k k (omega arith)) (ground arith)
  | inr other ↦ rw (other, any_bit-bit a k n (omega (arith, ==→ne n k other))) (ground arith)
]

-- The signals of a set.
abbrev pub signals : Option Word → ℕ → ℤ
signals set m = sigismember set (pos (suc m))

pub bit_of-suc : (k : ℕ) → suc k < nsig → bit_of (pos (suc k)) ≡ some k
unfolding bit_of
bit_of-suc k h = rw (lt→ltb (suc k) nsig h) refl

sigismember-bit :
    (a : Word) (m : ℕ) → suc m < nsig → signals (some a) m ≡ (if a m then pos 1 else pos 0)
unfolding sigismember
sigismember-bit a m h = rw (bit_of-suc m h, any_bit-bit a m 32 (omega arith)) refl

if_or :
    (b c : Bool)
    → (if b || c then pos 1 else pos 0) ≡ (if c then pos 1 else if b then pos 1 else pos 0)
if_or b c = ground arith

if_and :
    (b c : Bool)
    → (if b && not c then pos 1 else pos 0) ≡ (if c then pos 0 else if b then pos 1 else pos 0)
if_and b c = ground arith

module _ (a : Word) (k m : ℕ) (valid : suc k < nsig) (asked : suc m < nsig) where
  -- For the signals k + 1 and m + 1 below 32: after sigaddset of the one, sigismember of the other is
  -- 1 if they are the same and what it was if they are not; after sigdelset it is 0 if they are the
  -- same and what it was if they are not.
  pub sigismember-sigaddset :
      (signals (sigaddset (some a) (pos (suc k))).1 m
        ≡ (if m == k then pos 1 else signals (some a) m))
      × (signals (sigdelset (some a) (pos (suc k))).1 m
          ≡ (if m == k then pos 0 else signals (some a) m))
  unfolding sigaddset sigdelset
  sigismember-sigaddset = (
    rw (bit_of-suc k valid, sigismember-bit (or_word a (bit k)) m asked, sigismember-bit a m asked)
        (if_or (a m) (m == k)),
    rw
        (
          bit_of-suc k valid,
          sigismember-bit (and_word a (complement (bit k))) m asked,
          sigismember-bit a m asked,
        )
        (if_and (a m) (m == k)),
  )
