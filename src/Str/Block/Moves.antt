-- ===== src/Str/Block/Moves.antt =====
-- memcpy, mempcpy, memmove and memset of src/string.c against `poke` and `peek`.
use c_lite.Base.{
  ℕ, zero, suc, ◌+◌, ◌≤◌, ◌≡◌, refl, sym, ap, ◌∙◌, ◌⊎◌, inl, inr, [], ◌∷◌, arith, ltb, tests,
  Bool-cases, replicate,
}
use c_lite.Memory.{
  Addr, Mem, write, write_other, poke, peek, peek-frame, peek-append, poke-append, poke-write,
  poke-peek, length-peek,
}
use c_lite.Str.Block.{byte, copy_up, copy_down, memcpy, memmove, fill, memset}

-- The forward loop reads each byte before it is overwritten, if the source is not below the
-- destination or ends before it.
copy_up-poke :
    (n i : ℕ) (d s p q : Addr) (m : Mem)
    → p ≡ d + i
    → q ≡ s + i
    → (d ≤ s) ⊎ (q + n ≤ p)
    → copy_up n i d s m ≡ poke m p (peek m q n)
unfolding copy_up poke peek
copy_up-poke zero i d s p q m ep eq apart = refl
copy_up-poke (suc n) i d s p q m ep eq apart =
    rw (← ep, ← eq)
      (copy_up-poke n (i + 1) d s (p + 1) (q + 1) (write m p (m q)) (omega arith) (omega arith)
          (omega arith)
        ∙ ap (poke (write m p (m q)) (p + 1)) kept)
  where
    kept : peek (write m p (m q)) (q + 1) n ≡ peek m (q + 1) n
    kept = peek-frame m (write m p (m q)) (q + 1) n λ r lo hi. write_other m p (m q) r (omega arith)

copy_down-poke : (n : ℕ) (d s : Addr) (m : Mem) → s ≤ d → copy_down n d s m ≡ poke m d (peek m s n)
unfolding copy_down poke peek
copy_down-poke zero d s m h = refl
copy_down-poke (suc n) d s m h =
    copy_down-poke n d s (write m (d + n) v) h
    ∙ ap (poke (write m (d + n) v) d) kept
    ∙ poke-write m d (d + n) (peek m s n) v (omega (arith, length-peek m s n))
    ∙ sym (poke-append m d (d + n) (peek m s n) (v ∷ []) (omega (arith, length-peek m s n)))
    ∙ ap (poke m d) (sym (peek-append m s n))
  where
    v : ℕ
    v = m (s + n)

    kept : peek (write m (d + n) v) s n ≡ peek m s n
    kept = peek-frame m (write m (d + n) v) s n λ r lo hi. write_other m (d + n) v r (omega arith)

-- memcpy copies the source block to the destination, if the destination does not begin inside the
-- source, changes nothing else and returns the destination.
pub memcpy-poke :
    (m : Mem) (dest src n : ℕ)
    → (dest ≤ src) ⊎ (src + n ≤ dest)
    → memcpy m dest src n ≡ (poke m dest (peek m src n), dest)
unfolding memcpy
memcpy-poke m dest src n apart =
    ap (λ g. (g, dest)) (copy_up-poke n 0 dest src dest src m (omega arith) (omega arith) apart)

-- memmove copies the source block to the destination whichever way the two overlap.
pub memmove-poke :
    (m : Mem) (dest src n : ℕ) → memmove m dest src n ≡ (poke m dest (peek m src n), dest)
unfolding memmove
memmove-poke m dest src n = elim (Bool-cases (ltb dest src)) [
  | inl below ↦ rw below (
      ap (λ g. (g, dest))
        (copy_up-poke n 0 dest src dest src m (omega arith) (omega arith)
          (inl (omega (tests, below)))))
  | inr at_least ↦ elim (Bool-cases (ltb src dest)) [
    | inl above ↦
        rw (at_least, above)
          (ap (λ g. (g, dest)) (copy_down-poke n dest src m (omega (tests, above))))
    | inr at_most ↦
        let same : src ≡ dest = omega (tests, at_least, at_most) in
        rw (at_least, at_most, same) (ap (λ g. (g, dest)) (sym (poke-peek m dest n)))
  ]
]

fill-poke :
    (n i : ℕ) (s p : Addr) (c : ℕ) (m : Mem)
    → p ≡ s + i
    → fill n i s c m ≡ poke m p (replicate n (byte c))
unfolding fill poke
fill-poke zero i s p c m e = refl
fill-poke (suc n) i s p c m e =
    rw (← e) (fill-poke n (i + 1) s (p + 1) c (write m p (byte c)) (omega arith))

-- memset writes `n` times `(unsigned char)c` from `s` on, changes nothing else and returns `s`.
pub memset-poke :
    (m : Mem) (s : Addr) (c n : ℕ) → memset m s c n ≡ (poke m s (replicate n (byte c)), s)
unfolding memset
memset-poke m s c n = ap (λ g. (g, s)) (fill-poke n 0 s s c m (omega arith))
