-- ===== src/Str/Copy/Bounded.antt =====
-- strcat, strncat, strnlen, strncpy and stpncpy.
use c_lite.Base.{
  ℕ, zero, suc, ◌+◌, ◌-◌, ◌≤◌, ◌<◌, ◌≡◌, refl, sym, ap, ◌∙◌, ◌⊎◌, List, [], ◌∷◌, ◌++◌, some, arith,
  ne→==, eq→==, length, length-append, length-take, length-replicate, take, replicate, min,
}
use c_lite.Memory.{
  Addr, Mem, write, write_other, poke, poke-append, poke_outside, IsCString, IsCString-frame,
}
use c_lite.Str.Copy.{
  strnlen_loop, strnlen, skip_loop, strcat, copy_at_most, strncat, copy_indexed, pad, strncpy,
  stpncpy,
}
use c_lite.Str.Copy.Copies.{Apart, copy_loop-poke, end_write}

skip_loop-length :
    (xs : List ℕ) (k : ℕ) (m : Mem) (d : Addr)
    → IsCString m d xs
    → length xs < k
    → skip_loop k m d ≡ some (d + length xs)
unfolding skip_loop
skip_loop-length xs zero m d str fuel = absurd (omega arith)
skip_loop-length [] (suc k) m d str fuel = rw (eq→== _ _ str) (ap some (omega arith))
skip_loop-length (x ∷ xs) (suc k) m d (here, ne, str) fuel =
    rw (ne→== (m d) 0 (omega arith))
      (skip_loop-length xs k m (d + 1) str (omega arith) ∙ ap some (omega arith))

-- strcat writes the source and a NUL over the NUL of the destination, which is returned.
pub strcat-poke :
    (ys xs : List ℕ) (fuel : ℕ) (m : Mem) (dest src : Addr)
    → IsCString m dest ys
    → IsCString m src xs
    → Apart (dest + length ys) src (length xs)
    → length ys < fuel
    → length xs < fuel
    → strcat fuel m dest src ≡ some (poke m (dest + length ys) (xs ++ 0 ∷ []), dest)
unfolding strcat
strcat-poke ys xs fuel m dest src str_d str_s apart hy hx = rw (
  skip_loop-length ys fuel m dest str_d hy,
  copy_loop-poke xs fuel m (dest + length ys) src str_s apart hx,
  end_write m (dest + length ys) xs,
)

copy_at_most-poke :
    (xs : List ℕ) (n : ℕ) (m : Mem) (d s : Addr)
    → IsCString m s xs
    → Apart d s (length xs)
    → copy_at_most n m d s ≡ (poke m d (take n xs), d + length (take n xs))
unfolding copy_at_most poke
copy_at_most-poke xs zero m d s str apart = ap (λ p. (m, p)) (omega arith)
copy_at_most-poke [] (suc n) m d s str apart = rw (eq→== _ _ str) (ap (λ p. (m, p)) (omega arith))
copy_at_most-poke (x ∷ xs) (suc n) m d s (here, ne, str) apart =
    rw (ne→== (m s) 0 (omega arith), here)
      (copy_at_most-poke xs n (write m d x) (d + 1) (s + 1)
          (IsCString-frame m (write m d x) (s + 1) xs (λ q lo hi. write_other m d x q (omega arith))
            str)
          (omega arith)
        ∙ ap (λ p. (poke (write m d x) (d + 1) (take n xs), p)) (omega arith))

-- strncat appends at most `n` bytes of the source, and a NUL.
pub strncat-poke :
    (ys xs : List ℕ) (fuel : ℕ) (m : Mem) (dest src : Addr) (n : ℕ)
    → IsCString m dest ys
    → IsCString m src xs
    → Apart (dest + length ys) src (length xs)
    → length ys < fuel
    → strncat fuel m dest src n ≡ some (poke m (dest + length ys) (take n xs ++ 0 ∷ []), dest)
unfolding strncat
strncat-poke ys xs fuel m dest src n str_d str_s apart hy = rw (
  skip_loop-length ys fuel m dest str_d hy,
  copy_at_most-poke xs n m (dest + length ys) src str_s apart,
  end_write m (dest + length ys) (take n xs),
)

strnlen_loop-length :
    (xs : List ℕ) (n : ℕ) (m : Mem) (s p : Addr) (len : ℕ)
    → p ≡ s + len
    → IsCString m p xs
    → strnlen_loop n m s len ≡ len + min n (length xs)
unfolding strnlen_loop
strnlen_loop-length xs zero m s p len e str = omega arith
strnlen_loop-length [] (suc n) m s p len e str = rw (← e, eq→== _ _ str) (omega arith)
strnlen_loop-length (x ∷ xs) (suc n) m s p len e (here, ne, str) =
    rw (← e, ne→== (m p) 0 (omega arith))
      (strnlen_loop-length xs n m s (p + 1) (len + 1) (omega arith) str ∙ omega arith)

-- strnlen returns the smaller of `maxlen` and the length.
pub strnlen-min :
    (xs : List ℕ) (m : Mem) (s : Addr) (maxlen : ℕ)
    → IsCString m s xs
    → strnlen m s maxlen ≡ min maxlen (length xs)
unfolding strnlen
strnlen-min xs m s maxlen str =
    strnlen_loop-length xs maxlen m s s 0 (omega arith) str ∙ omega arith

copy_indexed-poke :
    (xs : List ℕ) (n i : ℕ) (m : Mem) (d s p q : Addr)
    → p ≡ d + i
    → q ≡ s + i
    → IsCString m q xs
    → Apart p q (length xs)
    → copy_indexed n i m d s ≡ (poke m p (take n xs), i + min n (length xs))
unfolding copy_indexed poke
copy_indexed-poke xs zero i m d s p q ep eq str apart = ap (λ k. (m, k)) (omega arith)
copy_indexed-poke [] (suc n) i m d s p q ep eq str apart =
    rw (← eq, eq→== _ _ str) (ap (λ k. (m, k)) (omega arith))
copy_indexed-poke (x ∷ xs) (suc n) i m d s p q ep eq (here, ne, str) apart =
    rw (← eq, ← ep, ne→== (m q) 0 (omega arith), here)
      (copy_indexed-poke xs n (i + 1) (write m p x) d s (p + 1) (q + 1) (omega arith) (omega arith)
          (IsCString-frame m (write m p x) (q + 1) xs (λ r lo hi. write_other m p x r (omega arith))
            str)
          (omega arith)
        ∙ ap (λ k. (poke (write m p x) (p + 1) (take n xs), k)) (omega arith))

pad-poke : (n i : ℕ) (m : Mem) (d p : Addr) → p ≡ d + i → pad n i m d ≡ poke m p (replicate n 0)
unfolding pad poke
pad-poke zero i m d p e = refl
pad-poke (suc n) i m d p e = rw (← e) (pad-poke n (i + 1) (write m p 0) d (p + 1) (omega arith))

filled :
    (xs : List ℕ) (m : Mem) (dest src n : ℕ)
    → IsCString m src xs
    → Apart dest src (length xs)
    → (let (g, i) = copy_indexed n 0 m dest src in pad (n - i) i g dest)
      ≡ poke m dest (take n xs ++ replicate (n - length xs) 0)
filled xs m dest src n str apart =
    rw (copy_indexed-poke xs n 0 m dest src dest src (omega arith) (omega arith) str apart) (
      pad-poke (n - (0 + min n (length xs))) (0 + min n (length xs)) _ dest
        (dest + min n (length xs)) (omega arith)
      ∙ ap (λ k. poke (poke m dest (take n xs)) (dest + min n (length xs)) (replicate k 0))
          (omega arith)
      ∙ sym (
          poke-append m dest (dest + min n (length xs)) (take n xs) _
            (omega (arith, length-take n xs))))

-- The source is a NUL-terminated string, and the destination is not above its first byte, or lies behind
-- its NUL: then strncpy writes exactly `n` bytes, the first `n` of the string, filled up with NULs, as if
-- all of them were read before the first is written, and returns the destination.
pub strncpy-poke :
    (xs : List ℕ) (m : Mem) (dest src n : ℕ)
    → IsCString m src xs
    → Apart dest src (length xs)
    → strncpy m dest src n ≡ (poke m dest (take n xs ++ replicate (n - length xs) 0), dest)
unfolding strncpy
strncpy-poke xs m dest src n str apart = ap (λ g. (g, dest)) (filled xs m dest src n str apart)

-- stpncpy writes what strncpy writes, and returns the address of the first NUL that it wrote, or of
-- the end of the `n` bytes. The source must not meet the bytes that are written.
pub stpncpy-poke :
    (xs : List ℕ) (m : Mem) (dest src n : ℕ)
    → IsCString m src xs
    → (src + length xs < dest) ⊎ (dest + n ≤ src)
    → stpncpy m dest src n
      ≡ (poke m dest (take n xs ++ replicate (n - length xs) 0), dest + min n (length xs))
unfolding stpncpy
stpncpy-poke xs m dest src n str apart =
    rw (filled xs m dest src n str (omega arith), strnlen-min xs _ src n still) (ground arith)
  where
    still : IsCString (poke m dest (take n xs ++ replicate (n - length xs) 0)) src xs
    still =
        IsCString-frame m _ src xs
          (λ q lo hi. poke_outside m dest _ q (
            omega (
              arith,
              length-append (take n xs) (replicate (n - length xs) 0),
              length-take n xs,
              length-replicate {A = ℕ} (n - length xs) 0,
            )))
          str
