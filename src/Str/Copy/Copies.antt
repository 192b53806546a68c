-- ===== src/Str/Copy/Copies.antt =====
-- What the copying functions leave in memory, as a `poke` of the strings' bytes.
use c_lite.Base.{
  ℕ, zero, suc, ◌+◌, ◌≤◌, ◌<◌, ◌≡◌, refl, sym, ap, ◌∙◌, ◌⊎◌, List, [], ◌∷◌, ◌++◌, some, arith,
  ne→==, eq→==, length,
}
use c_lite.Memory.{Addr, Mem, write, write_other, poke, poke-append, IsCString, IsCString-frame}
use c_lite.Str.Copy.{strlen_loop, strlen, copy_loop, strcpy, stpcpy}

strlen_loop-length :
    (xs : List ℕ) (k : ℕ) (m : Mem) (s p : Addr) (len : ℕ)
    → p ≡ s + len
    → IsCString m p xs
    → length xs < k
    → strlen_loop k m s len ≡ some (len + length xs)
unfolding strlen_loop
strlen_loop-length xs zero m s p len e str fuel = absurd (omega arith)
strlen_loop-length [] (suc k) m s p len e str fuel = rw (← e, eq→== _ _ str) (ap some (omega arith))
strlen_loop-length (x ∷ xs) (suc k) m s p len e (here, ne, str) fuel =
    rw (← e, ne→== (m p) 0 (omega arith))
      (strlen_loop-length xs k m s (p + 1) (len + 1) (omega arith) str (omega arith)
        ∙ ap some (omega arith))

-- strlen returns the number of bytes before the NUL.
pub strlen-length :
    (xs : List ℕ) (fuel : ℕ) (m : Mem) (s : Addr)
    → IsCString m s xs
    → length xs < fuel
    → strlen fuel m s ≡ some (length xs)
unfolding strlen
strlen-length xs fuel m s str h =
    strlen_loop-length xs fuel m s s 0 (omega arith) str h ∙ ap some (omega arith)

-- A copy of the string `xs` from `s` to `d` overwrites no byte of it that is still to be read.
abbrev pub Apart : Addr → Addr → ℕ → Type 0
Apart d s n = (d ≤ s) ⊎ (s + n < d)

pub copy_loop-poke :
    (xs : List ℕ) (k : ℕ) (m : Mem) (d s : Addr)
    → IsCString m s xs
    → Apart d s (length xs)
    → length xs < k
    → copy_loop k m d s ≡ some (poke m d xs, d + length xs)
unfolding copy_loop poke
copy_loop-poke xs zero m d s str apart fuel = absurd (omega arith)
copy_loop-poke [] (suc k) m d s str apart fuel =
    rw (eq→== _ _ str) (ap (λ p. some (m, p)) (omega arith))
copy_loop-poke (x ∷ xs) (suc k) m d s (here, ne, str) apart fuel =
    rw (ne→== (m s) 0 (omega arith), here)
      (copy_loop-poke xs k (write m d x) (d + 1) (s + 1)
          (IsCString-frame m (write m d x) (s + 1) xs (λ q lo hi. write_other m d x q (omega arith))
            str)
          (omega arith) (omega arith)
        ∙ ap (λ p. some (poke (write m d x) (d + 1) xs, p)) (omega arith))

pub end_write :
    (m : Mem) (d : Addr) (xs : List ℕ)
    → write (poke m d xs) (d + length xs) 0 ≡ poke m d (xs ++ 0 ∷ [])
unfolding poke
end_write m d xs = sym (poke-append m d (d + length xs) xs (0 ∷ []) refl)

-- strcpy writes the bytes of the source and a NUL at the destination, and returns the destination.
pub strcpy-poke :
    (xs : List ℕ) (fuel : ℕ) (m : Mem) (dest src : Addr)
    → IsCString m src xs
    → Apart dest src (length xs)
    → length xs < fuel
    → strcpy fuel m dest src ≡ some (poke m dest (xs ++ 0 ∷ []), dest)
unfolding strcpy
strcpy-poke xs fuel m dest src str apart h =
    rw (copy_loop-poke xs fuel m dest src str apart h, end_write m dest xs)

-- stpcpy writes the same, and returns the address of the NUL.
pub stpcpy-poke :
    (xs : List ℕ) (fuel : ℕ) (m : Mem) (dest src : Addr)
    → IsCString m src xs
    → Apart dest src (length xs)
    → length xs < fuel
    → stpcpy fuel m dest src ≡ some (poke m dest (xs ++ 0 ∷ []), dest + length xs)
unfolding stpcpy
stpcpy-poke xs fuel m dest src str apart h =
    rw (copy_loop-poke xs fuel m dest src str apart h, end_write m dest xs)
