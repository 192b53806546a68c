-- ===== src/Memory.antt =====
-- The flat byte memory that the C functions read and write, and the NUL-terminated strings in it.
-- An address is a number, `null` is 0, and objects do not wrap round the end of the address space.
use mathlib.Core.Path.{ap₂}
use c_lite.Base.{
  ℕ, zero, suc, ◌+◌, ◌≤◌, ◌<◌, ◌≡◌, ◌≢◌, refl, ◌∙◌, ◌⊎◌, ap, fun_ext, List, Option, none, some, [],
  ◌∷◌, ◌++◌, arith, ◌==◌, if◌then◌else◌, length, get_or,
}

abbrev pub Addr : Type 0
Addr = ℕ

abbrev pub null : Addr
null = 0

abbrev pub Mem : Type 0
Mem = Addr → ℕ

-- `*p = v`
unfoldable pub write : Mem → Addr → ℕ → Mem
write m p v q = if q == p then v else m q

pub write_same : (m : Mem) (p : Addr) (v : ℕ) → write m p v p ≡ v
unfolding write
write_same m p v = ground arith

pub write_other : (m : Mem) (p : Addr) (v : ℕ) (q : Addr) → q ≢ p → write m p v q ≡ m q
unfolding write
write_other m p v q h = ground arith

-- Consecutive writes from `p` on.
unfoldable pub poke : Mem → Addr → List ℕ → Mem
poke m p [] = m
poke m p (x ∷ xs) = poke (write m p x) (p + 1) xs

-- The `n` bytes from `p` on.
unfoldable pub peek : Mem → Addr → ℕ → List ℕ
peek m p zero = []
peek m p (suc n) = m p ∷ peek m (p + 1) n

-- `p` points at the bytes `xs`.
abbrev pub Holds : Mem → Addr → List ℕ → Type 0
Holds m p [] = Unit
Holds m p (x ∷ xs) = (m p ≡ x) × Holds m (p + 1) xs

-- `p` points at the C string with the bytes `xs`, which are not NUL.
abbrev pub IsCString : Mem → Addr → List ℕ → Type 0
IsCString m p [] = m p ≡ 0
IsCString m p (x ∷ xs) = (m p ≡ x) × (x ≢ 0) × IsCString m (p + 1) xs

-- Every cell holds a byte.
abbrev pub IsByteMem : Mem → Type 0
IsByteMem m = (q : Addr) → m q < 256

-- The address of the place `i` of the object at `p`, null for no place.
abbrev pub place : Addr → Option ℕ → Addr
place p none = null
place p (some i) = p + i

-- No byte is NUL.
abbrev pub NoNul : List ℕ → Type 0
NoNul [] = Unit
NoNul (x ∷ xs) = (x ≢ 0) × NoNul xs

pub poke_outside :
    (m : Mem) (p : Addr) (xs : List ℕ) (q : Addr)
    → (q < p) ⊎ (p + length xs ≤ q)
    → poke m p xs q ≡ m q
unfolding poke write
poke_outside m p [] q h = refl
poke_outside m p (x ∷ xs) q h = ground (arith, poke_outside (write m p x) (p + 1) xs q)

pub IsCString-NoNul : (m : Mem) (p : Addr) (xs : List ℕ) → IsCString m p xs → NoNul xs
IsCString-NoNul m p [] h = tt
IsCString-NoNul m p (x ∷ xs) (_, ne, rest) = (ne, IsCString-NoNul m (p + 1) xs rest)

-- The NUL stands behind the bytes, and nowhere among them.
pub IsCString-end :
    (m : Mem) (p q : Addr) (xs : List ℕ) → q ≡ p + length xs → IsCString m p xs → m q ≡ 0
IsCString-end m p q [] e h = ap m (omega arith) ∙ h
IsCString-end m p q (x ∷ xs) e (_, _, rest) = IsCString-end m (p + 1) q xs (omega arith) rest

pub IsCString-ne :
    (m : Mem) (p q : Addr) (n : ℕ) (xs : List ℕ)
    → q ≡ p + n
    → n < length xs
    → IsCString m p xs
    → m q ≢ 0
IsCString-ne m p q n [] e lt h = absurd (omega arith)
IsCString-ne m p q zero (x ∷ xs) e lt (here, ne, _) =
    let same : q ≡ p = omega arith in rw (same, here) ne
IsCString-ne m p q (suc n) (x ∷ xs) e lt (_, _, rest) =
    IsCString-ne m (p + 1) q n xs (omega arith) (omega arith) rest

-- A string survives a change that leaves its bytes and its NUL alone.
pub IsCString-frame :
    (m g : Mem) (p : Addr) (xs : List ℕ)
    → ((q : Addr) → p ≤ q → q ≤ p + length xs → g q ≡ m q)
    → IsCString m p xs
    → IsCString g p xs
IsCString-frame m g p [] same h = same p (omega arith) (omega arith) ∙ h
IsCString-frame m g p (x ∷ xs) same (h, ne, rest) = (
  same p (omega arith) (omega arith) ∙ h,
  ne,
  IsCString-frame m g (p + 1) xs (λ q a b. same q (omega arith) (omega arith)) rest,
)

pub poke_inside :
    (m : Mem) (p : Addr) (xs : List ℕ) (i : ℕ) → i < length xs → poke m p xs (p + i) ≡ get_or xs i 0
unfolding poke write
poke_inside m p [] i h = elim h [ ]
poke_inside m p (x ∷ xs) zero h =
    poke_outside (write m p x) (p + 1) xs (p + 0) (omega arith) ∙ ground arith
poke_inside m p (x ∷ xs) (suc i) h =
    ap (poke (write m p x) (p + 1) xs) (omega arith)
    ∙ poke_inside (write m p x) (p + 1) xs i (omega arith)

pub poke_head : (m : Mem) (p : Addr) (x : ℕ) (xs : List ℕ) → poke m p (x ∷ xs) p ≡ x
unfolding poke write
poke_head m p x xs = poke_outside (write m p x) (p + 1) xs p (omega arith) ∙ ground arith

pub Holds-poke : (m : Mem) (p : Addr) (xs : List ℕ) → Holds (poke m p xs) p xs
unfolding poke
Holds-poke m p [] = tt
Holds-poke m p (x ∷ xs) = (poke_head m p x xs, Holds-poke (write m p x) (p + 1) xs)

-- What `poke` has written is a C string, if it ends with NUL.
pub IsCString-poke :
    (m : Mem) (p : Addr) (xs : List ℕ) → NoNul xs → IsCString (poke m p (xs ++ 0 ∷ [])) p xs
unfolding poke
IsCString-poke m p [] h = poke_head m p 0 []
IsCString-poke m p (x ∷ xs) (ne, rest) =
    (poke_head m p x (xs ++ 0 ∷ []), ne, IsCString-poke (write m p x) (p + 1) xs rest)

pub poke-append :
    (m : Mem) (p q : Addr) (xs ys : List ℕ)
    → q ≡ p + length xs
    → poke m p (xs ++ ys) ≡ poke (poke m p xs) q ys
unfolding poke
poke-append m p q [] ys e = ap (λ r. poke m r ys) (omega arith)
poke-append m p q (x ∷ xs) ys e = poke-append (write m p x) (p + 1) q xs ys (omega arith)

-- Reading what was written gives it back.
pub peek-poke : (m : Mem) (p : Addr) (xs : List ℕ) → peek (poke m p xs) p (length xs) ≡ xs
unfolding peek poke
peek-poke m p [] = refl
peek-poke m p (x ∷ xs) = ap₂ ◌∷◌ (poke_head m p x xs) (peek-poke (write m p x) (p + 1) xs)

pub length-peek : (m : Mem) (p : Addr) (n : ℕ) → length (peek m p n) ≡ n
unfolding peek
length-peek m p zero = refl
length-peek m p (suc n) = ap suc (length-peek m (p + 1) n)

-- A read of `n` bytes sees only those bytes.
pub peek-frame :
    (m g : Mem) (p : Addr) (n : ℕ)
    → ((q : Addr) → p ≤ q → q < p + n → g q ≡ m q)
    → peek g p n ≡ peek m p n
unfolding peek
peek-frame m g p zero same = refl
peek-frame m g p (suc n) same =
    ap₂ ◌∷◌ (same p (omega arith) (omega arith))
      (peek-frame m g (p + 1) n λ q a b. same q (omega arith) (omega arith))

-- A C string is read back by `peek`, with its NUL.
pub peek-IsCString :
    (m : Mem) (p : Addr) (xs : List ℕ) → IsCString m p xs → peek m p (length xs + 1) ≡ xs ++ 0 ∷ []
unfolding peek
peek-IsCString m p [] h = rw h
peek-IsCString m p (x ∷ xs) (h, _, rest) =
    let e : suc (length xs) + 1 ≡ suc (length xs + 1) = omega arith in
    rw e (ap₂ ◌∷◌ h (peek-IsCString m (p + 1) xs rest))

pub peek-append : (m : Mem) (p : Addr) (n : ℕ) → peek m p (suc n) ≡ peek m p n ++ m (p + n) ∷ []
unfolding peek
peek-append m p zero = ap (λ q. m q ∷ []) (omega arith)
peek-append m p (suc n) =
    let e : p + 1 + n ≡ p + suc n = omega arith in
    ap (λ t. m p ∷ t) (peek-append m (p + 1) n ∙ ap (λ q. peek m (p + 1) n ++ m q ∷ []) e)

write_comm :
    (m : Mem) (p q : Addr) (x y : ℕ) → p ≢ q → write (write m p x) q y ≡ write (write m q y) p x
unfolding write
write_comm m p q x y ne = fun_ext λ r. ground arith

-- A write outside the range of a `poke` may come before or after it.
pub poke-write :
    (m : Mem) (p q : Addr) (xs : List ℕ) (v : ℕ)
    → (q < p) ⊎ (p + length xs ≤ q)
    → poke (write m q v) p xs ≡ write (poke m p xs) q v
unfolding poke
poke-write m p q [] v h = refl
poke-write m p q (x ∷ xs) v h =
    ap (λ g. poke g (p + 1) xs) (write_comm m q p v x (omega arith))
    ∙ poke-write (write m p x) (p + 1) q xs v (omega arith)

write_self : (m : Mem) (p : Addr) → write m p (m p) ≡ m
unfolding write
write_self m p = fun_ext λ q. ground arith

-- Writing back what was read changes nothing.
pub poke-peek : (m : Mem) (p : Addr) (n : ℕ) → poke m p (peek m p n) ≡ m
unfolding poke peek
poke-peek m p zero = refl
poke-peek m p (suc n) =
    ap (λ g. poke g (p + 1) (peek m (p + 1) n)) (write_self m p) ∙ poke-peek m (p + 1) n
