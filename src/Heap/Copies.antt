-- ===== src/Heap/Copies.antt =====
-- strdup and strndup of src/string.c: a copy of a string in a new block.
use c_lite.Base.{
  ℕ, ◌+◌, ◌%◌, ◌^◌, ◌≤◌, ◌<◌, ◌≡◌, ◌⊎◌, ◌∙◌, inl, inr, refl, sym, ap, List, [], ◌∷◌, ◌++◌, Option,
  some, ◌==◌, eq→==, if◌then◌else◌, ◌>>=◌, arith, length, min, Bool-cases,
}
use c_lite.Memory.{Addr, Mem, null, write, poke, peek, IsCString}
use c_lite.Str.Block.{memcpy}
use c_lite.Str.Copy.{strlen, strnlen}
use c_lite.Heap.{Kernel, Heap, header_size, malloc}
use c_lite.Heap.Payload.{Outcome}
use c_lite.Memory.{peek-IsCString, length-peek, poke-append}
use c_lite.Str.Block.Moves.{memcpy-poke}
use c_lite.Str.Copy.Copies.{strlen-length}
use c_lite.Heap.Blocks.Defs.{Block, block_end, IsLaid, used}
use c_lite.Heap.Append.{new_block}
use c_lite.Heap.Alloc.{IsHeap, Allocated, Allocated-le}
use c_lite.Str.Copy.Bounded.{strnlen-min}
use c_lite.Heap.Api.{malloc-Allocated}

module _ (K : Kernel) where
  abbrev copied : Mem → Addr → ℕ → Addr × Heap K → Outcome K
  copied m s len (p, h) = record {
    ptr = p;
    heap = h;
    mem = if p == null then m else (memcpy m p s len).0;
  }

  unfoldable copy_block : ℕ → Heap K → Mem → Addr → ℕ → Option (Outcome K)
  copy_block fuel h m s len = do r ← malloc K fuel h len; some (copied m s len r)

  -- `k` is fuel for strlen, `fuel` for the list of blocks.
  unfoldable pub strdup : ℕ → ℕ → Heap K → Mem → Addr → Option (Outcome K)
  unfolding copy_block
  strdup k fuel h m s = do n ← strlen k m s; copy_block fuel h m s ((n + 1) % 2 ^ 32)

  abbrev cut_copied : Mem → Addr → ℕ → Addr × Heap K → Outcome K
  cut_copied m s len (p, h) = record {
    ptr = p;
    heap = h;
    mem = if p == null then m else write (memcpy m p s len).0 (p + len) 0;
  }

  -- The loop for `len` is that of strnlen.
  unfoldable pub strndup : ℕ → Heap K → Mem → Addr → ℕ → Option (Outcome K)
  strndup fuel h m s n = do
    r ← malloc K fuel h ((strnlen m s n + 1) % 2 ^ 32)
    some (cut_copied m s (strnlen m s n) r)

-- The blocks that are in use lie apart.
IsLaid-lower :
    (lo lo' : ℕ) (bs : List Block) (hi : ℕ) → lo' ≤ lo → IsLaid lo bs hi → IsLaid lo' bs hi
IsLaid-lower lo lo' [] hi le h = omega arith
IsLaid-lower lo lo' (b ∷ bs) hi le (low, al, sized, rest) = (omega arith, al, sized, rest)

used-IsLaid : (lo : ℕ) (bs : List Block) (hi : ℕ) → IsLaid lo bs hi → IsLaid lo (used bs) hi
unfolding used
used-IsLaid lo [] hi h = h
used-IsLaid lo (b ∷ bs) hi (low, al, sized, rest) = elim (Bool-cases b.free) [
  | inl empty ↦
      rw empty (used-IsLaid lo bs hi (IsLaid-lower (block_end b) lo bs hi (omega arith) rest))
  | inr taken ↦ rw taken (low, al, sized, used-IsLaid (block_end b) bs hi rest)
]

pub data IsAmong (b : Block) : List Block → Type 0 where
  here : {bs : List Block} → IsAmong b (b ∷ bs)
  there : {c : Block} {bs : List Block} → IsAmong b bs → IsAmong b (c ∷ bs)

above :
    (lo : ℕ) (b : Block) (bs : List Block) (hi : ℕ) → IsLaid lo bs hi → IsAmong b bs → lo ≤ b.addr
above lo b [] hi h i = elim i [ ]
above lo b (b' ∷ bs) hi (low, al, sized, rest) here = low
above lo b (c ∷ bs) hi (low, al, sized, rest) (there i) =
    let e = above (block_end c) b bs hi rest i in omega arith

among : (b : Block) (pre post : List Block) → IsAmong b (pre ++ b ∷ post)
among b [] post = here
among b (c ∷ pre) post = there (among b pre post)

AreApart : Block → Block → Type 0
AreApart b c = (block_end b ≤ c.addr) ⊎ (block_end c ≤ b.addr)

Inserted-AreApart :
    (lo hi : ℕ) (b new : Block) (pre post : List Block)
    → IsLaid lo (pre ++ new ∷ post) hi
    → IsAmong b (pre ++ post)
    → AreApart b new
unfolding AreApart
Inserted-AreApart lo hi b new [] post (low, al, sized, rest) i =
    inr (above (block_end new) b post hi rest i)
Inserted-AreApart lo hi b new (c ∷ pre) post (low, al, sized, rest) here =
    inl (above (block_end c) new (pre ++ new ∷ post) hi rest (among new pre post))
Inserted-AreApart lo hi b new (c ∷ pre) post (low, al, sized, rest) (there i) =
    Inserted-AreApart (block_end c) hi b new pre post rest i

-- A copy from a block in use to the new one.
copy_apart :
    (K : Kernel) (m : Mem) (bs : List Block) (b : Block) (s size : ℕ) (r : Addr × Heap K)
    → IsAmong b (used bs)
    → b.addr + header_size ≤ s
    → s + size ≤ block_end b
    → Allocated K size bs r
    → (r.0 ≡ null) ⊎ ((memcpy m r.0 s size).0 ≡ poke m r.0 (peek m s size))
unfolding AreApart
copy_apart K m bs b s size (p, h) i low high (inl (refused, _)) = inl refused
copy_apart K m bs b s size (p, h) i low high
      (inr (a, n, cs, at, al, enough, heap, (pre, post, old, new))) =
    let laid : IsLaid 1 (pre ++ new_block a n ∷ post) (K.break_of h.kernel) =
      rw (sym new) (used-IsLaid 1 cs (K.break_of h.kernel) heap.laid) in
    let kept : IsAmong b (pre ++ post) = rw (sym old) i in
    let apart = Inserted-AreApart 1 (K.break_of h.kernel) b (new_block a n) pre post laid kept in
    inr (ap (λ q. q.0) (memcpy-poke m p s size (sides apart)))
  where
    sides :
        (b.addr + header_size + b.size ≤ a) ⊎ (a + header_size + n ≤ b.addr)
        → (p ≤ s) ⊎ (s + size ≤ p)
    sides (inl before) = inr (omega arith)
    sides (inr behind) = inl (omega arith)

kept_or_copied :
    (m c d : Mem) (p : Addr)
    → (p ≡ null) ⊎ (c ≡ d)
    → (if p == null then m else c) ≡ (if p == null then m else d)
kept_or_copied m c d p (inl e) = rw (eq→== p null e) refl
kept_or_copied m c d p (inr e) = rw e refl

strdup_run :
    (K : Kernel) (k fuel : ℕ) (h : Heap K) (m : Mem) (s : Addr) (n len : ℕ) (q : Addr × Heap K)
    → strlen k m s ≡ some n
    → (n + 1) % 2 ^ 32 ≡ len
    → malloc K fuel h len ≡ some q
    → strdup K k fuel h m s ≡ some (copied K m s len q)
unfolding strdup
strdup_run K k fuel h m s n len q read exact run = rw (read, exact, run) refl

-- For a string in a block of a well-formed heap that is in use, of less than 2 ^ 31 - 41 bytes, and fuel above
-- the numbers of its bytes and of the blocks: strdup returns as malloc does for the bytes and the
-- NUL, and where the pointer is not null the bytes from it on are those of the string and a NUL, and
-- no other byte has changed.
pub strdup-Allocated :
    (K : Kernel) (h : Heap K) (m : Mem) (bs : List Block) (b : Block) (k fuel : ℕ) (s : Addr)
    (xs : List ℕ)
    → IsHeap K h bs
    → IsAmong b (used bs)
    → b.addr + header_size ≤ s
    → s + (length xs + 1) ≤ block_end b
    → IsCString m s xs
    → length xs + 41 < 2 ^ 31
    → length xs < k
    → length bs < fuel
    → (r : Outcome K) × (strdup K k fuel h m s ≡ some r)
      × Allocated K (length xs + 1) bs (r.ptr, r.heap)
      × (r.mem ≡ (if r.ptr == null then m else poke m r.ptr (xs ++ 0 ∷ [])))
strdup-Allocated K h m bs b k fuel s xs heap i low high str small read enough =
    let exact : (length xs + 1) % 2 ^ 32 ≡ length xs + 1 = omega arith in
    let (q, run, res) =
      malloc-Allocated K h bs fuel (length xs + 1) heap (omega arith) (omega arith) enough in
    let bytes = peek-IsCString m s xs str in
    let whole : (q.0 ≡ null) ⊎ ((memcpy m q.0 s (length xs + 1)).0 ≡ poke m q.0 (xs ++ 0 ∷ [])) =
      rw (sym bytes) (copy_apart K m bs b s (length xs + 1) q i low high res) in
    (
      copied K m s (length xs + 1) q,
      strdup_run K k fuel h m s (length xs) (length xs + 1) q (strlen-length xs k m s str read)
          exact run,
      res,
      kept_or_copied m _ _ q.0 whole,
    )

poke_end :
    (m : Mem) (p q : Addr) (xs : List ℕ)
    → q ≡ p + length xs
    → write (poke m p xs) q 0 ≡ poke m p (xs ++ 0 ∷ [])
unfolding poke
poke_end m p q xs e = sym (poke-append m p q xs (0 ∷ []) e)

-- The bytes of a cut copy, and its NUL.
cut_apart :
    (K : Kernel) (m : Mem) (bs : List Block) (b : Block) (s size : ℕ) (r : Addr × Heap K)
    → IsAmong b (used bs)
    → b.addr + header_size ≤ s
    → s + size ≤ block_end b
    → Allocated K (size + 1) bs r
    → (r.0 ≡ null)
      ⊎ (write (memcpy m r.0 s size).0 (r.0 + size) 0 ≡ poke m r.0 (peek m s size ++ 0 ∷ []))
cut_apart K m bs b s size r i low high res =
    elim (copy_apart K m bs b s size r i low high
      (Allocated-le K size (size + 1) bs r (omega arith) res)) [
        | inl refused ↦ inl refused
        | inr same ↦ inr (
            ap (λ c. write c (r.0 + size) 0) same
            ∙ poke_end m r.0 (r.0 + size) (peek m s size) (omega (arith, length-peek m s size)))
      ]

strndup_run :
    (K : Kernel) (fuel : ℕ) (h : Heap K) (m : Mem) (s n size len : ℕ) (q : Addr × Heap K)
    → strnlen m s n ≡ size
    → (size + 1) % 2 ^ 32 ≡ len
    → malloc K fuel h len ≡ some q
    → strndup K fuel h m s n ≡ some (cut_copied K m s size q)
unfolding strndup
strndup_run K fuel h m s n size len q cut exact run = rw (cut, exact, run) refl

-- For a well-formed heap of less blocks than the fuel, and a NUL-terminated string that with its NUL lies
-- inside of a block in use: strndup asks malloc for one byte more than the first n bytes of the string, or
-- than all of it where it has no more, and the heap is as malloc leaves it. Where there is a block it
-- then holds those bytes and a NUL, and no other byte has changed. Where there is none, the result is null
-- and no byte has changed. The string has less than 2^31 - 41 bytes.
pub strndup-Allocated :
    (K : Kernel) (h : Heap K) (m : Mem) (bs : List Block) (b : Block) (fuel : ℕ) (s n : ℕ)
    (xs : List ℕ)
    → IsHeap K h bs
    → IsAmong b (used bs)
    → b.addr + header_size ≤ s
    → s + (length xs + 1) ≤ block_end b
    → IsCString m s xs
    → length xs + 41 < 2 ^ 31
    → length bs < fuel
    → (r : Outcome K) × (strndup K fuel h m s n ≡ some r)
      × Allocated K (min n (length xs) + 1) bs (r.ptr, r.heap)
      × (r.mem
          ≡ (if r.ptr == null then m else poke m r.ptr (peek m s (min n (length xs)) ++ 0 ∷ [])))
strndup-Allocated K h m bs b fuel s n xs heap i low high str small enough =
    let size : ℕ = min n (length xs) in
    let bound : min n (length xs) ≤ length xs = omega arith in
    let exact : (size + 1) % 2 ^ 32 ≡ size + 1 = omega (arith, bound) in
    let (q, run, res) =
      malloc-Allocated K h bs fuel (size + 1) heap (omega arith) (omega (arith, bound)) enough in
    (
      cut_copied K m s size q,
      strndup_run K fuel h m s n size (size + 1) q (strnlen-min xs m s n str) exact run,
      res,
      kept_or_copied m _ _ q.0 (cut_apart K m bs b s size q i low (omega (arith, bound)) res),
    )
