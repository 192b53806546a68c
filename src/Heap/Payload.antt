-- ===== src/Heap/Payload.antt =====
-- calloc and realloc of src/stdlib.c: the allocator together with the bytes of the blocks. The
-- headers and the bytes that the callers see are two maps.
use c_lite.Base.{
  ℕ, ◌+◌, ◌-◌, ◌*◌, ◌/◌, ◌%◌, ◌^◌, ◌≤◌, ◌<◌, ◌≡◌, ◌≢◌, refl, ap, inl, inr, Bool, true, false, not,
  ◌&&◌, List, Option, some, ltb, leb, ltb→lt, ltb→ge, ◌==◌, ==→eq, ==→ne, if◌then◌else◌, ◌>>=◌,
  arith, length, replicate, Bool-cases,
}
use c_lite.Memory.{Addr, Mem, null, poke}
use c_lite.Str.Block.{memset, memcpy}
use c_lite.Str.Block.Moves.{memset-poke}
use c_lite.Heap.{Kernel, Heap, block_magic, header_size, size_sub, malloc, free}
use c_lite.Heap.Blocks.Defs.{Block}
use c_lite.Heap.Alloc.{IsHeap, Allocated}
use c_lite.Heap.Api.{malloc-Allocated}

module _ (K : Kernel) where
  -- The pointer, the heap and the bytes that a call leaves.
  pub record Outcome : Type 0 where
    pub ptr : Addr
    pub heap : Heap K
    pub mem : Mem

  abbrev cleared : ℕ → Mem → Addr × Heap K → Outcome
  cleared total m (p, s) = record {
    ptr = p;
    heap = s;
    mem = if p == null then m else (memset m p 0 total).0;
  }

  -- (size_t)-1 / nmemb
  abbrev pub overflows : ℕ → ℕ → Bool
  overflows nmemb size = not (nmemb == 0) && ltb ((2 ^ 32 - 1) / nmemb) size

  unfoldable pub calloc : ℕ → Heap K → Mem → ℕ → ℕ → Option Outcome
  unfolding malloc memset
  calloc fuel s m nmemb size =
      let total = nmemb * size % 2 ^ 32 in
      if overflows nmemb size
      then some (record { ptr = null; heap = s; mem = m })
      else (do r ← malloc K fuel s total; some (cleared total m r))

  -- The new block is filled from the old one, which is freed.
  move_block : ℕ → Mem → Addr → ℕ → Addr × Heap K → Option Outcome
  unfolding free memcpy
  move_block fuel m ptr old_size (p, s) =
      if p == null then some (record { ptr = null; heap = s; mem = m }) else (do
        s' ← free K fuel s ptr
        some (record { ptr = p; heap = s'; mem = (memcpy m p ptr old_size).0 }))

  unfoldable pub realloc : ℕ → Heap K → Mem → Addr → ℕ → Option Outcome
  unfolding malloc free move_block
  realloc fuel s m ptr size =
      let block = s.header (size_sub ptr header_size) in
      if ptr == null
      then (do (p, s') ← malloc K fuel s size; some (record { ptr = p; heap = s'; mem = m }))
      else if size == 0
      then (do s' ← free K fuel s ptr; some (record { ptr = null; heap = s'; mem = m }))
      else if not (block.magic == block_magic)
      then some (record { ptr = null; heap = s; mem = m })
      else if leb size block.size
      then some (record { ptr = ptr; heap = s; mem = m })
      else (do r ← malloc K fuel s size; move_block fuel m ptr block.size r)

-- The quotient decides the product.
quotient_test :
    (n size : ℕ)
    → n ≢ 0
    → ((2 ^ 32 - 1) / n < size → 2 ^ 32 ≤ n * size) × (size ≤ (2 ^ 32 - 1) / n → n * size < 2 ^ 32)
quotient_test n size ne =
    let q : ℕ = (2 ^ 32 - 1) / n in
    let whole : q * n + (2 ^ 32 - 1) % n ≡ 2 ^ 32 - 1 = grind (arith, ne) in
    let below : (2 ^ 32 - 1) % n < n = grind (arith, ne) in
    (
      λ less.
          let step : (q + 1) * n ≤ size * n = grind (arith, less) in
          let open_up : (q + 1) * n ≡ q * n + n = grind arith in
          let turn : size * n ≡ n * size = grind arith in
          omega (arith, whole, below, step, open_up, turn),
      λ le.
          let step : size * n ≤ q * n = grind (arith, le) in
          let turn : size * n ≡ n * size = grind arith in omega (arith, whole, step, turn),
    )

overflows-product :
    (n size : ℕ) → n * size < 2 ^ 32 → (not (n == 0) && ltb ((2 ^ 32 - 1) / n) size) ≡ false
overflows-product n size small = elim (Bool-cases (n == 0)) [
  | inl none_at_all ↦ rw none_at_all refl
  | inr some_at_all ↦
      let ne : n ≢ 0 = ==→ne n 0 some_at_all in
      let quotient = quotient_test n size ne in
      elim (Bool-cases (ltb ((2 ^ 32 - 1) / n) size)) [
        | inl over ↦
            let lt : (2 ^ 32 - 1) / n < size = ltb→lt _ _ over in
            absurd (omega (arith, quotient.0 lt))
        | inr within ↦ rw (some_at_all, within) refl
      ]
]

product-overflows :
    (n size : ℕ) → 2 ^ 32 ≤ n * size → (not (n == 0) && ltb ((2 ^ 32 - 1) / n) size) ≡ true
product-overflows n size big = elim (Bool-cases (n == 0)) [
  | inl none_at_all ↦
      let e : n ≡ 0 = ==→eq n 0 none_at_all in
      let nothing : n * size ≡ 0 = rw e (omega arith) in absurd (omega arith)
  | inr some_at_all ↦
      let ne : n ≢ 0 = ==→ne n 0 some_at_all in
      let quotient = quotient_test n size ne in
      elim (Bool-cases (ltb ((2 ^ 32 - 1) / n) size)) [
        | inl over ↦ rw (some_at_all, over) refl
        | inr within ↦
            let le : size ≤ (2 ^ 32 - 1) / n = ltb→ge _ _ within in
            absurd (omega (arith, quotient.1 le))
      ]
]

-- Where the product of the arguments is above 0 and below 2 ^ 31 - 40, the heap is well-formed and the
-- fuel exceeds the number of blocks: calloc returns as malloc does for the whole product, and where
-- the pointer is not null the bytes from it on are as many zeros, and no other byte has changed.
pub calloc-Allocated :
    (K : Kernel) (s : Heap K) (m : Mem) (bs : List Block) (fuel nmemb size : ℕ)
    → IsHeap K s bs
    → 0 < nmemb * size
    → nmemb * size + 40 < 2 ^ 31
    → length bs < fuel
    → (r : Outcome K) × (calloc K fuel s m nmemb size ≡ some r)
      × Allocated K (nmemb * size) bs (r.ptr, r.heap)
      × (r.mem ≡ (if r.ptr == null then m else poke m r.ptr (replicate (nmemb * size) 0)))
unfolding calloc
calloc-Allocated K s m bs fuel nmemb size h pos small enough =
    let exact : nmemb * size % 2 ^ 32 ≡ nmemb * size = omega arith in
    let (q, run, res) = malloc-Allocated K s bs fuel (nmemb * size) h pos small enough in
    (
      cleared K (nmemb * size) m q,
      rw (overflows-product nmemb size (omega arith), exact, run) refl,
      res,
      ap (λ (w : Mem × Addr). if q.0 == null then m else w.0) (memset-poke m q.0 0 (nmemb * size)),
    )

-- Where the product does not fit into 32 bits, calloc returns NULL and changes nothing.
pub calloc_overflow :
    (K : Kernel) (s : Heap K) (m : Mem) (fuel nmemb size : ℕ)
    → 2 ^ 32 ≤ nmemb * size
    → calloc K fuel s m nmemb size ≡ some (record { ptr = null; heap = s; mem = m })
unfolding calloc
calloc_overflow K s m fuel nmemb size big = rw (product-overflows nmemb size big) refl
