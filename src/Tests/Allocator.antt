-- ===== src/Tests/Allocator.antt =====
-- Runs of the allocator on a kernel that grants every break below 1 MB.
use c_lite.Base.{
  replicate, ℕ, ◌≡◌, ◌≢◌, refl, sym, ap, ◌∙◌, inl, inr, true, false, List, [], ◌∷◌, some, arith,
  leb, ◌==◌, ==→ne, ne→==, if◌then◌else◌, Bool-cases,
}
use c_lite.Heap.Payload.{Outcome, calloc, calloc-Allocated}
use c_lite.Heap.Copies.{IsAmong, here, strdup, strdup-Allocated, strndup, strndup-Allocated}
use c_lite.Memory.{Mem, peek, poke, Addr, null}
use c_lite.Heap.{Header, Kernel, Heap, block_magic, malloc, free}
use c_lite.Heap.Blocks.Defs.{Block, used, Inserted, IsCoalesced}
use c_lite.Heap.Alloc.{IsHeap, Allocated}
use c_lite.Heap.Api.{malloc-Allocated, free-Inserted}

grant : ℕ → ℕ → ℕ × ℕ
grant t k = if t == 0 then (k, k) else if leb t 1048576 then (t, t) else (k, k)

grant-query : (k : ℕ) → grant 0 k ≡ (k, k)
unfolding grant
grant-query k = refl

grant_low : (t k : ℕ) → t ≢ 0 → leb t 1048576 ≡ true → grant t k ≡ (t, t)
unfolding grant
grant_low t k ne low = rw (ne→== t 0 ne, low)

grant_over : (t k : ℕ) → leb t 1048576 ≡ false → grant t k ≡ (k, k)
unfolding grant
grant_over t k over = elim (Bool-cases (t == 0)) [
  | inl query ↦ rw query refl
  | inr asked ↦ rw (asked, over) refl
]

grant-granted : (t k : ℕ) → t ≢ 0 → (grant t k).0 ≡ t → (grant t k).1 ≡ t
grant-granted t k ne h = elim (Bool-cases (leb t 1048576)) [
  | inl low ↦ rw (grant_low t k ne low) refl
  | inr over ↦ rw (grant_over t k over) (sym (ap (λ (r : ℕ × ℕ). r.0) (grant_over t k over)) ∙ h)
]

grant-refused : (t k : ℕ) → (grant t k).0 ≢ t → (grant t k).1 ≡ k
grant-refused t k ne = elim (Bool-cases (t == 0)) [
  | inl query ↦ unfold grant in rw query refl
  | inr asked ↦ elim (Bool-cases (leb t 1048576)) [
    | inl low ↦ absurd (ne (ap (λ (r : ℕ × ℕ). r.0) (grant_low t k (==→ne t 0 asked) low)))
    | inr over ↦ rw (grant_over t k over) refl
  ]
]

abbrev small_kernel : Kernel
small_kernel = record {
  State = ℕ;
  brk = grant;
  break_of = λ k. k;
  brk-query = grant-query;
  brk-granted = grant-granted;
  brk-refused = grant-refused;
}

abbrev empty : Heap small_kernel
empty = record {
  header = λ a. record { size = 0; next = 0; free = false; magic = 0 };
  free_list = null;
  kernel = 4096;
}

empty-IsHeap : IsHeap small_kernel empty []
empty-IsHeap = record { chain = refl; laid = omega arith; aligned = refl; below = omega arith }

-- A free block of 64 bytes, a block in use of 32.
abbrev two_headers : Addr → Header
two_headers a =
    if a == 4096
    then record { size = 64; next = 4176; free = true; magic = block_magic }
    else record { size = 32; next = 0; free = false; magic = block_magic }

abbrev two : Heap small_kernel
two = record { header = two_headers; free_list = 4096; kernel = 4224 }

abbrev two_blocks : List Block
two_blocks =
    record { addr = 4096; size = 64; free = true }
    ∷ record { addr = 4176; size = 32; free = false }
    ∷ []

two-IsHeap : IsHeap small_kernel two two_blocks
two-IsHeap = record {
  chain = (refl, omega arith, refl, refl, refl, (refl, omega arith, refl, refl, refl, refl));
  laid = (omega arith, refl, refl, (omega arith, refl, refl, omega arith));
  aligned = refl;
  below = omega arith;
}

malloc-Allocated_example :
    (r : Addr × Heap small_kernel) × (malloc small_kernel 8 two 10 ≡ some r)
    × Allocated small_kernel 10 two_blocks r
malloc-Allocated_example =
    malloc-Allocated small_kernel two two_blocks 8 10 two-IsHeap (omega arith) (omega arith)
      (omega arith)

free-Inserted_example :
    (s' : Heap small_kernel) × (cs : List Block) × (b : Block) × (free small_kernel 8 two 4192
      ≡ some s')
    × IsHeap small_kernel s' cs
    × IsCoalesced cs
    × (b.addr ≡ 4176)
    × Inserted b (used cs) (used two_blocks)
free-Inserted_example =
    free-Inserted small_kernel two two_blocks 8 4176 two-IsHeap
      (inr (omega arith, inl (refl, refl))) (omega arith)

calloc-Allocated_example :
    (r : Outcome small_kernel) × (calloc small_kernel 8 two (λ a. 7) 3 5 ≡ some r)
    × Allocated small_kernel 15 two_blocks (r.ptr, r.heap)
    × (r.mem ≡ (if r.ptr == null then (λ a. 7) else poke (λ a. 7) r.ptr (replicate 15 0)))
calloc-Allocated_example =
    calloc-Allocated small_kernel two (λ a. 7) two_blocks 8 3 5 two-IsHeap (omega arith)
      (omega arith) (omega arith)

-- The string "hi" in the block in use.
abbrev greeting : Mem
greeting a = if a == 4192 then b'h' else if a == 4193 then b'i' else 0

taken_block : IsAmong (record { addr = 4176; size = 32; free = false }) (used two_blocks)
unfolding used
taken_block = here

strdup-Allocated_example :
    (r : Outcome small_kernel) × (strdup small_kernel 3 8 two greeting 4192 ≡ some r)
    × Allocated small_kernel 3 two_blocks (r.ptr, r.heap)
    × (r.mem ≡ (if r.ptr == null then greeting else poke greeting r.ptr (b'h' ∷ b'i' ∷ 0 ∷ [])))
strdup-Allocated_example =
    strdup-Allocated small_kernel two greeting two_blocks
      (record { addr = 4176; size = 32; free = false }) 3 8 4192 (b'h' ∷ b'i' ∷ []) two-IsHeap
      taken_block (omega arith) (omega arith) (refl, omega arith, (refl, omega arith, refl))
      (omega arith) (omega arith) (omega arith)

strndup-Allocated_example :
    (r : Outcome small_kernel) × (strndup small_kernel 8 two greeting 4192 1 ≡ some r)
    × Allocated small_kernel 2 two_blocks (r.ptr, r.heap)
    × (r.mem ≡ (if r.ptr == null then greeting else poke greeting r.ptr (b'h' ∷ 0 ∷ [])))
unfolding peek
strndup-Allocated_example =
    strndup-Allocated small_kernel two greeting two_blocks
      (record { addr = 4176; size = 32; free = false }) 8 4192 1 (b'h' ∷ b'i' ∷ []) two-IsHeap
      taken_block (omega arith) (omega arith) (refl, omega arith, (refl, omega arith, refl))
      (omega arith) (omega arith)
