-- ===== src/Heap/Api.antt =====
-- malloc and free of src/stdlib.c as their callers see them.
use c_lite.Base.{
  ℕ, zero, suc, ◌+◌, ◌%◌, ◌^◌, ◌≤◌, ◌<◌, ◌≡◌, ◌≢◌, refl, ap, ◌⊎◌, inl, inr, true, List, [], ◌∷◌,
  some, arith, ◌==◌, eq→==, ne→==, Bool-cases, length,
}
use c_lite.Memory.{Addr, null}
use c_lite.Heap.{
  size_sub, Header, block_magic, header_size, write_header, Kernel, Heap, align, place_block,
  malloc, free, coalesce_loop,
}
use c_lite.Heap.Blocks.Defs.{
  block_end, Block, IsLaid, used, Inserted, coalesce, IsCoalesced, release, InUse,
}
use c_lite.Heap.Blocks.FirstFit.{IsLaid-le, release-IsLaid, release-Inserted}
use c_lite.Heap.Blocks.Coalesce.{coalesce-IsLaid, coalesce-used, coalesce-IsCoalesced}
use c_lite.Heap.Chain.{Chain}
use c_lite.Heap.Append.{release-Chain}
use c_lite.Heap.Merge.{coalesce_loop-Chain}
use c_lite.Heap.Alloc.{IsHeap, Allocated, place_block-Allocated, Allocated-le}

-- The rounded size is the next multiple of 8, where rounding up does not wrap.
pub align-bounds :
    (size : ℕ)
    → size + 7 < 2 ^ 32
    → (align size % 8 ≡ 0) × (size ≤ align size) × (align size < size + 8)
unfolding align
align-bounds size small = omega arith

-- On a well-formed heap, a size above 0 and below 2 ^ 31 - 40, and more fuel than there are blocks:
-- malloc returns, and either it returns NULL and the blocks are as they were, or it returns a
-- pointer that is a multiple of 8, the heap is well-formed again, the blocks in use are those of
-- before and one more, whose header stands 16 bytes below the pointer and which has at least
-- `size` bytes.
pub malloc-Allocated :
    (K : Kernel) (s : Heap K) (bs : List Block) (fuel size : ℕ)
    → IsHeap K s bs
    → 0 < size
    → size + 40 < 2 ^ 31
    → length bs < fuel
    → (r : Addr × Heap K) × (malloc K fuel s size ≡ some r) × Allocated K size bs r
unfolding malloc
malloc-Allocated K s bs fuel size h pos small enough =
    let (al, low, high) = align-bounds size (omega arith) in
    let (r, run, res) = place_block-Allocated K s bs h (align size) al (omega arith) fuel enough in
    (
      place_block K s (align size) r,
      rw (ne→== size 0 (omega arith), run) refl,
      Allocated-le K size (align size) bs (place_block K s (align size) r) low res,
    )

-- A size of 0 gives NULL and changes nothing.
pub malloc-zero : (K : Kernel) (s : Heap K) (fuel : ℕ) → malloc K fuel s 0 ≡ some (null, s)
unfolding malloc
malloc-zero K s fuel = refl

length-release : (a : Addr) (bs : List Block) → length (release a bs) ≡ length bs
unfolding release
length-release a [] = refl
length-release a (b ∷ bs) = elim (Bool-cases (b.addr == a)) [
  | inl here ↦ rw here refl
  | inr on ↦ rw on (ap suc (length-release a bs))
]

coalesce_all :
    (K : Kernel) (bs : List Block) (f : ℕ) (h : Addr → Header) (p hi : ℕ)
    → hi < 2 ^ 32
    → IsLaid 1 bs hi
    → Chain h p bs
    → length bs ≤ f
    → 0 < f
    → (g : Addr → Header) × (coalesce_loop f h p ≡ some g) × Chain g p (coalesce bs)
coalesce_all K bs zero h p hi below laid chain enough pos = absurd (omega arith)
coalesce_all K [] (suc f) h p hi below laid chain enough pos =
    (h, unfold coalesce_loop in rw (eq→== p 0 chain) refl, unfold coalesce in chain)
coalesce_all K (b ∷ bs) (suc f) h p hi below laid chain enough pos =
    let (g, run, made, _) =
      coalesce_loop-Chain bs b (suc f) h p 1 hi below laid chain (omega arith) in
    (g, run, unfold coalesce in made)

InUse-below : (a lo hi : ℕ) (bs : List Block) → IsLaid lo bs hi → InUse a bs → a + header_size ≤ hi
InUse-below a lo hi [] laid busy = absurd busy
InUse-below a lo hi (b ∷ bs) (above, al, sl, rest) (inl (at, idle)) =
    omega (arith, IsLaid-le (block_end b) hi bs rest)
InUse-below a lo hi (b ∷ bs) (above, al, sl, rest) (inr (ne, busy)) =
    InUse-below a (block_end b) hi bs rest busy

-- On a well-formed heap, for a pointer 16 bytes above a block in use and fuel for all blocks: free
-- returns, the heap is well-formed, the blocks in use are those of before without that block, and
-- no free block begins where another one ends.
pub free-Inserted :
    (K : Kernel) (s : Heap K) (bs : List Block) (fuel a : ℕ)
    → IsHeap K s bs
    → InUse a bs
    → length bs < fuel
    → (s' : Heap K) × (cs : List Block) × (b : Block) × (free K fuel s (a + header_size) ≡ some s')
      × IsHeap K s' cs
      × IsCoalesced cs
      × (b.addr ≡ a)
      × Inserted b (used cs) (used bs)
unfolding free
free-Inserted K s bs fuel a h busy enough =
    let (chain, magic, low) =
      release-Chain bs s.header a s.free_list 1 (K.break_of s.kernel) h.laid h.chain busy in
    let laid = release-IsLaid a 1 (K.break_of s.kernel) bs h.laid in
    let (g, run, made) =
      coalesce_all K (release a bs) fuel
        (write_header s.header a (record (s.header a) { free = true })) s.free_list
        (K.break_of s.kernel) h.below laid chain (omega (arith, length-release a bs))
        (omega arith) in
    let (b, at, new) = release-Inserted a bs busy in
    let back : size_sub (a + header_size) header_size ≡ a =
      omega (arith, h.below, InUse-below a 1 (K.break_of s.kernel) bs h.laid busy) in
    (
      record s { header = g },
      coalesce (release a bs),
      b,
      rw (ne→== (a + header_size) 0 (omega arith), back, eq→== _ _ magic, run) refl,
      record {
        chain = made;
        laid = coalesce-IsLaid 1 (K.break_of s.kernel) (release a bs) laid;
        aligned = h.aligned;
        below = h.below;
      },
      coalesce-IsCoalesced (release a bs),
      at,
      rw (coalesce-used (release a bs)) new,
    )

-- free leaves the heap as it is for NULL, and for a pointer above a header without the magic number.
pub free-ignored :
    (K : Kernel) (s : Heap K) (fuel ptr : ℕ)
    → (ptr ≡ null) ⊎ ((s.header (size_sub ptr header_size)).magic ≢ block_magic)
    → free K fuel s ptr ≡ some s
unfolding free
free-ignored K s fuel ptr (inl e) = rw (eq→== ptr 0 e)
free-ignored K s fuel ptr (inr ne) = elim (Bool-cases (ptr == 0)) [
  | inl at ↦ rw at refl
  | inr on ↦ rw (on, ne→== _ _ ne) refl
]
