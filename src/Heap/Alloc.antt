-- ===== src/Heap/Alloc.antt =====
-- malloc and free keep a well-formed heap, and hand out and take back exactly one block.
use mathlib.Core.Path.{subst}
use c_lite.Base.{
  ℕ, ◌+◌, ◌%◌, ◌^◌, ◌≤◌, ◌<◌, ◌≡◌, ◌≢◌, refl, sym, ◌∙◌, ◌⊎◌, inl, inr, false, ◌||◌, List, [], ◌∷◌,
  ◌++◌, append-nil, Option, none, some, arith, leb, ◌==◌, ==→eq, ==→ne, ne→==, Bool-cases,
  Option-cases, length,
}
use c_lite.Memory.{Addr, null}
use c_lite.Heap.{
  header_size, size_add, Kernel, Heap, Scan, found, ended, sbrk, scan, link_block, grow,
  place_block,
}
use c_lite.Heap.Blocks.Defs.{Block, block_end, IsLaid, used, Inserted, take_fit}
use c_lite.Heap.Blocks.FirstFit.{take_fit-some, take_fit-IsLaid, take_fit-Inserted}
use c_lite.Heap.Chain.{Chain, scan-found, scan-ended, last_of}
use c_lite.Heap.Relink.{take_block-Chain}
use c_lite.Heap.Append.{new_block, linked, first-Chain, linked-Chain, append-IsLaid, last_of_bounds}

-- The headers are those of the blocks `bs`, which lie in this order below the break.
pub record IsHeap (K : Kernel) (s : Heap K) (bs : List Block) : Type 0 where
  pub chain : Chain s.header s.free_list bs
  pub laid : IsLaid 1 bs (K.break_of s.kernel)
  pub aligned : K.break_of s.kernel % 8 ≡ 0
  pub below : K.break_of s.kernel < 2 ^ 32

-- What sbrk may return: a refusal that leaves the break, or the old break with the break moved.
abbrev Grown : (K : Kernel) → ℕ → K.State → Option Addr × K.State → Type 0
Grown K inc k (none, k') = K.break_of k' ≡ K.break_of k
Grown K inc k (some mem, k') =
    (mem ≡ K.break_of k) × (mem ≢ null) × (mem < 2 ^ 31) × (K.break_of k' ≡ mem + inc)

sbrk-Grown :
    (K : Kernel) (inc : ℕ) (k : K.State) → 0 < inc → inc < 2 ^ 31 → Grown K inc k (sbrk K inc k)
unfolding sbrk
sbrk-Grown K inc k pos small =
    rw (K.brk-query k) (elim (Bool-cases (K.break_of k == 0 || leb (2 ^ 31) (K.break_of k))) [
      | inl bad ↦ rw bad refl
      | inr good ↦
          let (ne, low) = positive good in
          let t : ℕ = size_add (K.break_of k) inc in
          let exact : t ≡ K.break_of k + inc = omega arith in
          rw (good, ne→== inc 0 (omega arith))
            (elim (Bool-cases ((K.brk t k).0 == t)) [
              | inl granted ↦
                  rw granted
                    (refl, ne, low, K.brk-granted t k (omega arith) (==→eq _ _ granted) ∙ exact)
              | inr refused ↦ rw refused (K.brk-refused t k (==→ne _ _ refused))
            ])
    ])
  where
    positive :
        (K.break_of k == 0 || leb (2 ^ 31) (K.break_of k)) ≡ false
        → (K.break_of k ≢ 0) × (K.break_of k < 2 ^ 31)
    positive good = ground arith

-- What a call of malloc leaves: a refusal with the blocks unchanged, or one more block in use.
abbrev pub Allocated : (K : Kernel) → ℕ → List Block → Addr × Heap K → Type 0
Allocated K size bs (p, s') =
    ((p ≡ null) × IsHeap K s' bs)
    ⊎ ((a : Addr) × (n : ℕ) × (cs : List Block) × (p ≡ a + header_size)
        × (p % 8 ≡ 0)
        × (size ≤ n)
        × IsHeap K s' cs
        × Inserted (new_block a n) (used bs) (used cs))

pub Allocated-le :
    (K : Kernel) (size n : ℕ) (bs : List Block) (r : Addr × Heap K)
    → size ≤ n
    → Allocated K n bs r
    → Allocated K size bs r
Allocated-le K size n bs r le (inl refused) = inl refused
Allocated-le K size n bs r le (inr (a, m, cs, at, al, enough, heap, new)) =
    inr (a, m, cs, at, al, omega arith, heap, new)

take_fit_aligned :
    (size : ℕ) (bs : List Block) (lo hi a : ℕ) (cs : List Block)
    → IsLaid lo bs hi
    → take_fit size bs ≡ some (a, cs)
    → a % 8 ≡ 0
take_fit_aligned size [] lo hi a cs laid fit = unfold take_fit in cc
take_fit_aligned size (b ∷ bs) lo hi a cs (above, al, sl, rest) fit =
    elim (take_fit-some size b bs a cs fit) [
      | inl (hit, e, _) ↦ rw e al
      | inr (ds, miss, e, _) ↦ take_fit_aligned size bs (block_end b) hi a ds rest e
    ]

used-append :
    (bs : List Block) (b : Block) → b.free ≡ false → used (bs ++ b ∷ []) ≡ used bs ++ b ∷ []
unfolding used
used-append [] b busy = ground arith
used-append (c ∷ bs) b busy = ground (arith, used-append bs b busy)

link_block-kernel :
    (K : Kernel) (s : Heap K) (size prev mem : ℕ) (k : K.State)
    → (link_block K s size prev mem k).kernel ≡ k
unfolding link_block
link_block-kernel K s size prev mem k = elim (Bool-cases (prev == null)) [
  | inl first ↦ rw (first, link_block)
  | inr later ↦ rw (later, link_block)
]

link_block_later :
    (K : Kernel) (s : Heap K) (size prev mem : ℕ) (k : K.State)
    → prev ≢ null
    → link_block K s size prev mem k
      ≡ record { header = linked s.header mem size prev; free_list = s.free_list; kernel = k }
unfolding link_block
link_block_later K s size prev mem k ne = rw (ne→== prev 0 ne)

link_block-Chain :
    (K : Kernel) (bs : List Block) (s : Heap K) (size mem hi : ℕ) (k : K.State)
    → hi ≤ mem
    → mem ≢ null
    → IsLaid 1 bs hi
    → Chain s.header s.free_list bs
    → let t = link_block K s size (last_of null bs) mem k in
      Chain t.header t.free_list (bs ++ new_block mem size ∷ [])
link_block-Chain K [] s size mem hi k top ne laid chain =
    unfold link_block in first-Chain s.header mem size ne
link_block-Chain K (b ∷ bs) s size mem hi k top ne laid chain =
    let (low, _) = last_of_bounds bs b 1 hi laid in
    subst (λ t. Chain t.header t.free_list (b ∷ bs ++ new_block mem size ∷ []))
      (sym (link_block_later K s size (last_of b.addr bs) mem k (omega arith)))
      (linked-Chain bs b s.header mem size s.free_list 1 hi top laid chain)

module _ (K : Kernel) (s : Heap K) (bs : List Block) (h : IsHeap K s bs) (size : ℕ)
    (even : size % 8 ≡ 0) (small : size + 32 < 2 ^ 31) where
  link_block-IsHeap :
      (mem : Addr) (k : K.State)
      → mem ≡ K.break_of s.kernel
      → mem ≢ null
      → mem < 2 ^ 31
      → K.break_of k ≡ mem + (header_size + size)
      → IsHeap K (link_block K s size (last_of null bs) mem k) (bs ++ new_block mem size ∷ [])
  link_block-IsHeap mem k e ne low grown =
      let same = link_block-kernel K s size (last_of null bs) mem k in
      record {
        chain =
            link_block-Chain K bs s size mem (K.break_of s.kernel) k (omega arith) ne h.laid
              h.chain;
        laid = rw same (
            append-IsLaid bs 1 (K.break_of s.kernel) mem size (K.break_of k) (omega arith)
              (rw e h.aligned) even (omega arith) h.laid);
        aligned = rw (same, grown) (omega (arith, h.aligned));
        below = rw (same, grown) (omega arith);
      }

  grow-Allocated :
      (r : Option Addr × K.State)
      → Grown K (header_size + size) s.kernel r
      → Allocated K size bs (grow K s size (last_of null bs) r)
  unfolding grow
  grow-Allocated (none, k) same = inl (
    refl,
    record {
      chain = h.chain;
      laid = subst (IsLaid 1 bs) (sym same) h.laid;
      aligned = rw same h.aligned;
      below = rw same h.below;
    },
  )
  grow-Allocated (some mem, k) (e, ne, low, grown) =
      let al : mem % 8 ≡ 0 = rw e h.aligned in
      inr (
        mem,
        size,
        bs ++ new_block mem size ∷ [],
        refl,
        omega arith,
        omega arith,
        link_block-IsHeap mem k e ne low grown,
        (used bs, [], sym (append-nil (used bs)), used-append bs (new_block mem size) refl),
      )

  pub place_block-Allocated :
      (f : ℕ)
      → length bs < f
      → (r : Scan) × (scan f s.header size s.free_list null ≡ some r)
        × Allocated K size bs (place_block K s size r)
  unfolding place_block
  place_block-Allocated f fuel = elim (Option-cases (take_fit size bs)) [
    | inl no_fit ↦
        let exact : size_add header_size size ≡ header_size + size = omega arith in
        (
          ended (last_of null bs),
          scan-ended bs f s.header size s.free_list null h.chain fuel no_fit,
          rw exact (
              grow-Allocated (sbrk K (header_size + size) s.kernel)
                (sbrk-Grown K (header_size + size) s.kernel (omega arith) (omega arith))),
        )
    | inr ((a, cs), fit) ↦
        let (n, enough, new) = take_fit-Inserted size bs a cs fit in
        let laid = take_fit-IsLaid size 1 (K.break_of s.kernel) bs a cs even h.laid fit in
        (
          found a,
          (scan-found bs f s.header size s.free_list null 1 (K.break_of s.kernel) a cs h.chain
              h.laid fuel fit).0,
          inr (
            a,
            n,
            cs,
            refl,
            omega (arith, take_fit_aligned size bs 1 (K.break_of s.kernel) a cs h.laid fit),
            enough,
            record {
              chain =
                  take_block-Chain bs s.header size s.free_list 1 (K.break_of s.kernel) a cs
                    (omega arith) h.below h.laid h.chain fit;
              laid = laid;
              aligned = h.aligned;
              below = h.below;
            },
            new,
          ),
        )
  ]
