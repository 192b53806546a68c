-- ===== src/Heap/Relink.antt =====
-- Taking a block, linking a new one and merging two, on the headers.
use c_lite.Base.{
  ℕ, suc, ◌+◌, ◌-◌, ◌^◌, ◌≤◌, ◌<◌, ◌≡◌, ◌≢◌, refl, sym, ◌∙◌, inl, inr, true, false, List, [], ◌∷◌,
  some, arith, leb, leb→le, leb→gt, le→leb, gt→leb, Bool-cases, length,
}
use c_lite.Memory.{Addr}
use c_lite.Heap.{Header, block_magic, header_size, take_block, write_header, size_add, size_sub}
use c_lite.Heap.Blocks.Defs.{Block, block_end, IsLaid, fits, split, take_fit}
use c_lite.Heap.Blocks.FirstFit.{take_fit-some, IsLaid-le}
use c_lite.Heap.Chain.{Chain, Chain-frame, Chain-cons, scan-found}

pub write_header_same : (h : Addr → Header) (p : Addr) (r : Header) → write_header h p r p ≡ r
write_header_same h p r = ground arith

pub write_header_other :
    (h : Addr → Header) (p : Addr) (r : Header) (q : Addr) → q ≢ p → write_header h p r q ≡ h q
write_header_other h p r q ne = ground arith

take_block_other : (h : Addr → Header) (size a q : ℕ) → q < a → take_block h size a q ≡ h q
unfolding take_block
take_block_other h size a q lt = ground arith

module _ (h : Addr → Header) (size p : ℕ) (b : Block) (bs : List Block) (lo hi : ℕ)
    (small : size + 32 < 2 ^ 32) (below : hi < 2 ^ 32) (laid : IsLaid lo (b ∷ bs) hi)
    (fit : fits size b ≡ true) where
  abbrev front : Header
  front = record { size = size; next = p + header_size + size; free = false; magic = (h p).magic }

  abbrev back : Header
  back = record {
    size = size_sub (size_sub (h p).size size) header_size;
    next = (h p).next;
    free = true;
    magic = block_magic;
  }

  abbrev remainder : Block
  remainder = record {
    addr = b.addr + header_size + size;
    size = b.size - size - header_size;
    free = true;
  }

  split_here :
      Chain h p (b ∷ bs)
      → size + 32 ≤ b.size
      → Chain
          (write_header (write_header h (p + header_size + size) back) p front)
          p
          (record { addr = b.addr; size = size; free = false } ∷ remainder ∷ bs)
  split_here (at, ne, sz, idle, mg, chain) room =
      let q : Addr = p + header_size + size in
      let g : (Addr → Header) = write_header (write_header h q back) p front in
      let (_, _, _, rest) = laid in
      let top = IsLaid-le (block_end b) hi bs rest in
      let same : (a : Addr) → block_end b ≤ a → a < hi → g a ≡ h a = λ a above _.
        write_header_other (write_header h q back) p front a (omega arith)
        ∙ write_header_other h q back a (omega arith) in
      let last = Chain-frame h g (h p).next bs (block_end b) hi rest same chain in
      let inner =
        Chain-cons g q remainder bs back
          (write_header_other (write_header h q back) p front q (omega arith)
            ∙ write_header_same h q back)
          (omega arith, omega arith, omega arith, refl, refl, last) in
      Chain-cons g p (record { addr = b.addr; size = size; free = false }) (remainder ∷ bs) front
        (write_header_same (write_header h q back) p front) (at, ne, refl, refl, mg, inner)

  take_here : Chain h p (b ∷ bs) → Chain (take_block h size p) p (split size b bs)
  unfolding take_block split
  take_here (at, ne, sz, idle, mg, chain) = elim (Bool-cases (leb (size + 32) b.size)) [
    | inl large ↦
        let room : size + 32 ≤ b.size = leb→le _ _ large in
        let t : leb (size_add (size_add size header_size) 16) (h p).size ≡ true =
          le→leb _ _ (omega arith) in
        rw (t, large) (split_here (at, ne, sz, idle, mg, chain) room)
    | inr tight ↦
        let t : leb (size_add (size_add size header_size) 16) (h p).size ≡ false =
          gt→leb _ _ (omega (arith, leb→gt _ _ tight)) in
        let (_, _, _, rest) = laid in
        let r : Header = record (h p) { free = false } in
        rw (t, tight)
          (Chain-cons (write_header h p r) p (record b { free = false }) bs r
            (write_header_same h p r)
            (
              at,
              ne,
              sz,
              refl,
              mg,
              Chain-frame h (write_header h p r) (h p).next bs (block_end b) hi rest
                  (λ a above _. write_header_other h p r a (omega arith)) chain,
            ))
  ]

-- Taking the block that first fit chooses makes the chain of the blocks that first fit leaves.
pub take_block-Chain :
    (bs : List Block) (h : Addr → Header) (size p lo hi a : ℕ) (cs : List Block)
    → size + 32 < 2 ^ 32
    → hi < 2 ^ 32
    → IsLaid lo bs hi
    → Chain h p bs
    → take_fit size bs ≡ some (a, cs)
    → Chain (take_block h size a) p cs
take_block-Chain [] h size p lo hi a cs small below laid chain fit = unfold take_fit in cc
take_block-Chain (b ∷ bs) h size p lo hi a cs small below (above, al, sl, rest)
      (at, ne, sz, idle, mg, chain) fit =
    elim (take_fit-some size b bs a cs fit) [
      | inl (hit, e, f) ↦
          let here : a ≡ p = e ∙ sym at in
          rw (here, f)
            (take_here h size p b bs lo hi small below (above, al, sl, rest) hit
              (at, ne, sz, idle, mg, chain))
      | inr (ds, miss, e, f) ↦
          let later =
            (scan-found bs (suc (length bs)) h size (h p).next p (block_end b) hi a ds chain rest
              (omega arith) e).1 in
          let same : take_block h size a p ≡ h p = take_block_other h size a p (omega arith) in
          rw f (
            Chain-cons (take_block h size a) p b ds (h p) same (
              at,
              ne,
              sz,
              idle,
              mg,
              take_block-Chain bs h size (h p).next (block_end b) hi a ds small below rest chain e,
            ))
    ]
