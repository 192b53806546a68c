-- ===== src/Heap/Chain.antt =====
-- The linked headers in memory against the list of blocks.
use c_lite.Base.{
  ℕ, zero, suc, ◌≤◌, ◌<◌, ◌≡◌, ◌≢◌, sym, ap, ◌∙◌, inl, inr, ◌&&◌, List, [], ◌∷◌, none, some, arith,
  leb, ◌==◌, eq→==, ne→==, length,
}
use c_lite.Memory.{Addr, null}
use c_lite.Heap.{Header, block_magic, found, ended, scan}
use c_lite.Heap.Blocks.Defs.{Block, block_end, IsLaid, fits, take_fit}
use c_lite.Heap.Blocks.FirstFit.{take_fit-some, take_fit-none, IsLaid-le}

-- From `p` the `next` pointers lead through the headers of the blocks `bs` to null.
abbrev pub Chain : (Addr → Header) → Addr → List Block → Type 0
Chain h p [] = p ≡ null
Chain h p (b ∷ bs) =
    (p ≡ b.addr)
    × (p ≢ null)
    × ((h p).size ≡ b.size)
    × ((h p).free ≡ b.free)
    × ((h p).magic ≡ block_magic)
    × Chain h (h p).next bs

-- The address of the last block, `prev` for no block.
abbrev pub last_of : Addr → List Block → Addr
last_of prev [] = prev
last_of prev (b ∷ bs) = last_of b.addr bs

-- A chain survives a change below its first block.
pub Chain-frame :
    (h g : Addr → Header) (p : Addr) (bs : List Block) (lo hi : ℕ)
    → IsLaid lo bs hi
    → ((a : Addr) → lo ≤ a → a < hi → g a ≡ h a)
    → Chain h p bs
    → Chain g p bs
Chain-frame h g p [] lo hi laid same chain = chain
Chain-frame h g p (b ∷ bs) lo hi (above, _, _, rest) same (at, ne, sz, idle, mg, chain) =
    let e : g p ≡ h p = same p (omega arith) (omega (arith, IsLaid-le (block_end b) hi bs rest)) in
    rw e (
      at,
      ne,
      sz,
      idle,
      mg,
      Chain-frame h g (h p).next bs (block_end b) hi rest (λ a lo' hi'. same a (omega arith) hi')
          chain,
    )

-- The header at `p` is the record `r`.
pub Chain-cons :
    (g : Addr → Header) (p : Addr) (b : Block) (bs : List Block) (r : Header)
    → g p ≡ r
    → (p ≡ b.addr)
      × (p ≢ null)
      × (r.size ≡ b.size)
      × (r.free ≡ b.free)
      × (r.magic ≡ block_magic)
      × Chain g r.next bs
    → Chain g p (b ∷ bs)
Chain-cons g p b bs r e parts = rw e parts

-- The test of the scan, on a header and on its block.
scan_test :
    (h : Addr → Header) (p : Addr) (b : Block) (bs : List Block) (size : ℕ)
    → Chain h p (b ∷ bs)
    → ((h p).magic == block_magic && (h p).free && leb size (h p).size) ≡ fits size b
scan_test h p b bs size (at, ne, sz, idle, mg, chain) = rw (sz, idle, mg)

-- Where no block fits, the scan ends with the last block.
pub scan-ended :
    (bs : List Block) (f : ℕ) (h : Addr → Header) (size p prev : ℕ)
    → Chain h p bs
    → length bs < f
    → take_fit size bs ≡ none
    → scan f h size p prev ≡ some (ended (last_of prev bs))
unfolding scan
scan-ended bs zero h size p prev chain fuel no_fit = absurd (omega arith)
scan-ended [] (suc f) h size p prev chain fuel no_fit = rw (eq→== p 0 chain)
scan-ended (b ∷ bs) (suc f) h size p prev (at, ne, sz, idle, mg, chain) fuel no_fit =
    let (miss, none_later) = take_fit-none size b bs no_fit in
    rw (ne→== p 0 ne, scan_test h p b bs size (at, ne, sz, idle, mg, chain), miss)
      (scan-ended bs f h size (h p).next p chain (omega arith) none_later
        ∙ ap (λ a. some (ended (last_of a bs))) at)

-- Where one fits, the scan finds the first that does.
pub scan-found :
    (bs : List Block) (f : ℕ) (h : Addr → Header) (size p prev lo hi a : ℕ) (cs : List Block)
    → Chain h p bs
    → IsLaid lo bs hi
    → length bs < f
    → take_fit size bs ≡ some (a, cs)
    → (scan f h size p prev ≡ some (found a)) × (lo ≤ a)
unfolding scan
scan-found bs zero h size p prev lo hi a cs chain laid fuel fit = absurd (omega arith)
scan-found [] (suc f) h size p prev lo hi a cs chain laid fuel fit = unfold take_fit in cc
scan-found (b ∷ bs) (suc f) h size p prev lo hi a cs (at, ne, sz, idle, mg, chain)
      (above, al, sl, rest) fuel fit =
    elim (take_fit-some size b bs a cs fit) [
      | inl (hit, e, _) ↦ (
        rw (ne→== p 0 ne, scan_test h p b bs size (at, ne, sz, idle, mg, chain), hit)
            (ap (λ q. some (found q)) (at ∙ sym e)),
        omega arith,
      )
      | inr (ds, miss, e, _) ↦
          let (run, below) =
            scan-found bs f h size (h p).next p (block_end b) hi a ds chain rest (omega arith) e in
          (
            rw (ne→== p 0 ne, scan_test h p b bs size (at, ne, sz, idle, mg, chain), miss) run,
            omega arith,
          )
    ]
