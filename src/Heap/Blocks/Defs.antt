-- ===== src/Heap/Blocks/Defs.antt =====
-- The allocator without pointers: the blocks in the order of their addresses, first fit, splitting
-- and coalescing, and what these keep.
use c_lite.Base.{
  ℕ, ◌+◌, ◌-◌, ◌%◌, ◌≤◌, ◌≡◌, ◌≢◌, ◌⊎◌, Bool, true, false, ◌&&◌, List, [], ◌∷◌, ◌++◌, Option, none,
  some, leb, ◌==◌, if◌then◌else◌,
}
use c_lite.Memory.{Addr}
use c_lite.Heap.{header_size}

-- A header and the bytes behind it.
pub record Block : Type 0 where
  pub addr : Addr
  pub size : ℕ
  pub free : Bool

abbrev pub block_end : Block → ℕ
block_end b = b.addr + header_size + b.size

-- The blocks lie between `lo` and `hi` in this order, do not overlap, and are aligned to 8.
abbrev pub IsLaid : ℕ → List Block → ℕ → Type 0
IsLaid lo [] hi = lo ≤ hi
IsLaid lo (b ∷ bs) hi =
    (lo ≤ b.addr) × (b.addr % 8 ≡ 0) × (b.size % 8 ≡ 0) × IsLaid (block_end b) bs hi

-- The blocks that are handed out.
unfoldable pub used : List Block → List Block
used [] = []
used (b ∷ bs) = if b.free then used bs else b ∷ used bs

-- `ys` is `xs` with `b` put in at some place.
abbrev pub Inserted : Block → List Block → List Block → Type 0
Inserted b xs ys =
    (pre : List Block) × (post : List Block) × (xs ≡ pre ++ post) × (ys ≡ pre ++ b ∷ post)

abbrev pub fits : ℕ → Block → Bool
fits size b = b.free && leb size b.size

-- The block is handed out, its end split off if a header and 16 bytes are left.
unfoldable pub split : ℕ → Block → List Block → List Block
split size b bs =
    if leb (size + 32) b.size
    then record { addr = b.addr; size = size; free = false }
      ∷ record {
        addr = b.addr + header_size + size;
        size = b.size - size - header_size;
        free = true;
      }
      ∷ bs
    else record b { free = false } ∷ bs

abbrev pub keep : Block → Option (Addr × List Block) → Option (Addr × List Block)
keep b none = none
keep b (some (a, cs)) = some (a, b ∷ cs)

-- First fit.
unfoldable pub take_fit : ℕ → List Block → Option (Addr × List Block)
take_fit size [] = none
take_fit size (b ∷ bs) =
    if fits size b then some (b.addr, split size b bs) else keep b (take_fit size bs)

-- Each free block is merged with the free block that begins where it ends.
unfoldable pub coalesce_from : Block → List Block → List Block
coalesce_from b [] = b ∷ []
coalesce_from b (c ∷ bs) = elim (b.free && c.free && block_end b == c.addr) [
  | true ↦ coalesce_from (record b { size = b.size + (header_size + c.size) }) bs
  | false ↦ b ∷ coalesce_from c bs
]

unfoldable pub coalesce : List Block → List Block
unfolding coalesce_from
coalesce [] = []
coalesce (b ∷ bs) = coalesce_from b bs

-- No free block begins where a free block ends.
abbrev pub IsCoalesced : List Block → Type 0
IsCoalesced [] = Unit
IsCoalesced (b ∷ []) = Unit
IsCoalesced (b ∷ c ∷ bs) =
    ((b.free && c.free && block_end b == c.addr) ≡ false) × IsCoalesced (c ∷ bs)

-- The block at `a` becomes free.
unfoldable pub release : Addr → List Block → List Block
release a [] = []
release a (b ∷ bs) = if b.addr == a then record b { free = true } ∷ bs else b ∷ release a bs

-- The block at `a` is handed out.
abbrev pub InUse : Addr → List Block → Type 0
InUse a [] = ⊥
InUse a (b ∷ bs) = ((b.addr ≡ a) × (b.free ≡ false)) ⊎ ((b.addr ≢ a) × InUse a bs)
