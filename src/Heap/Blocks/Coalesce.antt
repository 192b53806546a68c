-- ===== src/Heap/Blocks/Coalesce.antt =====
-- Coalescing keeps the layout and the blocks in use, and leaves no free neighbours.
use mathlib.Core.Path.{subst}
use c_lite.Base.{
  ℕ, ◌+◌, ◌≡◌, refl, sym, ap, ◌∙◌, inl, inr, Bool, true, false, ◌&&◌, List, [], ◌∷◌, arith, ◌==◌,
  Bool-cases,
}
use c_lite.Heap.{header_size}
use c_lite.Heap.Blocks.Defs.{Block, block_end, IsLaid, used, coalesce_from, coalesce, IsCoalesced}
use c_lite.Heap.Blocks.FirstFit.{used_free}

abbrev pub joins : Block → Block → Bool
joins b c = b.free && c.free && block_end b == c.addr

abbrev pub merged : Block → Block → Block
merged b c = record b { size = b.size + (header_size + c.size) }

pub coalesce_from_join :
    (b c : Block) (bs : List Block)
    → joins b c ≡ true
    → coalesce_from b (c ∷ bs) ≡ coalesce_from (merged b c) bs
unfolding coalesce_from
coalesce_from_join b c bs h = rw (h, coalesce_from)

pub coalesce_from_apart :
    (b c : Block) (bs : List Block)
    → joins b c ≡ false
    → coalesce_from b (c ∷ bs) ≡ b ∷ coalesce_from c bs
unfolding coalesce_from
coalesce_from_apart b c bs h = rw (h, coalesce_from)

pub joins_parts :
    (b c : Block) → joins b c ≡ true → (b.free ≡ true) × (c.free ≡ true) × (block_end b ≡ c.addr)
joins_parts b c h = ground arith

coalesce_from-IsLaid :
    (lo hi : ℕ) (b : Block) (bs : List Block)
    → IsLaid lo (b ∷ bs) hi
    → IsLaid lo (coalesce_from b bs) hi
coalesce_from-IsLaid lo hi b [] laid = unfold coalesce_from in laid
coalesce_from-IsLaid lo hi b (c ∷ bs) (above, at, sz, (above', at', sz', rest)) =
    elim (Bool-cases (joins b c)) [
      | inl join ↦
          let (_, _, adjacent) = joins_parts b c join in
          let e : block_end c ≡ b.addr + header_size + (b.size + (header_size + c.size)) =
            omega arith in
          rw (coalesce_from_join b c bs join) (
            coalesce_from-IsLaid lo hi (merged b c) bs
              (above, at, omega arith, subst (λ l. IsLaid l bs hi) e rest))
      | inr apart ↦
          rw (coalesce_from_apart b c bs apart)
            (above, at, sz, coalesce_from-IsLaid (block_end b) hi c bs (above', at', sz', rest))
    ]

-- Coalescing keeps the layout.
pub coalesce-IsLaid : (lo hi : ℕ) (bs : List Block) → IsLaid lo bs hi → IsLaid lo (coalesce bs) hi
unfolding coalesce
coalesce-IsLaid lo hi [] laid = laid
coalesce-IsLaid lo hi (b ∷ bs) laid = coalesce_from-IsLaid lo hi b bs laid

used-cons : (b : Block) (bs cs : List Block) → used bs ≡ used cs → used (b ∷ bs) ≡ used (b ∷ cs)
unfolding used
used-cons b bs cs h = ground arith

coalesce_from-used : (b : Block) (bs : List Block) → used (coalesce_from b bs) ≡ used (b ∷ bs)
coalesce_from-used b [] = unfold coalesce_from in refl
coalesce_from-used b (c ∷ bs) = elim (Bool-cases (joins b c)) [
  | inl join ↦
      let (idle, idle', _) = joins_parts b c join in
      ap used (coalesce_from_join b c bs join)
      ∙ coalesce_from-used (merged b c) bs
      ∙ used_free (merged b c) bs idle
      ∙ sym (used_free b (c ∷ bs) idle ∙ used_free c bs idle')
  | inr apart ↦
      ap used (coalesce_from_apart b c bs apart)
      ∙ used-cons b (coalesce_from c bs) (c ∷ bs) (coalesce_from-used c bs)
]

-- Coalescing leaves the used blocks alone.
pub coalesce-used : (bs : List Block) → used (coalesce bs) ≡ used bs
unfolding coalesce
coalesce-used [] = refl
coalesce-used (b ∷ bs) = coalesce_from-used b bs

-- The first block keeps its place and stays free or in use.
coalesce_from-cons :
    (b : Block) (bs : List Block)
    → (d : Block) × (ds : List Block) × (coalesce_from b bs ≡ d ∷ ds)
      × (d.addr ≡ b.addr)
      × (d.free ≡ b.free)
coalesce_from-cons b [] = (b, [], unfold coalesce_from in refl, refl, refl)
coalesce_from-cons b (c ∷ bs) = elim (Bool-cases (joins b c)) [
  | inl join ↦
      let (d, ds, e, at, idle) = coalesce_from-cons (merged b c) bs in
      (d, ds, coalesce_from_join b c bs join ∙ e, at, idle)
  | inr apart ↦ (b, coalesce_from c bs, coalesce_from_apart b c bs apart, refl, refl)
]

coalesce_from-IsCoalesced : (b : Block) (bs : List Block) → IsCoalesced (coalesce_from b bs)
coalesce_from-IsCoalesced b [] = unfold coalesce_from in tt
coalesce_from-IsCoalesced b (c ∷ bs) = elim (Bool-cases (joins b c)) [
  | inl join ↦ rw (coalesce_from_join b c bs join) (coalesce_from-IsCoalesced (merged b c) bs)
  | inr apart ↦
      let (d, ds, e, at, idle) = coalesce_from-cons c bs in
      let tail : IsCoalesced (d ∷ ds) = subst IsCoalesced e (coalesce_from-IsCoalesced c bs) in
      rw (coalesce_from_apart b c bs apart, e) (ground arith, tail)
]

-- After coalescing no free block begins where a free block ends.
pub coalesce-IsCoalesced : (bs : List Block) → IsCoalesced (coalesce bs)
unfolding coalesce
coalesce-IsCoalesced [] = tt
coalesce-IsCoalesced (b ∷ bs) = coalesce_from-IsCoalesced b bs
