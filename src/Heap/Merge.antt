-- ===== src/Heap/Merge.antt =====
-- The loop of free against coalescing of the blocks.
use mathlib.Core.Path.{subst}
use c_lite.Base.{
  ℕ, zero, suc, ◌+◌, ◌^◌, ◌≤◌, ◌<◌, ◌≡◌, refl, ◌∙◌, inl, inr, true, ◌&&◌, List, [], ◌∷◌, some,
  arith, ◌==◌, eq→==, ne→==, Bool-cases, length,
}
use c_lite.Memory.{Addr}
use c_lite.Heap.{Header, header_size, write_header, size_add, coalesce_loop}
use c_lite.Heap.Blocks.Defs.{Block, block_end, IsLaid, coalesce_from}
use c_lite.Heap.Blocks.FirstFit.{IsLaid-le}
use c_lite.Heap.Blocks.Coalesce.{
  joins, merged, joins_parts, coalesce_from_join, coalesce_from_apart,
}
use c_lite.Heap.Chain.{Chain, Chain-frame, Chain-cons}
use c_lite.Heap.Relink.{write_header_same, write_header_other}

-- The test of the loop, on two headers and on their blocks.
joins_test :
    (h : Addr → Header) (p : Addr) (b c : Block) (bs : List Block)
    → Chain h p (b ∷ c ∷ bs)
    → ((h p).free && (h (h p).next).free && p + header_size + (h p).size == (h p).next) ≡ joins b c
joins_test h p b c bs (at, ne, sz, idle, mg, (at', ne', sz', idle', mg', chain)) =
    rw (sz, idle, idle', at', at)

pub coalesce_loop-Chain :
    (bs : List Block) (b : Block) (f : ℕ) (h : Addr → Header) (p lo hi : ℕ)
    → hi < 2 ^ 32
    → IsLaid lo (b ∷ bs) hi
    → Chain h p (b ∷ bs)
    → length bs < f
    → (g : Addr → Header) × (coalesce_loop f h p ≡ some g)
      × Chain g p (coalesce_from b bs)
      × ((a : Addr) → a < p → g a ≡ h a)
unfolding coalesce_loop
coalesce_loop-Chain bs b zero h p lo hi below laid chain fuel = absurd (omega arith)
coalesce_loop-Chain [] b (suc f) h p lo hi below laid (at, ne, sz, idle, mg, chain) fuel = (
  h,
  rw (ne→== p 0 ne, eq→== (h p).next 0 chain),
  unfold coalesce_from in (at, ne, sz, idle, mg, chain),
  λ a lt. refl,
)
coalesce_loop-Chain (c ∷ bs) b (suc f) h p lo hi below (above, al, sl, (above', al', sl', rest))
      (at, ne, sz, idle, mg, (at', ne', sz', idle', mg', chain)) fuel =
    elim (Bool-cases (joins b c)) [
      | inl join ↦
          let (g, run, made, low) =
            coalesce_loop-Chain bs (merged b c) f (write_header h p r) p lo hi below
              (above, al, omega arith, subst (λ l. IsLaid l bs hi) (merged_end join) rest)
              (Chain-cons (write_header h p r) p (merged b c) bs r (write_header_same h p r) (
                at,
                ne,
                size_ok,
                idle,
                mg,
                Chain-frame h (write_header h p r) r.next bs (block_end c) hi rest
                    (λ q lo' _. write_header_other h p r q (omega arith)) chain,
              ))
              (omega arith) in
          (
            g,
            rw (ne→== p 0 ne, ne→== (h p).next 0 ne', test, join) run,
            rw (coalesce_from_join b c bs join) made,
            λ a lt. low a lt ∙ write_header_other h p r a (omega arith),
          )
      | inr apart ↦
          let (g, run, made, low) =
            coalesce_loop-Chain bs c f h (h p).next (block_end b) hi below (above', al', sl', rest)
              (at', ne', sz', idle', mg', chain) (omega arith) in
          (
            g,
            rw (ne→== p 0 ne, ne→== (h p).next 0 ne', test, apart) run,
            rw (coalesce_from_apart b c bs apart) (
                Chain-cons g p b (coalesce_from c bs) (h p) (low p (omega arith))
                  (at, ne, sz, idle, mg, made)),
            λ a lt. low a (omega arith),
          )
    ]
  where
    top : block_end c ≤ hi
    top = IsLaid-le (block_end c) hi bs rest

    r : Header
    r = record (h p) {
      size = size_add (h p).size (size_add header_size (h (h p).next).size);
      next = (h (h p).next).next;
    }

    size_ok :
        size_add (h p).size (size_add header_size (h (h p).next).size)
        ≡ b.size + (header_size + c.size)
    size_ok = omega (arith, top)

    merged_end : joins b c ≡ true → block_end c ≡ block_end (merged b c)
    merged_end join = omega (arith, (joins_parts b c join).2)

    test :
        ((h p).free && (h (h p).next).free && p + header_size + (h p).size == (h p).next)
        ≡ joins b c
    test = joins_test h p b c bs (at, ne, sz, idle, mg, (at', ne', sz', idle', mg', chain))
