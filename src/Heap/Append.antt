-- ===== src/Heap/Append.antt =====
-- A block linked behind the last one, and two neighbours merged, on the headers.
use mathlib.Core.Path.{subst}
use c_lite.Base.{
  ℕ, ◌+◌, ◌%◌, ◌≤◌, ◌<◌, ◌≡◌, ◌≢◌, refl, sym, ◌∙◌, inl, inr, true, false, List, [], ◌∷◌, ◌++◌,
  arith,
}
use c_lite.Memory.{Addr, null}
use c_lite.Heap.{Header, block_magic, header_size, write_header}
use c_lite.Heap.Blocks.Defs.{Block, block_end, IsLaid, release, InUse}
use c_lite.Heap.Blocks.FirstFit.{release_here, release_other}
use c_lite.Heap.Chain.{Chain, Chain-frame, Chain-cons, last_of}
use c_lite.Heap.Relink.{write_header_same, write_header_other}

pub last_of_bounds :
    (bs : List Block) (b : Block) (lo hi : ℕ)
    → IsLaid lo (b ∷ bs) hi
    → (lo ≤ last_of b.addr bs) × (last_of b.addr bs < hi)
last_of_bounds [] b lo hi (above, _, _, rest) = omega arith
last_of_bounds (c ∷ bs) b lo hi (above, _, _, rest) =
    let (low, high) = last_of_bounds bs c (block_end b) hi rest in omega arith

-- The header of a new block.
abbrev pub fresh : ℕ → Header
fresh size = record { size = size; next = null; free = false; magic = block_magic }

abbrev pub new_block : Addr → ℕ → Block
new_block mem size = record { addr = mem; size = size; free = false }

-- The headers with a new block at `mem` behind the block at `l`.
abbrev pub linked : (Addr → Header) → Addr → ℕ → Addr → Addr → Header
linked h mem size l =
    let h' = write_header h mem (fresh size) in write_header h' l (record (h' l) { next = mem })

pub first-Chain :
    (h : Addr → Header) (mem size : ℕ)
    → mem ≢ null
    → Chain (write_header h mem (fresh size)) mem (new_block mem size ∷ [])
first-Chain h mem size ne =
    Chain-cons (write_header h mem (fresh size)) mem (new_block mem size) [] (fresh size)
      (write_header_same h mem (fresh size)) (refl, ne, refl, refl, refl, refl)

pub linked-Chain :
    (bs : List Block) (b : Block) (h : Addr → Header) (mem size p lo hi : ℕ)
    → hi ≤ mem
    → IsLaid lo (b ∷ bs) hi
    → Chain h p (b ∷ bs)
    → Chain (linked h mem size (last_of b.addr bs)) p (b ∷ bs ++ new_block mem size ∷ [])
linked-Chain [] b h mem size p lo hi top (above, _, _, rest) (at, ne, sz, idle, mg, chain) =
    let h' : (Addr → Header) = write_header h mem (fresh size) in
    let r : Header = record (h p) { next = mem } in
    let old : h' p ≡ h p = write_header_other h mem (fresh size) p (omega arith) in
    let g : (Addr → Header) = write_header h' p r in
    let e : linked h mem size b.addr ≡ g = rw (← at, old) in
    subst (λ k. Chain k p (b ∷ new_block mem size ∷ [])) (sym e)
      (Chain-cons g p b (new_block mem size ∷ []) r (write_header_same h' p r) (
        at,
        ne,
        sz,
        idle,
        mg,
        Chain-cons g mem (new_block mem size) [] (fresh size)
            (write_header_other h' p r mem (omega arith) ∙ write_header_same h mem (fresh size))
            (refl, omega arith, refl, refl, refl, refl),
      ))
linked-Chain (c ∷ bs) b h mem size p lo hi top (above, al, sl, rest) (at, ne, sz, idle, mg, chain) =
    let (low, high) = last_of_bounds bs c (block_end b) hi rest in
    let l = last_of c.addr bs in
    let same : linked h mem size l p ≡ h p =
      write_header_other (write_header h mem (fresh size)) l _ p (omega arith)
      ∙ write_header_other h mem (fresh size) p (omega arith) in
    Chain-cons (linked h mem size l) p b (c ∷ bs ++ new_block mem size ∷ []) (h p) same (
      at,
      ne,
      sz,
      idle,
      mg,
      linked-Chain bs c h mem size (h p).next (block_end b) hi top rest chain,
    )

pub append-IsLaid :
    (bs : List Block) (lo hi mem size hi' : ℕ)
    → hi ≤ mem
    → mem % 8 ≡ 0
    → size % 8 ≡ 0
    → mem + header_size + size ≤ hi'
    → IsLaid lo bs hi
    → IsLaid lo (bs ++ new_block mem size ∷ []) hi'
append-IsLaid [] lo hi mem size hi' top al sl room laid = (omega arith, al, sl, room)
append-IsLaid (b ∷ bs) lo hi mem size hi' top al sl room (above, al', sl', rest) =
    (above, al', sl', append-IsLaid bs (block_end b) hi mem size hi' top al sl room rest)

-- Marking a block free on its header marks it free in the list.
pub release-Chain :
    (bs : List Block) (h : Addr → Header) (a p lo hi : ℕ)
    → IsLaid lo bs hi
    → Chain h p bs
    → InUse a bs
    → Chain (write_header h a (record (h a) { free = true })) p (release a bs)
      × ((h a).magic ≡ block_magic)
      × (lo ≤ a)
release-Chain [] h a p lo hi laid chain busy = absurd busy
release-Chain (b ∷ bs) h a p lo hi (above, _, _, rest) (at, ne, sz, idle, mg, chain) (inl (e, _)) =
    let here : a ≡ p = sym e ∙ sym at in
    let r : Header = record (h p) { free = true } in
    rw (here, release_here p b bs (sym at))
      (
        Chain-cons (write_header h p r) p (record b { free = true }) bs r (write_header_same h p r)
            (
              at,
              ne,
              sz,
              refl,
              mg,
              Chain-frame h (write_header h p r) (h p).next bs (block_end b) hi rest
                  (λ q low _. write_header_other h p r q (omega arith)) chain,
            ),
        mg,
        omega arith,
      )
release-Chain (b ∷ bs) h a p lo hi (above, _, _, rest) (at, ne, sz, idle, mg, chain)
      (inr (other, busy)) =
    let (later, magic, low) = release-Chain bs h a (h p).next (block_end b) hi rest chain busy in
    let r : Header = record (h a) { free = true } in
    rw (release_other a b bs other) (
      Chain-cons (write_header h a r) p b (release a bs) (h p)
          (write_header_other h a r p (omega arith)) (at, ne, sz, idle, mg, later),
      magic,
      omega arith,
    )
