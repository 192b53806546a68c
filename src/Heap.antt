-- ===== src/Heap.antt =====
-- sbrk, malloc and free of src/stdlib.c over an explicit map of block headers. A `size_t` is a
-- number below 2 ^ 32 with its wrap-around written out; the kernel behind `syscall(9, …)` is a
-- parameter. A loop over the blocks runs on fuel, and `none` means that the fuel ran out.
pub mod Blocks
pub mod Chain
pub mod Copies
pub mod Relink
pub mod Alloc
pub mod Api
pub mod Payload
pub mod Append
pub mod Merge
use c_lite.Base.{
  ℕ, zero, suc, ◌+◌, ◌-◌, ◌*◌, ◌/◌, ◌%◌, ◌^◌, ◌≤◌, ◌≡◌, ◌≢◌, Bool, true, false, not, ◌&&◌, ◌||◌,
  Option, none, some, leb, ltb, ◌==◌, if◌then◌else◌, ◌>>=◌,
}
use c_lite.Memory.{Addr, null}

abbrev pub block_magic : ℕ
block_magic = 0x4C425344

-- `sizeof(block_header_t)`
abbrev pub header_size : ℕ
header_size = 16

-- `block_header_t`
pub record Header : Type 0 where
  pub size : ℕ
  pub next : Addr
  pub free : Bool
  pub magic : ℕ

-- The brk call of the kernel: `request` 0 asks for the break, any other value is the break asked
-- for. `break_of` is the break that a kernel state stands for.
pub record Kernel : Type 1 where
  pub State : Type 0
  pub brk : ℕ → State → ℕ × State
  pub break_of : State → ℕ
  pub brk-query : (k : State) → brk 0 k ≡ (break_of k, k)
  pub brk-granted : (t : ℕ) (k : State) → t ≢ 0 → (brk t k).0 ≡ t → break_of (brk t k).1 ≡ t
  pub brk-refused : (t : ℕ) (k : State) → (brk t k).0 ≢ t → break_of (brk t k).1 ≡ break_of k

-- What a scan of the blocks ends with: a block that fits, or the last block.
pub data Scan : Type 0 where
  found : Addr → Scan
  ended : Addr → Scan

-- (size + 7) & ~7
unfoldable pub align : ℕ → ℕ
align size = (size + 7) % 2 ^ 32 / 8 * 8

abbrev pub size_add : ℕ → ℕ → ℕ
size_add a b = (a + b) % 2 ^ 32

abbrev pub size_sub : ℕ → ℕ → ℕ
size_sub a b = (a + 2 ^ 32 - b) % 2 ^ 32

module _ (K : Kernel) where
  -- The headers in memory, the static `free_list`, and the kernel.
  pub record Heap : Type 0 where
    pub header : Addr → Header
    pub free_list : Addr
    pub kernel : K.State

abbrev pub write_header : (Addr → Header) → Addr → Header → Addr → Header
write_header h p v q = if q == p then v else h q

-- `none` is (void *)-1. A `long` is negative from 2 ^ 31 on.
unfoldable pub sbrk : (K : Kernel) → ℕ → K.State → Option Addr × K.State
sbrk K increment k =
    let (cur, k') = K.brk 0 k in
    let target = size_add cur increment in
    let (res, k'') = K.brk target k' in
    if cur == 0 || leb (2 ^ 31) cur
    then (none, k')
    else if increment == 0
    then (some cur, k')
    else if res == target
    then (some cur, k'')
    else (none, k'')

pub scan : ℕ → (Addr → Header) → ℕ → Addr → Addr → Option Scan
scan zero h size curr prev = none
scan (suc f) h size curr prev =
    let rest = scan f h size (h curr).next curr in
    if curr == null
    then some (ended prev)
    else if (h curr).magic == block_magic && (h curr).free && leb size (h curr).size
    then some (found curr)
    else rest

-- The block `curr` is taken, and split if the remainder is worth it.
pub take_block : (Addr → Header) → ℕ → Addr → Addr → Header
take_block h size curr =
    let rest = curr + header_size + size in
    if leb (size_add (size_add size header_size) 16) (h curr).size
    then write_header
        (write_header h rest (record {
          size = size_sub (size_sub (h curr).size size) header_size;
          next = (h curr).next;
          free = true;
          magic = block_magic;
        }))
        curr (record { size = size; next = rest; free = false; magic = (h curr).magic })
    else write_header h curr (record (h curr) { free = false })

module _ (K : Kernel) where
  -- A new block at `mem`, linked behind the block `prev`.
  pub link_block : Heap K → ℕ → Addr → Addr → K.State → Heap K
  link_block s size prev mem k =
      let h =
        write_header s.header mem
          (record { size = size; next = null; free = false; magic = block_magic }) in
      if prev == null then record { header = h; free_list = mem; kernel = k } else record {
        header = write_header h prev (record (h prev) { next = mem });
        free_list = s.free_list;
        kernel = k;
      }

  grow : Heap K → ℕ → Addr → Option Addr × K.State → Addr × Heap K
  grow s size prev (none, k) = (null, record s { kernel = k })
  grow s size prev (some mem, k) = (mem + header_size, link_block s size prev mem k)

  -- What follows the scan.
  pub place_block : Heap K → ℕ → Scan → Addr × Heap K
  place_block s size (found curr) =
      (curr + header_size, record s { header = take_block s.header size curr })
  place_block s size (ended prev) = grow s size prev (sbrk K (size_add header_size size) s.kernel)

  unfoldable pub malloc : ℕ → Heap K → ℕ → Option (Addr × Heap K)
  unfolding align scan take_block link_block grow place_block sbrk
  malloc fuel s size = if size == 0 then some (null, s) else (do
    r ← scan fuel s.header (align size) s.free_list null
    some (place_block s (align size) r))

-- while (curr && curr->next), with `continue` after a merge
pub coalesce_loop : ℕ → (Addr → Header) → Addr → Option (Addr → Header)
coalesce_loop zero h curr = none
coalesce_loop (suc f) h curr =
    let after = (h curr).next in
    let merged =
      coalesce_loop f
        (write_header h curr (record (h curr) {
          size = size_add (h curr).size (size_add header_size (h after).size);
          next = (h after).next;
        }))
        curr in
    let moved = coalesce_loop f h after in
    if curr == null || after == null
    then some h
    else if (h curr).free && (h after).free && curr + header_size + (h curr).size == after
    then merged
    else moved

module _ (K : Kernel) where
  -- A pointer whose header has no magic is left alone.
  unfoldable pub free : ℕ → Heap K → Addr → Option (Heap K)
  unfolding coalesce_loop
  free fuel s ptr =
      if ptr == null
      then some s
      else (let block = size_sub ptr header_size in
          if not ((s.header block).magic == block_magic) then some s else (do
            h ←
                coalesce_loop fuel
                  (write_header s.header block (record (s.header block) { free = true }))
                  s.free_list
            some (record s { header = h })))
