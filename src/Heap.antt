-- ===== src/Heap.antt =====
-- kernel/heap.c: kmalloc and kfree over a chain of blocks. The chain from `heap_head` along the `next`
-- pointers is a list, each block with its address; `next` is the address of the block behind it. The
-- pages that pmm_alloc_pages returns are an argument.
pub mod Cover
pub mod Allocated
pub mod Search
pub mod Operations
pub mod Zeroed
mod Tests
use ore_os.Base.{
  Bool, List, Memory, Option, [], add64, false, if◌then◌else◌, leb, mem_zero, none, some, sub64,
  true, u32_mod, ℕ, ◌%◌, ◌&&◌, ◌*◌, ◌++◌, ◌+◌, ◌/◌, ◌==◌, ◌∷◌,
}

abbrev pub heap_magic : ℕ
heap_magic = 0x484541504f52454

-- sizeof(HeapBlock): three words and a pointer.
abbrev pub header_size : ℕ
header_size = 32

abbrev pub heap_page_size : ℕ
heap_page_size = 4096

pub record HeapBlock : Type 0 where
  pub addr : ℕ
  pub magic : ℕ
  pub size : ℕ
  pub free : Bool

abbrev pub Heap : Type 0
Heap = List HeapBlock

-- `(value + align - 1) & ~(align - 1)` for a power of two.
pub align_to : ℕ → ℕ → ℕ
align_to align value = sub64 (add64 value align) 1 / align * align

-- `block + 1`, and the first byte behind the block.
abbrev pub payload : HeapBlock → ℕ
payload b = b.addr + header_size

abbrev pub block_end : HeapBlock → ℕ
block_end b = b.addr + header_size + b.size

-- The test of the search loop.
pub serves : ℕ → HeapBlock → Bool
serves size b = b.magic == heap_magic && b.free && leb size b.size

-- split_block: the block, cut to `size`, and the rest as a free block if the rest is worth it.
pub split_block : ℕ → HeapBlock → List HeapBlock → List HeapBlock
split_block size b rest =
    let remaining = sub64 b.size size in
    if leb remaining (header_size + 32)
    then b ∷ rest
    else record b { size = size }
      ∷ (record {
        addr = payload b + size;
        magic = heap_magic;
        size = sub64 remaining header_size;
        free = true;
      }
          ∷ rest)

-- `block->free = 0` at the head of the list.
pub take_head : List HeapBlock → List HeapBlock
take_head [] = []
take_head (b ∷ rest) = record b { free = false } ∷ rest

-- A result of the search behind a block that does not serve.
pub behind : HeapBlock → Option (ℕ × Heap) → Option (ℕ × Heap)
behind b none = none
behind b (some (p, rest)) = some (p, b ∷ rest)

-- The first block that serves is split and taken; `none` if there is none. The result is the address
-- of the payload and the new chain.
pub take_first : ℕ → Heap → Option (ℕ × Heap)
unfolding serves split_block take_head behind
take_first size [] = none
take_first size (b ∷ rest) =
    let later = behind b (take_first size rest) in
    if serves size b then some (payload b, take_head (split_block size b rest)) else later

-- `total / PAGE_SIZE` as request_block asks for it.
pub request_pages : ℕ → ℕ
unfolding align_to
request_pages size = align_to heap_page_size (add64 header_size size) / heap_page_size % u32_mod

-- The block that request_block puts at the end of the chain, on fresh pages at `pages`.
pub fresh_block : ℕ → ℕ → HeapBlock
unfolding align_to
fresh_block pages size = record {
  addr = pages;
  magic = heap_magic;
  size = sub64 (align_to heap_page_size (add64 header_size size)) header_size;
  free = true;
}

-- kmalloc; `pages` is what pmm_alloc_pages returns for `request_pages`, if it is called (0 is NULL).
pub kmalloc : (pages : ℕ) → ℕ → Heap → ℕ × Heap
unfolding take_first fresh_block align_to split_block take_head
kmalloc pages wanted heap =
    let size = align_to 16 wanted in
    let grown =
      if pages == 0
      then (0, heap)
      else (let b = fresh_block pages size in
          (payload b, heap ++ take_head (split_block size b []))) in
    if wanted == 0
    then (0, heap)
    else elim (take_first size heap) [ some (p, heap') ↦ (p, heap') | none ↦ grown ]

-- heap_init
pub heap_init : Heap
heap_init = []

-- kzalloc, with the memory whose bytes it clears.
pub kzalloc : (pages : ℕ) → ℕ → Heap → Memory → ℕ × Heap × Memory
unfolding kmalloc
kzalloc pages size heap m =
    let (p, heap') = kmalloc pages size heap in (p, heap', if p == 0 then m else mem_zero p size m)

-- `block->free = 1` for the block whose payload is at `ptr`.
pub release : ℕ → Heap → Heap
release ptr [] = []
release ptr (b ∷ rest) =
    if payload b == ptr then record b { free = true } ∷ rest else b ∷ release ptr rest

-- The loop of kfree that joins a free block with the free block behind it, if the two are adjacent.
-- After a join the loop goes on with the next block of the chain.
pub mergeable : HeapBlock → HeapBlock → Bool
mergeable b c = b.free && c.free && block_end b == c.addr

pub coalesce : Heap → Heap
unfolding mergeable
coalesce [] = []
coalesce (b ∷ []) = b ∷ []
coalesce (b ∷ (c ∷ rest)) =
    let joined = record b { size = add64 b.size (header_size + c.size) } ∷ coalesce rest in
    let apart = b ∷ coalesce (c ∷ rest) in if mergeable b c then joined else apart

-- The block that kfree finds in front of `ptr`.
pub block_at : ℕ → Heap → Option HeapBlock
block_at ptr [] = none
block_at ptr (b ∷ rest) = if payload b == ptr then some b else block_at ptr rest

-- kfree; `none` is the panic on a block without the magic number, and an address in front of which no
-- block of the chain stands.
pub kfree : ℕ → Heap → Option Heap
unfolding block_at release coalesce
kfree ptr heap = if ptr == 0 then some heap else elim (block_at ptr heap) [
  | none ↦ none
  | some b ↦ if b.magic == heap_magic then some (coalesce (release ptr heap)) else none
]
