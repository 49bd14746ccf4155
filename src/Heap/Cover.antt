-- ===== src/Heap/Cover.antt =====
-- Which bytes the blocks of kernel/heap.c cover, and the invariant of the chain.
use ore_os.Base.{
  Bool-cases, [], add64, arith, if◌then◌else◌, inl, inr, leb, ltb, refl, true, ℕ, ◌&&◌, ◌++◌, ◌+◌,
  ◌^◌, ◌∷◌, ◌≡◌, ◌≤◌,
}
use ore_os.Heap.{
  Heap, HeapBlock, block_end, coalesce, header_size, heap_magic, mergeable, release, split_block,
  take_head,
}

-- How many blocks cover the byte `a`, headers included.
unfoldable pub covers : ℕ → HeapBlock → ℕ
covers a b = if leb b.addr a && ltb a (block_end b) then 1 else 0

unfoldable pub cover : ℕ → Heap → ℕ
unfolding covers
cover a [] = 0
cover a (b ∷ rest) = covers a b + cover a rest

-- A block of the chain has the magic number and ends below 2^60.
pub record IsBlock (b : HeapBlock) : Type 0 where
  pub marked : b.magic ≡ heap_magic
  pub below : block_end b ≤ 2 ^ 60

abbrev pub AllBlocks : Heap → Type 0
AllBlocks [] = Unit
AllBlocks (b ∷ rest) = IsBlock b × AllBlocks rest

-- No byte lies in two blocks.
pub record IsHeap (heap : Heap) : Type 0 where
  pub blocks : AllBlocks heap
  pub apart : (a : ℕ) → cover a heap ≤ 1

pub cover-append : (a : ℕ) (xs ys : Heap) → cover a (xs ++ ys) ≡ cover a xs + cover a ys
unfolding cover
cover-append a [] ys = omega arith
cover-append a (b ∷ xs) ys = omega (arith, cover-append a xs ys)

pub AllBlocks-append : (xs ys : Heap) → AllBlocks xs → AllBlocks ys → AllBlocks (xs ++ ys)
AllBlocks-append [] ys h k = k
AllBlocks-append (b ∷ xs) ys h k = (h.0, AllBlocks-append xs ys h.1 k)

-- Splitting keeps every byte covered as often as before.
pub cover-split_block :
    (a size : ℕ) (b : HeapBlock) (rest : Heap)
    → size ≤ b.size
    → IsBlock b
    → cover a (split_block size b rest) ≡ cover a (b ∷ rest)
unfolding cover split_block covers
cover-split_block a size b rest fits is = ground arith

pub AllBlocks-split_block :
    (size : ℕ) (b : HeapBlock) (rest : Heap)
    → size ≤ b.size
    → AllBlocks (b ∷ rest)
    → AllBlocks (split_block size b rest)
unfolding split_block
AllBlocks-split_block size b rest fits is = ground arith

pub cover-take_head : (a : ℕ) (heap : Heap) → cover a (take_head heap) ≡ cover a heap
unfolding cover take_head covers
cover-take_head a [] = refl
cover-take_head a (b ∷ rest) = refl

pub AllBlocks-take_head : (heap : Heap) → AllBlocks heap → AllBlocks (take_head heap)
unfolding take_head
AllBlocks-take_head [] h = h
AllBlocks-take_head (b ∷ rest) h = ground arith

-- A block that a search or kfree finds covers its own first byte.
pub cover_own : (b : HeapBlock) → covers b.addr b ≡ 1
unfolding covers
cover_own b = ground arith

pub cover-release : (a ptr : ℕ) (heap : Heap) → cover a (release ptr heap) ≡ cover a heap
unfolding cover release covers
cover-release a ptr [] = refl
cover-release a ptr (b ∷ rest) = ground (arith, cover-release a ptr rest)

pub AllBlocks-release : (ptr : ℕ) (heap : Heap) → AllBlocks heap → AllBlocks (release ptr heap)
unfolding release
AllBlocks-release ptr [] h = h
AllBlocks-release ptr (b ∷ rest) h = ground (arith, AllBlocks-release ptr rest h.1)

-- Joining adjacent blocks keeps every byte covered as often as before.
pub cover-join :
    (a : ℕ) (b c : HeapBlock)
    → IsBlock b
    → IsBlock c
    → mergeable b c ≡ true
    → covers a (record b { size = add64 b.size (header_size + c.size) }) ≡ covers a b + covers a c
unfolding covers mergeable
cover-join a b c ib ic m = ground arith

pub cover-coalesce : (a : ℕ) (heap : Heap) → AllBlocks heap → cover a (coalesce heap) ≡ cover a heap
unfolding cover coalesce
cover-coalesce a [] h = refl
cover-coalesce a (b ∷ []) h = refl
cover-coalesce a (b ∷ (c ∷ rest)) h = ground (
  arith,
  cover-join a b c h.0 h.1.0,
  cover-coalesce a rest h.1.1,
  cover-coalesce a (c ∷ rest) h.1,
)

IsBlock-join :
    (b c : HeapBlock)
    → IsBlock b
    → IsBlock c
    → mergeable b c ≡ true
    → IsBlock (record b { size = add64 b.size (header_size + c.size) })
unfolding mergeable
IsBlock-join b c ib ic m = ground arith

pub AllBlocks-coalesce : (heap : Heap) → AllBlocks heap → AllBlocks (coalesce heap)
unfolding coalesce
AllBlocks-coalesce [] h = h
AllBlocks-coalesce (b ∷ []) h = h
AllBlocks-coalesce (b ∷ (c ∷ rest)) h = elim (Bool-cases (mergeable b c)) [
  | inl m ↦ rw m (IsBlock-join b c h.0 h.1.0 m, AllBlocks-coalesce rest h.1.1)
  | inr m ↦ rw m (h.0, AllBlocks-coalesce (c ∷ rest) h.1)
]
