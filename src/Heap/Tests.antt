-- ===== src/Heap/Tests.antt =====
-- kmalloc and kfree of kernel/heap.c on a chain of three blocks.
use ore_os.Base.{
  Bool, [], arith, false, if◌then◌else◌, none, refl, some, true, ℕ, ◌+◌, ◌-◌, ◌==◌, ◌∷◌, ◌≡◌, ◌≤◌,
  ◌⊎◌,
}
use ore_os.Heap.{
  Heap, HeapBlock, align_to, coalesce, heap_magic, kfree, kmalloc, mergeable, request_pages, serves,
}
use ore_os.Heap.Cover.{IsHeap, cover, covers}
use ore_os.Heap.Allocated.{allocated, allocated_apart}
use ore_os.Heap.Search.{NoneServes}
use ore_os.Heap.Operations.{IsFresh, coalesce_leaves, kfree_lem, kmalloc_lem}

abbrev block : (addr size : ℕ) → Bool → HeapBlock
block addr size free = record { addr = addr; magic = heap_magic; size = size; free = free }

-- One page: 32 bytes in use, 64 bytes free, the rest in use.
abbrev chain : Heap
chain = block 0x1000 32 false ∷ (block 0x1040 64 true ∷ (block 0x10a0 (4096 - 192) false ∷ []))

chain-IsHeap : IsHeap chain
unfolding cover covers
chain-IsHeap = record { blocks = omega arith; apart = λ a. ground arith }

malloc_reuses : (kmalloc 0 50 chain).0 ≡ 0x1060
unfolding kmalloc serves
malloc_reuses = refl

malloc_grows : (kmalloc 0x8000 100 chain).0 ≡ 0x8020
unfolding kmalloc serves
malloc_grows = refl

untouched_page : IsFresh 0x8000 (align_to 16 100) chain
unfolding cover covers request_pages
untouched_page = record { below = omega arith; apart = λ a lo hi. ground arith }

kmalloc_lem_example :
    let (p, heap') = kmalloc 0x8000 100 chain in
    IsHeap heap'
    × ((heap' ≡ chain)
          × (p ≡ 0)
          × ((◌≡◌ {A = ℕ} 100 0) ⊎ (◌≡◌ {A = ℕ} 0x8000 0) × NoneServes (align_to 16 100) chain)
        ⊎ (allocated p chain ≡ none)
          × ((n : ℕ) × (100 ≤ n)
              × ((q : ℕ) → allocated q heap' ≡ (if p == q then some n else allocated q chain))))
kmalloc_lem_example = kmalloc_lem 0x8000 100 chain chain-IsHeap (omega arith) untouched_page

first_in_use : allocated 0x1020 chain ≡ some 32
unfolding allocated
first_in_use = refl

third_in_use : allocated 0x10c0 chain ≡ some 3904
unfolding allocated
third_in_use = refl

kfree_lem_example :
    (heap' : Heap) × (kfree 0x1020 chain ≡ some heap')
    × IsHeap heap'
    × ((q : ℕ) → allocated q heap' ≡ (if 0x1020 == q then none else allocated q chain))
    × ((a : ℕ) → cover a heap' ≡ cover a chain)
kfree_lem_example = kfree_lem 0x1020 chain chain-IsHeap first_in_use

allocated_apart_test : (0x1020 + 32 ≤ 0x10c0) ⊎ (0x10c0 + 3904 ≤ 0x1020)
allocated_apart_test =
    allocated_apart 0x1020 0x10c0 chain chain-IsHeap first_in_use third_in_use (omega arith)

coalesce_leaves_test :
    (x : HeapBlock) × (y : HeapBlock) × (rest' : Heap) × (coalesce
        (block 0x1000 32 true ∷ (block 0x1040 64 true ∷ (block 0x10a0 32 true ∷ [])))
      ≡ x ∷ (y ∷ rest'))
    × (mergeable x y ≡ true)
unfolding mergeable
coalesce_leaves_test =
    coalesce_leaves (block 0x1000 32 true) (block 0x1040 64 true) (block 0x10a0 32 true) []
      (omega arith) (omega arith) refl refl
