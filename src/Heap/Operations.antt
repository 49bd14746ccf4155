-- ===== src/Heap/Operations.antt =====
-- What kmalloc and kfree of kernel/heap.c do.

use ore_os.Base.{
  Bool-cases, Option-cases, [], add64, arith, false, if◌then◌else◌, in_range, inl, inr, le→leb,
  none, refl, some, true, ℕ, ◌*◌, ◌++◌, ◌+◌, ◌-◌, ◌<◌, ◌==◌, ◌^◌, ◌∙◌, ◌∷◌, ◌≡◌, ◌≤◌, ◌⊎◌,
}
use ore_os.Heap.{
  Heap, HeapBlock, align_to, block_at, block_end, coalesce, fresh_block, header_size, heap_magic,
  heap_page_size, kfree, kmalloc, mergeable, payload, release, request_pages, serves, split_block,
  take_first, take_head,
}
use ore_os.Heap.Cover.{
  AllBlocks, AllBlocks-append, AllBlocks-coalesce, AllBlocks-release, IsBlock, IsHeap, cover,
  cover-append, cover-coalesce, cover-release, covers,
}
use ore_os.Heap.Allocated.{
  allocated, allocated-append, allocated-coalesce, allocated-release_ne, allocated-release_self,
  uncovered,
}
use ore_os.Heap.Search.{NoneServes, take_first-Granted, take_first-none, take_front-Granted}

-- The pages that pmm_alloc_pages returns for a request: NULL, or `request_pages` pages that end below
-- 2^60, none of them in the heap.
pub record IsFresh (pages size : ℕ) (heap : Heap) : Type 0 where
  pub below : pages + request_pages size * heap_page_size ≤ 2 ^ 60
  pub apart :
      (a : ℕ) → pages ≤ a → a < pages + request_pages size * heap_page_size → cover a heap ≡ 0

align_16 : (n : ℕ) → n < 2 ^ 40 → (n ≤ align_to 16 n) × (align_to 16 n ≤ n + 15)
unfolding align_to
align_16 n h = omega arith

fresh_size :
    (pages size : ℕ)
    → size < 2 ^ 41
    → (block_end (fresh_block pages size) ≡ pages + request_pages size * heap_page_size)
      × (size ≤ (fresh_block pages size).size)
unfolding fresh_block request_pages align_to
fresh_size pages size h = omega arith

fresh-IsHeap :
    (pages size : ℕ) (heap : Heap)
    → size < 2 ^ 41
    → IsFresh pages size heap
    → IsHeap (fresh_block pages size ∷ [])
unfolding cover covers
fresh-IsHeap pages size heap small fresh = record {
  blocks = (
    record {
      marked = unfold fresh_block in refl;
      below = omega (arith, (fresh_size pages size small).0, fresh.below);
    },
    tt,
  );
  apart = λ a. ground arith;
}

fresh_addr : (pages size : ℕ) → (fresh_block pages size).addr ≡ pages
unfolding fresh_block
fresh_addr pages size = refl

fresh_serves :
    (pages size : ℕ)
    → size ≤ (fresh_block pages size).size
    → serves size (fresh_block pages size) ≡ true
unfolding serves
fresh_serves pages size h =
    rw (le→leb size (fresh_block pages size).size h) (unfold fresh_block in refl)

some_page : (pages size : ℕ) → size < 2 ^ 41 → pages < pages + request_pages size * heap_page_size
unfolding request_pages align_to
some_page pages size h = omega arith

cover_single : (a : ℕ) (b : HeapBlock) → cover a (b ∷ []) ≤ 1
unfolding cover covers
cover_single a b = ground arith

cover_outside :
    (pages size a : ℕ)
    → size < 2 ^ 41
    → in_range pages (request_pages size * heap_page_size) a ≡ false
    → cover a (fresh_block pages size ∷ []) ≡ 0
unfolding cover covers
cover_outside pages size a small out =
    ground (arith, (fresh_size pages size small).0, fresh_addr pages size)

allocated-fresh : (q pages size : ℕ) → allocated q (fresh_block pages size ∷ []) ≡ none
unfolding allocated fresh_block
allocated-fresh q pages size = ground arith

append_view :
    (p q n : ℕ) (heap tail : Heap)
    → allocated p heap ≡ none
    → allocated q tail ≡ (if p == q then some n else none)
    → allocated q (heap ++ tail) ≡ (if p == q then some n else allocated q heap)
append_view p q n heap tail gone e = elim (Bool-cases (p == q)) [
  | inl same ↦
      let here : p ≡ q = ground arith in
      let gone' = rw here at gone in rw (allocated-append, gone', e, same) refl
  | inr other ↦ allocated-append q heap tail ∙ ground arith
]

-- The chain after it has grown by a block that is taken at once.
grow-Granted :
    (pages size : ℕ) (heap : Heap)
    → size < 2 ^ 41
    → IsHeap heap
    → IsFresh pages size heap
    → let p = payload (fresh_block pages size) in
      let heap' = heap ++ take_head (split_block size (fresh_block pages size) []) in
      IsHeap heap'
      × (allocated p heap ≡ none)
      × ((n : ℕ) × (size ≤ n)
          × ((q : ℕ) → allocated q heap' ≡ (if p == q then some n else allocated q heap)))
grow-Granted pages size heap small is fresh =
    let b = fresh_block pages size in
    let ends = fresh_size pages size small in
    let g =
      take_front-Granted size b [] (fresh-IsHeap pages size heap small fresh)
        (fresh_serves pages size (ends.1)) in
    let at : payload b - header_size ≡ pages = unfold fresh_block in omega arith in
    let none_there : allocated (payload b) heap ≡ none =
      uncovered (payload b) heap (omega arith)
        (rw at (fresh.apart pages (omega arith) (some_page pages size small))) in
    (
      record {
        blocks = AllBlocks-append heap _ is.blocks g.blocks;
        apart = λ a. elim (Bool-cases (in_range pages (request_pages size * heap_page_size) a)) [
          | inl inside ↦ omega (
            arith,
            cover-append a heap (take_head (split_block size b [])),
            g.same a,
            cover_single a b,
            fresh.apart a (ground arith) (ground arith),
          )
          | inr outside ↦ omega (
            arith,
            cover-append a heap (take_head (split_block size b [])),
            g.same a,
            is.apart a,
            cover_outside pages size a small outside,
          )
        ];
      },
      none_there,
      (
        g.given,
        g.enough,
        λ q.
            append_view (payload b) q g.given heap _ none_there
              (rw (← allocated-fresh q pages size) (g.view q)),
      ),
    )

-- kmalloc of `wanted` bytes, fewer than 2^40, in a valid chain: it keeps the chain valid, and returns
-- NULL and changes nothing, or returns the address of a block that was not in use, now is, and has at
-- least `wanted` bytes, while every other block in use stays in use with its size. It returns NULL only
-- for 0 bytes, or if no block of the chain serves and there are no pages.
pub kmalloc_lem :
    (pages wanted : ℕ) (heap : Heap)
    → IsHeap heap
    → wanted < 2 ^ 40
    → IsFresh pages (align_to 16 wanted) heap
    → let (p, heap') = kmalloc pages wanted heap in
      IsHeap heap'
      × ((heap' ≡ heap)
            × (p ≡ 0)
            × ((wanted ≡ 0) ⊎ (pages ≡ 0) × NoneServes (align_to 16 wanted) heap)
          ⊎ (allocated p heap ≡ none)
            × ((n : ℕ) × (wanted ≤ n)
                × ((q : ℕ) → allocated q heap' ≡ (if p == q then some n else allocated q heap))))
unfolding kmalloc
kmalloc_lem pages wanted heap is small fresh =
    let size = align_to 16 wanted in
    let bounds = align_16 wanted small in
    elim (Bool-cases (wanted == 0)) [
      | inl zero_bytes ↦ rw zero_bytes (is, inl (refl, refl, inl (ground arith)))
      | inr some_bytes ↦ elim (Option-cases (take_first size heap)) [
        | inr ((p, heap'), found) ↦
            let g = take_first-Granted size heap {p = p} {heap' = heap'} is found in
            rw (some_bytes, found)
              (
                record { blocks = g.blocks; apart = λ a. omega (arith, g.same a, is.apart a) },
                inr (g.fresh, (g.given, omega (arith, g.enough), g.view)),
              )
        | inl nothing ↦
            let unserved = take_first-none size heap nothing in
            elim (Bool-cases (pages == 0)) [
              | inl null ↦
                  rw (some_bytes, nothing, null)
                    (is, inl (refl, refl, inr (ground arith, unserved)))
              | inr pages_there ↦
                  let (is', gone, (n, enough, view)) =
                    grow-Granted pages size heap (omega arith) is fresh in
                  rw (some_bytes, nothing, pages_there) (is', inr (gone, (n, omega arith, view)))
            ]
      ]
    ]

-- A block of the chain has the magic number.
block_at_magic :
    (ptr : ℕ) (heap : Heap) {b : HeapBlock}
    → AllBlocks heap
    → block_at ptr heap ≡ some b
    → b.magic ≡ heap_magic
unfolding block_at
block_at_magic ptr [] h e = cc
block_at_magic ptr (c ∷ rest) {b} h e =
    ground (arith, h.0.marked, block_at_magic ptr rest {b = b} h.1)

block_at-allocated :
    (ptr : ℕ) (heap : Heap) {n : ℕ}
    → allocated ptr heap ≡ some n
    → (b : HeapBlock) × (block_at ptr heap ≡ some b)
unfolding block_at allocated
block_at-allocated ptr [] e = cc
block_at-allocated ptr (c ∷ rest) {n} e = elim (Bool-cases (payload c == ptr)) [
  | inl here ↦ (c, rw here refl)
  | inr there ↦ let (b, f) = block_at-allocated ptr rest {n = n} (ground arith) in (b, rw there f)
]

ptr_nonnull : (ptr : ℕ) (heap : Heap) {n : ℕ} → allocated ptr heap ≡ some n → (ptr == 0) ≡ false
unfolding allocated
ptr_nonnull ptr [] e = cc
ptr_nonnull ptr (b ∷ rest) {n} e = ground (arith, ptr_nonnull ptr rest {n = n})

-- kfree of a block in use, in a valid chain: it does not panic, keeps the chain valid, takes exactly
-- this block out of use, and covers exactly the bytes that were covered.
pub kfree_lem :
    (ptr : ℕ) (heap : Heap) {n : ℕ}
    → IsHeap heap
    → allocated ptr heap ≡ some n
    → (heap' : Heap) × (kfree ptr heap ≡ some heap')
      × IsHeap heap'
      × ((q : ℕ) → allocated q heap' ≡ (if ptr == q then none else allocated q heap))
      × ((a : ℕ) → cover a heap' ≡ cover a heap)
unfolding kfree
kfree_lem ptr heap {n} is e =
    let (b, found) = block_at-allocated ptr heap e in
    let marked = block_at_magic ptr heap is.blocks found in
    let nonnull : (ptr == 0) ≡ false = ptr_nonnull ptr heap e in
    let blocks = AllBlocks-release ptr heap is.blocks in
    let same : (a : ℕ) → cover a (coalesce (release ptr heap)) ≡ cover a heap =
      λ a. cover-coalesce a (release ptr heap) blocks ∙ cover-release a ptr heap in
    (
      coalesce (release ptr heap),
      rw (nonnull, found, marked) refl,
      record {
        blocks = AllBlocks-coalesce (release ptr heap) blocks;
        apart = λ a. omega (arith, same a, is.apart a);
      },
      λ q. allocated-coalesce q (release ptr heap) ∙ released q,
      same,
    )
  where
    released :
        (q : ℕ) → allocated q (release ptr heap) ≡ (if ptr == q then none else allocated q heap)
    released q = elim (Bool-cases (ptr == q)) [
      | inl here ↦
          let eq : ptr ≡ q = ground arith in
          rw (here, ← eq) (allocated-release_self ptr heap is.apart)
      | inr there ↦ rw there (allocated-release_ne ptr q heap (ground arith))
    ]

join_mergeable :
    (b c d : HeapBlock)
    → IsBlock b
    → IsBlock c
    → mergeable b c ≡ true
    → mergeable c d ≡ true
    → mergeable (record b { size = add64 b.size (header_size + c.size) }) d ≡ true
unfolding mergeable
join_mergeable b c d ib ic m n = ground arith

-- Three free blocks in a row, each ending where the next begins: kfree joins the first two only, and
-- the chain that it leaves begins with two blocks that are free and adjacent.
pub coalesce_leaves :
    (b c d : HeapBlock) (rest : Heap)
    → IsBlock b
    → IsBlock c
    → mergeable b c ≡ true
    → mergeable c d ≡ true
    → (x : HeapBlock) × (y : HeapBlock) × (rest' : Heap) × (coalesce (b ∷ (c ∷ (d ∷ rest)))
        ≡ x ∷ (y ∷ rest'))
      × (mergeable x y ≡ true)
coalesce_leaves b c d [] ib ic m n = (
  record b { size = add64 b.size (header_size + c.size) },
  d,
  [],
  unfold coalesce in rw (coalesce, m) refl,
  join_mergeable b c d ib ic m n,
)
coalesce_leaves b c d (e ∷ rest) ib ic m n = elim (Bool-cases (mergeable d e)) [
  | inr apart ↦ (
    record b { size = add64 b.size (header_size + c.size) },
    d,
    coalesce (e ∷ rest),
    unfold coalesce in rw (coalesce, m, apart) refl,
    join_mergeable b c d ib ic m n,
  )
  | inl also ↦ (
    record b { size = add64 b.size (header_size + c.size) },
    record d { size = add64 d.size (header_size + e.size) },
    coalesce rest,
    unfold coalesce in rw (coalesce, m, also) refl,
    join_mergeable b c (record d { size = add64 d.size (header_size + e.size) }) ib ic m
        (unfold mergeable in unfold mergeable in n),
  )
]
