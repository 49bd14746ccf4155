-- ===== src/Heap/Allocated.antt =====
-- What a caller of kmalloc and kfree (kernel/heap.c) holds.
use ore_os.Heap.Cover.{IsHeap, cover, cover_own, covers}
use ore_os.Base.{
  Bool-cases, Option, Option-cases, [], arith, if◌then◌else◌, inl, inr, leb, leb→le, ltb, none, not,
  refl, some, ℕ, ◌&&◌, ◌++◌, ◌+◌, ◌-◌, ◌<◌, ◌==◌, ◌∷◌, ◌≡◌, ◌≢◌, ◌≤◌, ◌⊎◌,
}
use ore_os.Heap.{Heap, HeapBlock, coalesce, header_size, mergeable, payload, release}

-- The size of the block whose payload is at `q`, if it is in use.
unfoldable pub allocated : ℕ → Heap → Option ℕ
allocated q [] = none
allocated q (b ∷ rest) = if payload b == q && not b.free then some b.size else allocated q rest

pub allocated-append :
    (q : ℕ) (xs ys : Heap)
    → allocated q (xs ++ ys) ≡ elim (allocated q xs) [ some n ↦ some n | none ↦ allocated q ys ]
unfolding allocated
allocated-append q [] ys = refl
allocated-append q (b ∷ xs) ys = ground (arith, allocated-append q xs ys)

-- Every byte of a block in use, its header included, is covered.
pub cover_of_allocated :
    (a q : ℕ) (heap : Heap) {n : ℕ}
    → allocated q heap ≡ some n
    → q ≤ a + header_size
    → a < q + n
    → 1 ≤ cover a heap
unfolding allocated cover covers
cover_of_allocated a q [] e lo hi = cc
cover_of_allocated a q (b ∷ rest) {n} e lo hi = ground (arith, cover_of_allocated a q rest {n = n})

-- A byte of two blocks in use is covered twice.
cover_twice :
    (a p q : ℕ) (heap : Heap) {m n : ℕ}
    → allocated p heap ≡ some m
    → p ≤ a + header_size
    → a < p + m
    → allocated q heap ≡ some n
    → q ≤ a + header_size
    → a < q + n
    → p ≢ q
    → 2 ≤ cover a heap
unfolding allocated cover covers
cover_twice a p q [] ep plo phi eq qlo qhi ne = cc
cover_twice a p q (b ∷ rest) {m} {n} ep plo phi eq qlo qhi ne = ground (
  arith,
  cover_twice a p q rest {m = m} {n = n},
  cover_of_allocated a p rest {n = m},
  cover_of_allocated a q rest {n = n},
)

-- The payloads of two blocks in use do not overlap.
pub allocated_apart :
    (p q : ℕ) (heap : Heap) {m n : ℕ}
    → IsHeap heap
    → allocated p heap ≡ some m
    → allocated q heap ≡ some n
    → p ≢ q
    → (p + m ≤ q) ⊎ (q + n ≤ p)
allocated_apart p q heap {m} {n} is ep eq ne = elim (Bool-cases (ltb p q)) [
  | inl below ↦ elim (Bool-cases (leb (p + m) q)) [
    | inl done ↦ inl (leb→le _ _ done)
    | inr over ↦
        absurd
          (both (q - 1) is ep eq ne (ground arith) (ground arith) (ground arith) (ground arith))
  ]
  | inr above ↦ elim (Bool-cases (leb (q + n) p)) [
    | inl done ↦ inr (leb→le _ _ done)
    | inr over ↦
        absurd
          (both (p - 1) is ep eq ne (ground arith) (ground arith) (ground arith) (ground arith))
  ]
]
  where
    both :
        (a : ℕ)
        → IsHeap heap
        → allocated p heap ≡ some m
        → allocated q heap ≡ some n
        → p ≢ q
        → p ≤ a + header_size
        → a < p + m
        → q ≤ a + header_size
        → a < q + n
        → ⊥
    both a is ep eq ne plo phi qlo qhi =
        omega (arith, cover_twice a p q heap ep plo phi eq qlo qhi ne, is.apart a)

-- The block at `ptr` after `release` and after the joins.
pub allocated-release_ne :
    (ptr q : ℕ) (heap : Heap) → ptr ≢ q → allocated q (release ptr heap) ≡ allocated q heap
unfolding allocated release
allocated-release_ne ptr q [] ne = refl
allocated-release_ne ptr q (b ∷ rest) ne = ground (arith, allocated-release_ne ptr q rest ne)

pub allocated-coalesce : (q : ℕ) (heap : Heap) → allocated q (coalesce heap) ≡ allocated q heap
unfolding allocated coalesce mergeable
allocated-coalesce q [] = refl
allocated-coalesce q (b ∷ []) = refl
allocated-coalesce q (b ∷ (c ∷ rest)) =
    ground (arith, allocated-coalesce q rest, allocated-coalesce q (c ∷ rest))

-- A header that is covered once belongs to one block.
pub uncovered :
    (q : ℕ) (heap : Heap)
    → header_size ≤ q
    → cover (q - header_size) heap ≡ 0
    → allocated q heap ≡ none
uncovered q heap lo none_there = elim (Option-cases (allocated q heap)) [
  | inl e ↦ e
  | inr (n, e) ↦
      absurd
        (omega (arith, cover_of_allocated (q - header_size) q heap e (omega arith) (omega arith)))
]

-- A block in front of the rest of the chain: what it says of the rest.
pub tail_apart :
    (b : HeapBlock) (rest : Heap)
    → ((a : ℕ) → cover a (b ∷ rest) ≤ 1)
    → (cover b.addr rest ≡ 0) × ((a : ℕ) → cover a rest ≤ 1)
unfolding cover
tail_apart b rest apart = (omega (arith, apart b.addr, cover_own b), λ a. omega (arith, apart a))

pub allocated-release_self :
    (ptr : ℕ) (heap : Heap) → ((a : ℕ) → cover a heap ≤ 1) → allocated ptr (release ptr heap) ≡ none
unfolding release allocated
allocated-release_self ptr [] apart = refl
allocated-release_self ptr (b ∷ rest) apart =
    let (alone, apart') = tail_apart b rest apart in
    elim (Bool-cases (payload b == ptr)) [
      | inl here ↦
          let e : payload b ≡ ptr = ground arith in
          let at : b.addr ≡ ptr - header_size = omega arith in
          ground (arith, uncovered ptr rest (omega arith) (rw at at alone))
      | inr there ↦ ground (arith, allocated-release_self ptr rest apart')
    ]
