-- ===== src/Heap/Search.antt =====
-- The search of kmalloc (kernel/heap.c) for the first block that serves.
use mathlib.Core.Path.{subst}
use ore_os.Base.{
  Bool-cases, Option-cases, [], arith, false, if◌then◌else◌, inl, inr, leb, none, some,
  some_injective, sub64, true, ℕ, ◌+◌, ◌-◌, ◌==◌, ◌∙◌, ◌∷◌, ◌≡◌, ◌≢◌, ◌≤◌,
}
use ore_os.Heap.{
  Heap, HeapBlock, behind, header_size, payload, serves, split_block, take_first, take_head,
}
use ore_os.Heap.Cover.{
  AllBlocks, AllBlocks-split_block, AllBlocks-take_head, IsHeap, cover, cover-split_block,
  cover-take_head, covers,
}
use ore_os.Heap.Allocated.{allocated, tail_apart, uncovered}

-- What a successful search for `size` bytes gives.
pub record Granted (size : ℕ) (heap : Heap) (p : ℕ) (heap' : Heap) : Type 0 where
  pub same : (a : ℕ) → cover a heap' ≡ cover a heap
  pub blocks : AllBlocks heap'
  pub fresh : allocated p heap ≡ none
  pub given : ℕ
  pub enough : size ≤ given
  pub view : (q : ℕ) → allocated q heap' ≡ (if p == q then some given else allocated q heap)
  pub behind_header : header_size ≤ p
  pub owned : 1 ≤ cover (p - header_size) heap

-- The block that serves is in front.
allocated-split_taken :
    (q size : ℕ) (b : HeapBlock) (rest : Heap)
    → b.free ≡ true
    → allocated q (take_head (split_block size b rest)) ≡ (
        if payload b == q
        then some (if leb (sub64 b.size size) (header_size + 32) then b.size else size)
        else allocated q (b ∷ rest))
unfolding allocated take_head split_block
allocated-split_taken q size b rest free = ground arith

pub take_front-Granted :
    (size : ℕ) (b : HeapBlock) (rest : Heap)
    → IsHeap (b ∷ rest)
    → serves size b ≡ true
    → Granted size (b ∷ rest) (payload b) (take_head (split_block size b rest))
unfolding serves
take_front-Granted size b rest is s =
    let free : b.free ≡ true = ground arith in
    let fits : size ≤ b.size = ground arith in
    let (alone, apart) = tail_apart b rest is.apart in
    let gone : allocated (payload b) rest ≡ none =
      uncovered (payload b) rest (omega arith)
        (let e : payload b - header_size ≡ b.addr = omega arith in rw e alone) in
    record {
      same = λ a.
          cover-take_head a (split_block size b rest)
          ∙ cover-split_block a size b rest fits is.blocks.0;
      blocks = AllBlocks-take_head _ (AllBlocks-split_block size b rest fits is.blocks);
      fresh = unfold allocated in ground arith;
      given = if leb (sub64 b.size size) (header_size + 32) then b.size else size;
      enough = ground arith;
      view = λ q. allocated-split_taken q size b rest free;
      behind_header = omega arith;
      owned = unfold cover covers in ground arith;
    }

-- A block in front that does not serve.
behind-Granted :
    (size : ℕ) (b : HeapBlock) (rest : Heap) (p : ℕ) (rest' : Heap)
    → IsHeap (b ∷ rest)
    → Granted size rest p rest'
    → Granted size (b ∷ rest) p (b ∷ rest')
unfolding allocated cover
behind-Granted size b rest p rest' is g =
    let (alone, apart) = tail_apart b rest is.apart in
    let elsewhere : payload b ≢ p = λ e.
      let at : p - header_size ≡ b.addr = omega arith in omega (arith, rw at at g.owned, alone) in
    record {
      same = λ a. omega (arith, g.same a);
      blocks = (is.blocks.0, g.blocks);
      fresh = ground (arith, g.fresh);
      given = g.given;
      enough = g.enough;
      view = λ q. ground (arith, g.view q);
      behind_header = g.behind_header;
      owned = omega (arith, g.owned);
    }

pub take_first-Granted :
    (size : ℕ) (heap : Heap) {p : ℕ} {heap' : Heap}
    → IsHeap heap
    → take_first size heap ≡ some (p, heap')
    → Granted size heap p heap'
unfolding take_first
take_first-Granted size [] is e = cc
take_first-Granted size (b ∷ rest) {p} {heap'} is e = elim (Bool-cases (serves size b)) [
  | inl s ↦
      let e' = some_injective (rw s at e) in
      subst (λ (r : ℕ × Heap). Granted size (b ∷ rest) r.0 r.1) e'
        (take_front-Granted size b rest is s)
  | inr s ↦ elim (Option-cases (take_first size rest)) [
    | inl nothing ↦ let e' = rw (s, nothing) at e in unfold behind in cc
    | inr ((p', rest'), found) ↦
        let tail : IsHeap rest = record {
          blocks = is.blocks.1;
          apart = (tail_apart b rest is.apart).1;
        } in
        let g = take_first-Granted size rest {p = p'} {heap' = rest'} tail found in
        let e' : some (p', b ∷ rest') ≡ some (p, heap') = unfold behind in rw (s, found) at e in
        subst (λ (r : ℕ × Heap). Granted size (b ∷ rest) r.0 r.1) (some_injective e')
          (behind-Granted size b rest p' rest' is g)
  ]
]

-- If the search finds nothing, no block serves.
abbrev pub NoneServes : ℕ → Heap → Type 0
NoneServes size [] = Unit
NoneServes size (b ∷ rest) = (serves size b ≡ false) × NoneServes size rest

pub take_first-none : (size : ℕ) (heap : Heap) → take_first size heap ≡ none → NoneServes size heap
unfolding take_first behind
take_first-none size [] e = tt
take_first-none size (b ∷ rest) e = (ground arith, take_first-none size rest (ground arith))
