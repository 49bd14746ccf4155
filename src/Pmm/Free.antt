-- ===== src/Pmm/Free.antt =====
-- What pmm_free_pages of kernel/pmm.c does, and that it undoes an allocation.
use ore_os.Base.{
  Bool-cases, add64, ap, arith, false, if◌then◌else◌, in_range, inl, inr, ltb, or-false, or-true,
  suc, sym, true, zero, ℕ, ◌&&◌, ◌+◌, ◌-◌, ◌/◌, ◌<◌, ◌==◌, ◌∙◌, ◌≡◌, ◌≢◌, ◌≤◌,
}
use mathlib.Core.Path.{subst}
use ore_os.Pmm.Alloc.{alloc_pages_lem}
use ore_os.Pmm.Count.{clear_below, clear_below-same}
use ore_os.Pmm.{
  Pmm, alloc_pages, bitmap_clear, bitmap_test, free_loop, free_one, free_pages, page_size,
}
use ore_os.Pmm.Bitmap.{IsBytes, bitmap_clear-IsBytes, bitmap_test-clear}
use ore_os.Pmm.Invariant.{IsValid, clear_below-clear, free_pages_of}

-- What giving pages back leaves alone.
pub record SameRest (s t : Pmm) : Type 0 where
  pub total : t.total_page_count ≡ s.total_page_count
  pub reserved : t.reserved_page_count ≡ s.reserved_page_count
  pub memory : t.memory ≡ s.memory

free_one_same : (page : ℕ) (s : Pmm) → SameRest s (free_one page s)
unfolding free_one bitmap_clear
free_one_same page s = ground arith

free_loop_same : (page n : ℕ) (s : Pmm) → SameRest s (free_loop page n s)
unfolding free_loop
free_loop_same page zero s = ground arith
free_loop_same page (suc n) s =
    let first = free_one_same page s in
    let rest = free_loop_same (page + 1) n (free_one page s) in
    record {
      total = rest.total ∙ first.total;
      reserved = rest.reserved ∙ first.reserved;
      memory = rest.memory ∙ first.memory;
    }

free_one_cleared :
    (page : ℕ) (s : Pmm)
    → page < s.total_page_count
    → bitmap_test s page ≡ true
    → (q : ℕ) → bitmap_test (free_one page s) q ≡ bitmap_test (bitmap_clear page s) q
unfolding bitmap_test
free_one_cleared page s lt marked q = unfold free_one in ground arith

free_one-eq :
    (page : ℕ) (s : Pmm)
    → (ltb page s.total_page_count && bitmap_test s page) ≡ false
    → free_one page s ≡ s
unfolding free_one
free_one-eq page s h = ground arith

-- One page: the bits, and the invariant as long as some page counts as used.
bitmap_test-free_one :
    (page : ℕ) (s : Pmm) (q : ℕ)
    → IsBytes s
    → bitmap_test (free_one page s) q
      ≡ (if q == page && ltb page s.total_page_count then false else bitmap_test s q)
bitmap_test-free_one page s q h =
    elim (Bool-cases (ltb page s.total_page_count && bitmap_test s page)) [
      | inl e ↦ ground (
        arith,
        free_one_cleared page s (ground arith) (ground arith) q,
        bitmap_test-clear page q s h,
      )
      | inr e ↦ rw (free_one-eq page s e) (ground (arith))
    ]

free_one-IsBytes : (page : ℕ) (s : Pmm) → IsBytes s → IsBytes (free_one page s)
unfolding free_one
free_one-IsBytes page s h i = ground (arith, bitmap_clear-IsBytes page s h i, h i)

-- The counters after one page that was marked.
record OneFreed (s t : Pmm) : Type 0 where
  free : t.free_page_count ≡ add64 s.free_page_count 1
  used : t.used_page_count ≡ s.used_page_count - 1

free_one_counters :
    (page : ℕ) (s : Pmm)
    → page < s.total_page_count
    → bitmap_test s page ≡ true
    → OneFreed s (free_one page s)
unfolding free_one bitmap_clear
free_one_counters page s lt marked = ground arith

free_one-IsValid :
    (page : ℕ) (s : Pmm) → IsValid s → 0 < s.used_page_count → IsValid (free_one page s)
free_one-IsValid page s v some_used =
    elim (Bool-cases (ltb page s.total_page_count && bitmap_test s page)) [
      | inl e ↦
          let lt : page < s.total_page_count = ground arith in
          let marked : bitmap_test s page ≡ true = ground arith in
          let n = free_one_counters page s lt marked in
          let same = free_one_same page s in
          let counts = clear_below-clear page s.total_page_count s v.bytes lt marked in
          let moved =
            clear_below-same (bitmap_test (free_one page s)) (bitmap_test (bitmap_clear page s))
              s.total_page_count (λ q hq. free_one_cleared page s lt marked q) in
          record {
            bytes = free_one-IsBytes page s v.bytes;
            counted =
                ap (clear_below (bitmap_test (free_one page s))) same.total
                ∙ omega (arith, n, v, counts, moved, same.total);
            summed = omega (arith, n, v, same, counts);
            small = omega (arith, same.total, v.small);
          }
      | inr e ↦ subst IsValid (sym (free_one-eq page s e)) v
    ]

free_one-used : (page : ℕ) (s : Pmm) → s.used_page_count ≤ (free_one page s).used_page_count + 1
unfolding free_one bitmap_clear
free_one-used page s = ground arith

-- pmm_free_pages keeps the invariant as long as it is given no more pages than count as used.
free_loop-IsValid :
    (page n : ℕ) (s : Pmm) → IsValid s → n ≤ s.used_page_count → IsValid (free_loop page n s)
unfolding free_loop
free_loop-IsValid page zero s v h = v
free_loop-IsValid page (suc n) s v h =
    free_loop-IsValid (page + 1) n (free_one page s) (free_one-IsValid page s v (omega arith))
      (omega (arith, free_one-used page s))

bitmap_test-free_loop :
    (page n : ℕ) (s : Pmm) (q : ℕ)
    → IsBytes s
    → bitmap_test (free_loop page n s) q
      ≡ (if in_range page n q && ltb q s.total_page_count then false else bitmap_test s q)
unfolding free_loop
bitmap_test-free_loop page zero s q h = ground arith
bitmap_test-free_loop page (suc n) s q h = ground (
  arith,
  bitmap_test-free_loop (page + 1) n (free_one page s) q (free_one-IsBytes page s h),
  bitmap_test-free_one page s q h,
  (free_one_same page s).total,
)

-- pmm_free_pages of at most as many pages as count as used, at an address that is not NULL: it keeps
-- the invariant, makes exactly the pages of the range below the end of memory free, and leaves the
-- reserved count and the memory as they are.
pub free_pages_lem :
    (ptr count : ℕ) (s : Pmm)
    → IsValid s
    → ptr ≢ 0
    → count ≤ s.used_page_count
    → let t = free_pages ptr count s in
      IsValid t
      × SameRest s t
      × ((q : ℕ)
          → bitmap_test t q ≡ (
              if in_range (ptr / page_size) count q && ltb q s.total_page_count
              then false
              else bitmap_test s q))
unfolding free_pages
free_pages_lem ptr count s v ne le = elim (Bool-cases (count == 0)) [
  | inl z ↦ rw (or-true _ _ (inr z)) (v, ground arith, λ q. ground arith)
  | inr nz ↦ rw (or-false (ptr == 0) _ (ground arith) nz) (
    free_loop-IsValid (ptr / page_size) count s v le,
    free_loop_same (ptr / page_size) count s,
    λ q. bitmap_test-free_loop (ptr / page_size) count s q v.bytes,
  )
]

alloc_zero : (count : ℕ) (s : Pmm) → count ≡ 0 → (alloc_pages count s).0 ≡ 0
unfolding alloc_pages
alloc_zero count s z = ground arith

free_pages_same : (ptr count : ℕ) (s : Pmm) → SameRest s (free_pages ptr count s)
unfolding free_pages
free_pages_same ptr count s = ground (arith, free_loop_same (ptr / page_size) count s)

-- Giving back what pmm_alloc_pages returned restores every bit of the bitmap below the end of memory
-- and all the counters.
pub free_pages-alloc_pages :
    (count : ℕ) (s : Pmm)
    → IsValid s
    → (alloc_pages count s).0 ≢ 0
    → let (ptr, t) = alloc_pages count s in
      let u = free_pages ptr count t in
      ((q : ℕ) → bitmap_test u q ≡ bitmap_test s q)
      × (u.free_page_count ≡ s.free_page_count)
      × (u.used_page_count ≡ s.used_page_count)
      × (u.reserved_page_count ≡ s.reserved_page_count)
free_pages-alloc_pages count s v ne =
    elim (alloc_pages_lem count s v (λ z. ne (alloc_zero count s z))) [
      | inr (null, same, full) ↦ absurd (ne null)
      | inl (some_ptr, taken, valid) ↦
          let u = free_pages (alloc_pages count s).0 count (alloc_pages count s).1 in
          let (valid', same, bits) =
            free_pages_lem (alloc_pages count s).0 count (alloc_pages count s).1 valid some_ptr
              (omega (arith, taken.used)) in
          let total : u.total_page_count ≡ s.total_page_count = same.total ∙ taken.total in
          let back : (q : ℕ) → bitmap_test u q ≡ bitmap_test s q = λ q.
            ground (arith, bits q, taken.bits q, taken.run.clear q, taken.run.below, taken.total) in
          let count_eq : free_pages_of u ≡ free_pages_of s =
            ap (clear_below (bitmap_test u)) total
            ∙ clear_below-same (bitmap_test u) (bitmap_test s) s.total_page_count
                (λ q hq. back q) in
          (
            back,
            omega (arith, count_eq, valid', v),
            omega (arith, count_eq, valid', v, total, same, taken.reserved),
            same.reserved ∙ taken.reserved,
          )
    ]
