-- ===== src/Pmm/Alloc.antt =====
-- What pmm_alloc_pages and pmm_free_pages of kernel/pmm.c do.
use ore_os.Base.{
  Bool-cases, Option-cases, add64, ap, arith, if◌then◌else◌, in_range, inl, inr, leb, leb→le,
  mem_zero_lem, refl, some, sub64, true, ℕ, ◌*◌, ◌+◌, ◌-◌, ◌/◌, ◌<◌, ◌∙◌, ◌≡◌, ◌≢◌, ◌≤◌, ◌⊎◌,
}
use ore_os.Pmm.{
  Pmm, alloc_page, alloc_pages, bitmap_test, low_reserved_pages, page_size, scan, set_run, take_run,
}
use ore_os.Pmm.Count.{clear_below, clear_below-le, clear_below-same}
use ore_os.Pmm.Invariant.{
  IsValid, bitmap_test-set_run, clear_below-set_run, set_run-IsBytes, set_run_same,
}
use ore_os.Pmm.Scan.{IsFreeRun, scan-none, scan_start}

scan-small :
    (s : Pmm) (count : ℕ) {found : ℕ}
    → scan s count (s.total_page_count - low_reserved_pages) low_reserved_pages 0 0 ≡ some found
    → low_reserved_pages ≤ s.total_page_count
unfolding scan
scan-small s count e = elim (Bool-cases (leb low_reserved_pages s.total_page_count)) [
  | inl h ↦ leb→le _ _ h
  | inr h ↦
      let none_left : s.total_page_count - low_reserved_pages ≡ 0 = ground arith in
      let e' = rw none_left at e in cc
]

pub bitmap_test-take_run :
    (start count : ℕ) (s : Pmm) (q : ℕ)
    → bitmap_test (take_run start count s) q ≡ bitmap_test (set_run start count s) q
unfolding take_run bitmap_test
bitmap_test-take_run start count s q = refl

-- The counters after a run is taken.
record TakenCounters (count : ℕ) (s t : Pmm) : Type 0 where
  total : t.total_page_count ≡ s.total_page_count
  free : t.free_page_count ≡ sub64 s.free_page_count count
  reserved : t.reserved_page_count ≡ s.reserved_page_count
  used : t.used_page_count ≡ add64 s.used_page_count count

take_run_counters : (start count : ℕ) (s : Pmm) → TakenCounters count s (take_run start count s)
unfolding take_run
take_run_counters start count s = ground (arith, set_run_same start count s)

-- A run that is taken: the invariant after it.
take_run-IsValid :
    (start count : ℕ) (s : Pmm)
    → IsValid s
    → IsFreeRun s low_reserved_pages s.total_page_count count start
    → IsValid (take_run start count s)
take_run-IsValid start count s v r =
    let same = take_run_counters start count s in
    let counts = clear_below-set_run start count s.total_page_count s v.bytes r.below r.clear in
    let moved =
      clear_below-same (bitmap_test (take_run start count s)) (bitmap_test (set_run start count s))
        s.total_page_count (λ q hq. bitmap_test-take_run start count s q) in
    let bound = clear_below-le (bitmap_test s) s.total_page_count in
    record {
      bytes = unfold take_run in set_run-IsBytes start count s v.bytes;
      counted =
          ap (clear_below (bitmap_test (take_run start count s))) same.total
          ∙ omega (arith, same, v, counts, moved, bound);
      summed = omega (arith, same, v, bound, counts);
      small = omega (arith, same.total, v.small);
    }

-- What a call of pmm_alloc_pages that returns `ptr` and the state `t` has done.
pub record Taken (s t : Pmm) (count ptr : ℕ) : Type 0 where
  pub aligned : ptr ≡ ptr / page_size * page_size
  pub run : IsFreeRun s low_reserved_pages s.total_page_count count (ptr / page_size)
  pub bits :
      (q : ℕ)
      → bitmap_test t q ≡ (if in_range (ptr / page_size) count q then true else bitmap_test s q)
  pub total : t.total_page_count ≡ s.total_page_count
  pub free : t.free_page_count + count ≡ s.free_page_count
  pub used : t.used_page_count ≡ s.used_page_count + count
  pub reserved : t.reserved_page_count ≡ s.reserved_page_count
  pub zeroed : (b : ℕ) → t.memory b ≡ (if in_range ptr (count * page_size) b then 0 else s.memory b)

take_run_zeroed :
    (start count : ℕ) (s : Pmm) (b : ℕ)
    → (take_run start count s).memory b
      ≡ (if in_range (start * page_size) (count * page_size) b then 0 else s.memory b)
unfolding take_run
take_run_zeroed start count s b = rw (mem_zero_lem, (set_run_same start count s).memory)

take_run-Taken :
    (start count : ℕ) (s : Pmm)
    → IsValid s
    → IsFreeRun s low_reserved_pages s.total_page_count count start
    → Taken s (take_run start count s) count (start * page_size)
take_run-Taken start count s v r =
    let same = take_run_counters start count s in
    let counts = clear_below-set_run start count s.total_page_count s v.bytes r.below r.clear in
    let bound = clear_below-le (bitmap_test s) s.total_page_count in
    let page : start * page_size / page_size ≡ start = omega arith in
    record {
      aligned = omega arith;
      run = rw page r;
      bits = λ q.
          rw page
            (bitmap_test-take_run start count s q ∙ bitmap_test-set_run start count s q v.bytes);
      total = same.total;
      free = omega (arith, same, v, counts, bound);
      used = omega (arith, same, v, counts, bound);
      reserved = same.reserved;
      zeroed = take_run_zeroed start count s;
    }

alloc_pages-some :
    (count : ℕ) (s : Pmm) {found : ℕ}
    → count ≢ 0
    → scan s count (s.total_page_count - low_reserved_pages) low_reserved_pages 0 0 ≡ some found
    → alloc_pages count s ≡ (found * page_size, take_run found count s)
unfolding alloc_pages
alloc_pages-some count s ne e = ground arith

-- A call of pmm_alloc_pages for at least one page, in a valid state, either returns a page-aligned
-- address above the low megabyte whose `count` pages were free, marks exactly these pages, moves
-- `count` from the free to the used pages, clears exactly their bytes, and keeps the invariant; or it
-- returns NULL, changes nothing, and every window of `count` pages above the low megabyte and below
-- the end of memory holds a page that is not free.
pub alloc_pages_lem :
    (count : ℕ) (s : Pmm)
    → IsValid s
    → count ≢ 0
    → let (ptr, t) = alloc_pages count s in
      (ptr ≢ 0) × Taken s t count ptr × IsValid t
      ⊎ (ptr ≡ 0)
        × (t ≡ s)
        × ((start : ℕ)
            → low_reserved_pages ≤ start
            → start + count ≤ s.total_page_count
            → (q : ℕ) × (start ≤ q) × (q < start + count) × (bitmap_test s q ≡ true))
unfolding alloc_pages
alloc_pages_lem count s v ne =
    elim (Option-cases
      (scan s count (s.total_page_count - low_reserved_pages) low_reserved_pages 0 0)) [
        | inl nothing ↦ inr (
          ground arith,
          ground arith,
          λ start lo hi.
              scan-none s count (s.total_page_count - low_reserved_pages) low_reserved_pages 0 0
                start nothing (ground arith) (omega arith) (omega arith),
        )
        | inr (found, e) ↦
            let run = scan_start s count (scan-small s count e) e in
            rw (alloc_pages-some count s ne e) (
              inl (
                omega (arith, run.above),
                take_run-Taken found count s v run,
                take_run-IsValid found count s v run,
              ))
      ]

pub alloc_page_one : (s : Pmm) → alloc_page s ≡ alloc_pages 1 s
unfolding alloc_page
alloc_page_one s = refl
