-- ===== src/Pmm/Tests.antt =====
-- The page allocator of kernel/pmm.c at a memory of 260 pages.
use ore_os.Base.{
  arith, false, if◌then◌else◌, in_range, ltb, refl, sym, true, ℕ, ◌&&◌, ◌*◌, ◌+◌, ◌<◌, ◌==◌, ◌∙◌,
  ◌≡◌, ◌≢◌, ◌≤◌, ◌⊎◌,
}
use ore_os.Pmm.{Pmm, alloc_pages, bitmap_test, free_pages, scan}
use ore_os.Pmm.Count.{clear_below}
use ore_os.Pmm.Invariant.{IsValid}
use ore_os.Pmm.Alloc.{Taken, alloc_pages_lem}
use ore_os.Pmm.Free.{SameRest, free_pages-alloc_pages, free_pages_lem}

-- The low megabyte is marked, and `marks` are the bits of the four pages above it.
abbrev tiny_with : (marks free used : ℕ) → Pmm
tiny_with marks free used = record {
  bitmap = λ i. if ltb i 32 then 255 else if i == 32 then marks else 255;
  bitmap_bytes = 4096;
  max_phys = 260 * 4096;
  total_page_count = 260;
  free_page_count = free;
  reserved_page_count = 256;
  used_page_count = used;
  memory = λ a. 7;
}

abbrev tiny : Pmm
tiny = tiny_with 0xf0 4 0

-- Pages 256 and 257 are in use.
abbrev half : Pmm
half = tiny_with 0xf3 2 2

tiny-IsValid : IsValid tiny
unfolding clear_below bitmap_test
tiny-IsValid = record {
  bytes = λ i. ground arith;
  counted = refl;
  summed = refl;
  small = omega arith;
}

half-IsValid : IsValid half
unfolding clear_below bitmap_test
half-IsValid = record {
  bytes = λ i. ground arith;
  counted = refl;
  summed = refl;
  small = omega arith;
}

alloc_two : (alloc_pages 2 tiny).0 ≡ 0x100000
unfolding alloc_pages scan bitmap_test
alloc_two = refl

alloc_three_of_two : (alloc_pages 3 half).0 ≡ 0
unfolding alloc_pages scan bitmap_test
alloc_three_of_two = refl

alloc_pages_lem_example :
    let (ptr, t) = alloc_pages 2 tiny in
    (ptr ≢ 0) × Taken tiny t 2 ptr × IsValid t
    ⊎ (ptr ≡ 0)
      × (t ≡ tiny)
      × ((start : ℕ)
          → 256 ≤ start
          → start + 2 ≤ 260
          → (q : ℕ) × (start ≤ q) × (q < start + 2) × (bitmap_test tiny q ≡ true))
alloc_pages_lem_example = alloc_pages_lem 2 tiny tiny-IsValid (omega arith)

free_pages_lem_example :
    let t = free_pages 0x100000 2 half in
    IsValid t
    × SameRest half t
    × ((q : ℕ)
        → bitmap_test t q ≡ (if in_range 256 2 q && ltb q 260 then false else bitmap_test half q))
free_pages_lem_example = free_pages_lem 0x100000 2 half half-IsValid (omega arith) (omega arith)

free_pages-alloc_pages_example :
    let (ptr, t) = alloc_pages 2 tiny in
    let u = free_pages ptr 2 t in
    ((q : ℕ) → bitmap_test u q ≡ bitmap_test tiny q)
    × (u.free_page_count ≡ 4)
    × (u.used_page_count ≡ 0)
    × (u.reserved_page_count ≡ 256)
free_pages-alloc_pages_example =
    free_pages-alloc_pages 2 tiny tiny-IsValid (λ e. omega (arith, sym alloc_two ∙ e))
