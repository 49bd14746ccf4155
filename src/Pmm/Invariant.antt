-- ===== src/Pmm/Invariant.antt =====
-- The invariant of kernel/pmm.c: the counters agree with the bitmap and add up.
use ore_os.Base.{
  arith, false, if◌then◌else◌, in_range, suc, sym, true, zero, ℕ, ◌+◌, ◌<◌, ◌^◌, ◌≡◌, ◌≤◌,
}
use ore_os.Pmm.{Pmm, bitmap_clear, bitmap_set, bitmap_test, set_run}
use ore_os.Pmm.Bitmap.{IsBytes, bitmap_set-IsBytes, bitmap_test-clear, bitmap_test-set}
use ore_os.Pmm.Count.{clear_below, clear_below-flip}

-- The pages below `total_page_count` whose bit is clear.
abbrev pub free_pages_of : Pmm → ℕ
free_pages_of s = clear_below (bitmap_test s) s.total_page_count

pub record IsValid (s : Pmm) : Type 0 where
  pub bytes : IsBytes s
  pub counted : free_pages_of s ≡ s.free_page_count
  pub summed : s.free_page_count + s.reserved_page_count + s.used_page_count ≡ s.total_page_count
  pub small : s.total_page_count ≤ 2 ^ 52

-- What marking pages leaves alone.
pub record SameCounters (s t : Pmm) : Type 0 where
  pub total : t.total_page_count ≡ s.total_page_count
  pub free : t.free_page_count ≡ s.free_page_count
  pub reserved : t.reserved_page_count ≡ s.reserved_page_count
  pub used : t.used_page_count ≡ s.used_page_count
  pub memory : t.memory ≡ s.memory

pub set_run_same : (start n : ℕ) (s : Pmm) → SameCounters s (set_run start n s)
unfolding set_run bitmap_set
set_run_same start zero s = ground arith
set_run_same start (suc n) s = ground (arith, set_run_same (start + 1) n (bitmap_set start s))

pub set_run-IsBytes : (start n : ℕ) (s : Pmm) → IsBytes s → IsBytes (set_run start n s)
unfolding set_run
set_run-IsBytes start zero s h = h
set_run-IsBytes start (suc n) s h =
    set_run-IsBytes (start + 1) n (bitmap_set start s) (bitmap_set-IsBytes start s h)

pub bitmap_test-set_run :
    (start n : ℕ) (s : Pmm) (q : ℕ)
    → IsBytes s
    → bitmap_test (set_run start n s) q ≡ (if in_range start n q then true else bitmap_test s q)
unfolding set_run
bitmap_test-set_run start zero s q h = ground arith
bitmap_test-set_run start (suc n) s q h = ground (
  arith,
  bitmap_test-set_run (start + 1) n (bitmap_set start s) q (bitmap_set-IsBytes start s h),
  bitmap_test-set start q s h,
)

pub clear_below-set :
    (p n : ℕ) (s : Pmm)
    → IsBytes s
    → p < n
    → bitmap_test s p ≡ false
    → clear_below (bitmap_test (bitmap_set p s)) n + 1 ≡ clear_below (bitmap_test s) n
clear_below-set p n s h hp clear =
    clear_below-flip (bitmap_test s) (bitmap_test (bitmap_set p s)) p n hp clear
      (ground (arith, bitmap_test-set p p s h)) (λ q ne. ground (arith, bitmap_test-set p q s h))

pub clear_below-clear :
    (p n : ℕ) (s : Pmm)
    → IsBytes s
    → p < n
    → bitmap_test s p ≡ true
    → clear_below (bitmap_test (bitmap_clear p s)) n ≡ clear_below (bitmap_test s) n + 1
clear_below-clear p n s h hp marked = sym (
    clear_below-flip (bitmap_test (bitmap_clear p s)) (bitmap_test s) p n hp
      (ground (arith, bitmap_test-clear p p s h)) marked
      (λ q ne. ground (arith, bitmap_test-clear p q s h)))

-- Marking a run of free pages lowers the number of free pages by its length.
pub clear_below-set_run :
    (start k n : ℕ) (s : Pmm)
    → IsBytes s
    → start + k ≤ n
    → ((q : ℕ) → start ≤ q → q < start + k → bitmap_test s q ≡ false)
    → clear_below (bitmap_test (set_run start k s)) n + k ≡ clear_below (bitmap_test s) n
unfolding set_run
clear_below-set_run start zero n s h le clear = omega arith
clear_below-set_run start (suc k) n s h le clear =
    let first =
      clear_below-set start n s h (omega arith) (clear start (omega arith) (omega arith)) in
    let rest =
      clear_below-set_run (start + 1) k n (bitmap_set start s) (bitmap_set-IsBytes start s h)
        (omega arith)
        (λ q lo hi.
          ground (arith, bitmap_test-set start q s h, clear q (omega arith) (omega arith))) in
    omega (arith, first, rest)
