-- ===== src/Vmm/Fresh.antt =====
-- new_table of kernel/vmm.c: the page that becomes a table.
use ore_os.Pmm.Count.{clear_below-tail}
use ore_os.Base.{
  arith, false, inl, inr, none, refl, some, suc, true, zero, ℕ, ◌%◌, ◌*◌, ◌+◌, ◌/◌, ◌<◌, ◌^◌, ◌≡◌,
  ◌≢◌, ◌≤◌, ◌⊎◌,
}
use ore_os.Pmm.{Pmm, alloc_page, bitmap_test, low_reserved_pages}
use ore_os.Pmm.Invariant.{IsValid}
use ore_os.Pmm.Alloc.{Taken, alloc_page_one, alloc_pages_lem}
use ore_os.Vmm.{Vmm, new_table, slot, zero_words}
use ore_os.Vmm.Entry.{IsFrame}

pub zero_words_in :
    (table n : ℕ) (m : ℕ → ℕ) (j : ℕ) → j < n → zero_words table n m (slot table j) ≡ 0
unfolding zero_words
zero_words_in table zero m j h = absurd (omega arith)
zero_words_in table (suc n) m j h = ground (arith, zero_words_in table n m j)

pub zero_words_out :
    (table n : ℕ) (m : ℕ → ℕ) (x : ℕ)
    → (x < table) ⊎ (table + 8 * n ≤ x)
    → zero_words table n m x ≡ m x
unfolding zero_words
zero_words_out table zero m x h = refl
zero_words_out table (suc n) m x h = ground (arith, zero_words_out table n m x (omega arith))

-- The page `child` was free and is now a table of zeros; all other pages are as before.
pub record Fresh (s : Vmm) (child : ℕ) (t : Vmm) : Type 0 where
  pub nonzero : child ≢ 0
  pub frame : IsFrame child
  pub was_free : bitmap_test s.pmm (child / 4096) ≡ false
  pub now_taken : bitmap_test t.pmm (child / 4096) ≡ true
  pub still_taken : (q : ℕ) → bitmap_test s.pmm q ≡ true → bitmap_test t.pmm q ≡ true
  pub empty : (j : ℕ) → j < 512 → t.words (slot child j) ≡ 0
  pub others :
      (x j : ℕ) → x % 4096 ≡ 0 → x ≢ child → j < 512 → t.words (slot x j) ≡ s.words (slot x j)
  pub valid : IsValid t.pmm
  pub total : t.pmm.total_page_count ≡ s.pmm.total_page_count
  pub free : t.pmm.free_page_count + 1 ≡ s.pmm.free_page_count

Fresh-table :
    (s : Vmm) (child : ℕ) (p : Pmm)
    → s.pmm.total_page_count ≤ 2 ^ 40
    → child ≢ 0
    → Taken s.pmm p 1 child
    → IsValid p
    → Fresh s child (record { pmm = p; words = zero_words child 512 s.words })
Fresh-table s child p small ne taken valid = record {
  nonzero = ne;
  frame = omega (arith, taken.aligned, taken.run);
  was_free = taken.run.clear (child / 4096) (omega arith) (omega arith);
  now_taken = ground (arith, taken.bits (child / 4096));
  still_taken = λ q h. ground (arith, taken.bits q);
  empty = λ j h. zero_words_in child 512 s.words j h;
  others = λ x j a n h. zero_words_out child 512 s.words (slot x j) (omega arith);
  valid = valid;
  total = taken.total;
  free = taken.free;
}

-- When every window of one page holds a page that is taken, every page is.
all_taken :
    (s : Pmm)
    → ((start : ℕ)
        → low_reserved_pages ≤ start
        → start + 1 ≤ s.total_page_count
        → (q : ℕ) × (start ≤ q) × (q < start + 1) × (bitmap_test s q ≡ true))
    → (q : ℕ) → low_reserved_pages ≤ q
    → q < s.total_page_count
    → bitmap_test s q ≡ true
all_taken s full q lo hi =
    let (page, le, lt, marked) = full q lo (omega arith) in
    let same : page ≡ q = omega arith in rw (same) at marked

-- pmm_alloc_page gives a page, or at most the 256 pages of the low megabyte are free.
pub alloc_page_lem :
    (s : Pmm)
    → IsValid s
    → let (ptr, p) = alloc_page s in
      (ptr ≢ 0) × Taken s p 1 ptr × IsValid p ⊎ (ptr ≡ 0) × (s.free_page_count ≤ low_reserved_pages)
alloc_page_lem s v = rw (alloc_page_one s) (elim (alloc_pages_lem 1 s v (omega arith)) [
  | inl taken ↦ inl taken
  | inr (null, same, full) ↦ inr (
    null,
    omega (
      arith,
      v.counted,
      clear_below-tail (bitmap_test s) low_reserved_pages s.total_page_count
          (λ q lo hi. all_taken s full q lo hi),
    ),
  )
])

-- new_table gives a fresh table, or it panics, and then at most the 256 pages of the low megabyte are
-- free.
pub new_table_lem :
    (s : Vmm)
    → IsValid s.pmm
    → s.pmm.total_page_count ≤ 2 ^ 40
    → (new_table s ≡ none) × (s.pmm.free_page_count ≤ low_reserved_pages)
      ⊎ (child : ℕ) × (t : Vmm) × (new_table s ≡ some (child, t)) × Fresh s child t
unfolding new_table
new_table_lem s v small = elim (alloc_page_lem s.pmm v) [
  | inl (ne, taken, valid) ↦ inr (_, _, ground arith, Fresh-table s _ _ small ne taken valid)
  | inr (null, full) ↦ inl (ground arith, full)
]
