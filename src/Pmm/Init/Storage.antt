-- ===== src/Pmm/Init/Storage.antt =====
-- Where find_bitmap_storage of kernel/pmm.c puts the bitmap, and the state before the first release.
use ore_os.Pmm.Count.{clear_below-full}
use ore_os.Pmm.Invariant.{IsValid}
use mathlib.Core.Path.{subst}
use ore_os.Base.{
  Bool-cases, Memory, add64, arith, bit_is_set, false, if◌then◌else◌, inl, inr, leb, leb→le, ltb,
  lt→ltb, mul64, refl, some, suc, true, zero, ℕ, ◌%◌, ◌*◌, ◌+◌, ◌/◌, ◌<◌, ◌^◌, ◌≡◌, ◌≢◌, ◌≤◌,
}
use ore_os.Boot.{BootInfo}
use ore_os.Pmm.Init.Reserve.{IsCovered}
use ore_os.Pmm.{bitmap_test, page_size}
use ore_os.Pmm.Init.{align_up, all_reserved, fill_bitmap, find_in, ranges_overlap}

-- A place for `pages` pages in [lo, hi) that does not meet the kernel.
pub record IsPlace (boot : BootInfo) (pages lo hi addr : ℕ) : Type 0 where
  pub above : lo ≤ addr
  pub below : addr + pages * page_size ≤ hi
  pub apart :
      ranges_overlap addr
        (addr + pages * page_size)
        boot.kernel_base
        (add64 boot.kernel_base boot.kernel_size)
      ≡ false

pub find_in-IsPlace :
    (boot : BootInfo) (fuel addr end pages : ℕ) {found : ℕ}
    → addr < 2 ^ 60
    → end < 2 ^ 60
    → pages < 2 ^ 40
    → 0 < pages
    → find_in boot fuel addr end pages ≡ some found
    → IsPlace boot pages addr end found
unfolding find_in
find_in-IsPlace boot zero addr end pages a b c pos e = cc
find_in-IsPlace boot (suc fuel) addr end pages {found} a b c pos e =
    let span : add64 addr (mul64 pages page_size) ≡ addr + pages * page_size = omega arith in
    let next : add64 addr page_size ≡ addr + page_size = omega arith in
    let e' = rw (span, next) at e in
    elim (Bool-cases (leb (addr + pages * page_size) end)) [
      | inr too_far ↦ ground arith
      | inl fits ↦
          elim (Bool-cases (
            ranges_overlap addr (addr + pages * page_size) boot.kernel_base
              (add64 boot.kernel_base boot.kernel_size))) [
                | inr apart ↦
                    let here : addr ≡ found = ground arith in
                    subst (IsPlace boot pages addr end) here
                      (record { above = omega arith; below = leb→le _ _ fits; apart = apart })
                | inl meets ↦
                    let r =
                      find_in-IsPlace boot fuel (addr + page_size) end pages {found = found}
                        (omega (arith, leb→le (addr + pages * page_size) end fits)) b c pos
                        (ground arith) in
                    record { above = omega (arith, r.above); below = r.below; apart = r.apart }
              ]
    ]

-- All pages are marked before the first release.
bit_is_set-full : (k : ℕ) → k < 8 → bit_is_set 0xff k ≡ true
bit_is_set-full zero h = refl
bit_is_set-full (suc zero) h = refl
bit_is_set-full (suc (suc zero)) h = refl
bit_is_set-full (suc (suc (suc zero))) h = refl
bit_is_set-full (suc (suc (suc (suc zero)))) h = refl
bit_is_set-full (suc (suc (suc (suc (suc zero))))) h = refl
bit_is_set-full (suc (suc (suc (suc (suc (suc zero)))))) h = refl
bit_is_set-full (suc (suc (suc (suc (suc (suc (suc zero))))))) h = refl
bit_is_set-full (suc (suc (suc (suc (suc (suc (suc (suc k)))))))) h = absurd (omega arith)

fill_bitmap_lem : (n : ℕ) (m : ℕ → ℕ) (i : ℕ) → fill_bitmap n m i ≡ (if ltb i n then 0xff else m i)
unfolding fill_bitmap
fill_bitmap_lem zero m i = ground arith
fill_bitmap_lem (suc n) m i = ground (arith, fill_bitmap_lem n m i)

module _ (top : ℕ) (old : ℕ → ℕ) (memory : Memory) (small : top ≤ 2 ^ 52) where
  pub all_reserved_marked :
      (q : ℕ)
      → q < (all_reserved top old memory).total_page_count
      → bitmap_test (all_reserved top old memory) q ≡ true
  unfolding all_reserved bitmap_test align_up
  all_reserved_marked q h =
      rw
        (
          fill_bitmap_lem,
          lt→ltb (q / 8) (add64 ((add64 top 4095 / 4096 * 4096 / 4096 + 7) / 8) 4095 / 4096 * 4096)
              (omega arith),
        )
        (bit_is_set-full (q % 8) (omega arith))

  pub all_reserved-IsCovered : IsCovered (all_reserved top old memory)
  unfolding all_reserved align_up
  all_reserved-IsCovered = omega arith

  pub all_reserved-IsValid : ((i : ℕ) → old i < 256) → IsValid (all_reserved top old memory)
  unfolding all_reserved
  all_reserved-IsValid h = record {
    bytes = λ i. unfold all_reserved align_up in rw fill_bitmap_lem (ground (arith, h i));
    counted = clear_below-full (bitmap_test (all_reserved top old memory)) _ all_reserved_marked;
    summed = unfold all_reserved align_up in omega arith;
    small = omega (arith, all_reserved-IsCovered);
  }

pub all_reserved_max :
    (top : ℕ) (old : ℕ → ℕ) (memory : Memory) → (all_reserved top old memory).max_phys ≡ top
unfolding all_reserved
all_reserved_max top old memory = refl

pub all_reserved_unused :
    (top : ℕ) (old : ℕ → ℕ) (memory : Memory) → (all_reserved top old memory).used_page_count ≡ 0
unfolding all_reserved
all_reserved_unused top old memory = refl

pub all_reserved_memory :
    (top : ℕ) (old : ℕ → ℕ) (memory : Memory) → (all_reserved top old memory).memory ≡ memory
unfolding all_reserved
all_reserved_memory top old memory = refl

-- The bitmap is a whole number of pages, and not empty.
pub all_reserved_width :
    (top : ℕ) (old : ℕ → ℕ) (memory : Memory)
    → top ≤ 2 ^ 52
    → top ≢ 0
    → let bytes = (all_reserved top old memory).bitmap_bytes in
      (0 < bytes) × (bytes < 2 ^ 50) × (align_up bytes / page_size * page_size ≡ bytes)
unfolding all_reserved align_up
all_reserved_width top old memory small ne = omega arith
