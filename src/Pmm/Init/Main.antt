-- ===== src/Pmm/Init/Main.antt =====
-- pmm_init of kernel/pmm.c as a whole.
use mathlib.Core.Path.{subst}
use ore_os.Base.{
  Bool-cases, List, Memory, Option-cases, [], arith, if◌then◌else◌, inl, inr, ltb, some,
  some_injective, ℕ, ◌+◌, ◌/◌, ◌<◌, ◌==◌, ◌^◌, ◌∙◌, ◌∷◌, ◌≡◌, ◌≢◌,
}
use ore_os.Boot.{BootInfo, MemoryDescriptor, boot_info_size}
use ore_os.Pmm.{Pmm, low_reserved_end, page_size}
use ore_os.Pmm.Invariant.{IsValid}
use ore_os.Pmm.Init.{
  align_up, all_reserved, find_bitmap_storage, find_in, max_end, pmm_init, release_all,
  usable_descriptor, usable_end, usable_start,
}
use ore_os.Pmm.Init.Reserve.{IsMarked}
use ore_os.Pmm.Init.Storage.{
  IsPlace, all_reserved-IsCovered, all_reserved-IsValid, all_reserved_memory, all_reserved_unused,
  all_reserved_width, find_in-IsPlace,
}
use ore_os.Pmm.Init.Established.{
  All-Ready_start, MapFits, max_end-Below, max_end_small, release_all-IsValid, usable_bounds,
}
use ore_os.Pmm.Init.Booted.{RegionsFit, reserve_all-Protected}

-- The bitmap lies above the low megabyte and below 2^52, and does not meet the kernel.
find_bitmap_storage-IsPlace :
    (boot : BootInfo) (ds : List MemoryDescriptor) (bytes : ℕ) {addr : ℕ}
    → MapFits ds
    → 0 < bytes
    → bytes < 2 ^ 50
    → find_bitmap_storage boot ds bytes ≡ some addr
    → IsPlace boot (align_up bytes / page_size) low_reserved_end (2 ^ 52) addr
unfolding find_bitmap_storage
find_bitmap_storage-IsPlace boot [] bytes fits pos small e = cc
find_bitmap_storage-IsPlace boot (d ∷ ds) bytes {addr} fits pos small e =
    elim (Bool-cases (usable_descriptor d)) [
      | inr nu ↦ find_bitmap_storage-IsPlace boot ds bytes fits.2 pos small (rw nu at e)
      | inl u ↦
          let start =
            if ltb (usable_start d) low_reserved_end then low_reserved_end else usable_start d in
          let b = usable_bounds d fits.0 u in
          let e' = rw u at e in
          let pages = align_up bytes / page_size in
          let some_pages : (0 < pages) × (pages < 2 ^ 40) = unfold align_up in omega arith in
          elim (Option-cases
            (find_in boot (usable_end d / page_size + 1) start (usable_end d) pages)) [
              | inl nothing ↦
                  find_bitmap_storage-IsPlace boot ds bytes fits.2 pos small (rw nothing at e')
              | inr (found, place) ↦
                  let here : found ≡ addr = some_injective (rw place at e') in
                  let r =
                    find_in-IsPlace boot (usable_end d / page_size + 1) start (usable_end d) pages
                      {found = found} (ground arith) (omega arith) some_pages.1 some_pages.0
                      place in
                  subst (IsPlace boot pages low_reserved_end (2 ^ 52)) here (record {
                    above = ground (arith, r.above);
                    below = omega (arith, r.below);
                    apart = r.apart;
                  })
            ]
    ]

-- What pmm_init establishes.
pub record Initialised (boot : BootInfo) (self : ℕ) (memory : Memory) (s : Pmm) : Type 0 where
  pub valid : IsValid s
  pub unused : s.used_page_count ≡ 0
  pub memory_kept : s.memory ≡ memory
  pub low : IsMarked s 0 low_reserved_end
  pub kernel : IsMarked s boot.kernel_base boot.kernel_size
  pub initramfs :
      boot.initramfs_base ≢ 0
      → boot.initramfs_size ≢ 0
      → IsMarked s boot.initramfs_base boot.initramfs_size
  pub info : IsMarked s self boot_info_size
  pub bitmap :
      (addr : ℕ) × IsPlace boot (align_up s.bitmap_bytes / page_size) low_reserved_end (2 ^ 52) addr
      × IsMarked s addr s.bitmap_bytes

-- If the usable descriptors end below 2^52 and their whole pages are apart, the reserved regions end
-- below 2^60, and pmm_init does not panic, then the counters agree with the bitmap and add up, no page
-- counts as used, the memory is as it was, and every page that meets the low megabyte, the kernel, the
-- initramfs (if base and size are not 0) or the boot information is marked; so is every page of the
-- bitmap, which lies above the low megabyte and does not meet the kernel.
pub pmm_init_lem :
    (boot : BootInfo) (self : ℕ) (old : ℕ → ℕ) (memory : Memory) {s : Pmm}
    → MapFits boot.memory_map
    → RegionsFit boot self
    → ((i : ℕ) → old i < 256)
    → pmm_init boot self old memory ≡ some s
    → Initialised boot self memory s
unfolding pmm_init
pmm_init_lem boot self old memory {s} fits fit bytes e =
    let top = max_end boot.memory_map 0 in
    let small = max_end_small boot.memory_map 0 fits (omega arith) in
    let s0 = all_reserved top old memory in
    let c0 = all_reserved-IsCovered top old memory small in
    elim (Bool-cases (top == 0)) [
      | inl empty ↦ let e' = rw empty at e in cc
      | inr some_memory ↦
          let e1 = rw some_memory at e in
          elim (Option-cases (find_bitmap_storage boot boot.memory_map s0.bitmap_bytes)) [
            | inl nothing ↦ let e2 = rw nothing at e1 in cc
            | inr (addr, found) ↦
                let here = some_injective (rw found at e1) in
                let (same, valid) =
                  release_all-IsValid boot.memory_map s0
                    (all_reserved-IsValid top old memory small bytes) c0
                    (all_reserved_unused top old memory) fits
                    (All-Ready_start boot.memory_map top old memory small fits
                      (max_end-Below boot.memory_map 0)) in
                let width = all_reserved_width top old memory small (ground arith) in
                let place =
                  find_bitmap_storage-IsPlace boot boot.memory_map s0.bitmap_bytes fits width.0
                    width.1 found in
                let r = release_all boot.memory_map s0 in
                let p =
                  reserve_all-Protected boot self addr r valid
                    (omega (arith, same.total, same.max, c0)) fit
                    (omega (arith, place.below, same.width, width.2)) in
                subst (Initialised boot self memory) here (record {
                  valid = p.chain.valid;
                  unused = p.chain.same.used ∙ same.used ∙ all_reserved_unused top old memory;
                  memory_kept =
                      p.chain.same.memory ∙ same.memory ∙ all_reserved_memory top old memory;
                  low = p.low;
                  kernel = p.kernel;
                  initramfs = p.initramfs;
                  info = p.info;
                  bitmap = (
                    addr,
                    rw (p.chain.same.width, same.width) place,
                    rw p.chain.same.width p.bitmap,
                  );
                })
          ]
    ]
