-- ===== src/Pmm/Init/Tests.antt =====
-- pmm_init of kernel/pmm.c at a memory map with one usable descriptor of 270 pages.
use ore_os.Base.{Bool, Option, [], arith, false, none, refl, some, true, ℕ, ◌∷◌, ◌≡◌}
use ore_os.Boot.{BootInfo, MemoryDescriptor}
use ore_os.Pmm.{Pmm, bitmap_clear, bitmap_set, bitmap_test}
use ore_os.Pmm.Init.{all_reserved, pmm_init, reserve_loop}
use ore_os.Pmm.Init.Main.{Initialised, pmm_init_lem}

abbrev descriptor : MemoryDescriptor
descriptor = record {
  kind = 7;
  physical_start = 0;
  virtual_start = 0;
  number_of_pages = 270;
  attribute = 0;
}

-- The kernel is the first page above the low megabyte, the boot information lies two pages behind.
abbrev boot : BootInfo
boot = record {
  magic = 0x4f524542494e464f;
  rsdp = 0;
  kernel_base = 0x100000;
  kernel_size = 0x1000;
  initramfs_base = 0;
  initramfs_size = 0;
  framebuffer = record {
    base = 0;
    width = 0;
    height = 0;
    pixels_per_scanline = 0;
    pixel_format = 0;
  };
  memory_map_descriptor_size = 40;
  memory_map = descriptor ∷ [];
  cmdline = [];
}

abbrev self : ℕ
self = 0x103000

abbrev boots : Option Pmm
boots = pmm_init boot self (λ i. 0) (λ a. 0)

abbrev get : Pmm → Option Pmm → Pmm
get d none = d
get d (some s) = s

abbrev is_some : Option Pmm → Bool
is_some none = false
is_some (some s) = true

get_lem : (d : Pmm) (o : Option Pmm) → is_some o ≡ true → o ≡ some (get d o)
get_lem d o h = ground arith

abbrev booted : Pmm
booted = get (all_reserved 0 (λ i. 0) (λ a. 0)) boots

boots_some : is_some boots ≡ true
unfolding pmm_init reserve_loop bitmap_test bitmap_set bitmap_clear
boots_some = refl

-- Of the 14 pages above the low megabyte, one holds the kernel, one the bitmap and three the boot
-- information.
booted_counts :
    (booted.free_page_count ≡ 9)
    × (booted.reserved_page_count ≡ 261)
    × (booted.total_page_count ≡ 270)
unfolding pmm_init reserve_loop bitmap_test bitmap_set bitmap_clear
booted_counts = (refl, refl, refl)

pmm_init_lem_example : Initialised boot self (λ a. 0) booted
pmm_init_lem_example =
    pmm_init_lem boot self (λ i. 0) (λ a. 0) (λ u. omega arith, tt, tt)
      (record { kernel = omega arith; initramfs = omega arith; info = omega arith })
      (λ i. omega arith) (get_lem (all_reserved 0 (λ i. 0) (λ a. 0)) boots boots_some)
