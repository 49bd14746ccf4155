-- ===== src/Initramfs/Tests.antt =====
-- kernel/initramfs.c at an archive with one file, "a", of 10 bytes, at the address 4096.
use ore_os.Base.{
  Memory, [], arith, codes, false, get_elem?, if◌then◌else◌, length, none, refl, some, true, ℕ, ◌+◌,
  ◌<◌, ◌==◌, ◌∷◌, ◌≡◌, ◌⊎◌,
}
use ore_os.Boot.{BootInfo}
use ore_os.Initramfs.{
  InitramfsFile, block_empty, drop_slash, file_of, header_file_size, initramfs_init,
  initramfs_lookup_raw, is_file,
}
use ore_os.Initramfs.Lookup.{NoneBefore, StringAt, initramfs_lookup_raw_lem}
use ore_os.Initramfs.Files.{Listed, initramfs_init_lem, initramfs_init_overrun}

-- The header: the name, and the digits 1 and 2 of the octal size at 134 and 135.
abbrev archive : Memory
archive a = if a == 4096 then b'a' else if a == 4230 then b'1' else if a == 4231 then b'2' else 0

abbrev boot_of : ℕ → BootInfo
boot_of size = record {
  magic = 0x4f524542494e464f;
  rsdp = 0;
  kernel_base = 0x100000;
  kernel_size = 0x1000;
  initramfs_base = 4096;
  initramfs_size = size;
  framebuffer = record {
    base = 0;
    width = 0;
    height = 0;
    pixels_per_scanline = 0;
    pixel_format = 0;
  };
  memory_map_descriptor_size = 40;
  memory_map = [];
  cmdline = [];
}

size_is_ten : header_file_size archive 4096 ≡ 10
unfolding header_file_size
size_is_ten = refl

has_header : block_empty archive 4096 ≡ false
unfolding block_empty
has_header = refl

is_a_file : is_file archive 4096 ≡ true
unfolding is_file
is_a_file = refl

initramfs_init_lem_example : Listed archive (boot_of 1024) (initramfs_init archive (boot_of 1024))
initramfs_init_lem_example = initramfs_init_lem archive (boot_of 1024)

initramfs_lookup_raw_lem_test :
    let files = initramfs_init archive (boot_of 1024) in
    ((i : ℕ) × (f : InitramfsFile) × (initramfs_lookup_raw archive files (codes "/a") ≡ some f)
      × (get_elem? files i ≡ some f)
      × StringAt archive f.name (drop_slash (codes "/a"))
      × NoneBefore archive files i (drop_slash (codes "/a")))
    ⊎ (initramfs_lookup_raw archive files (codes "/a") ≡ none)
      × NoneBefore archive files (length files) (drop_slash (codes "/a"))
initramfs_lookup_raw_lem_test =
    initramfs_lookup_raw_lem archive (initramfs_init archive (boot_of 1024)) (codes "/a")

-- Only the block of the header.
initramfs_init_overrun_test :
    (initramfs_init archive (boot_of 512) ≡ file_of archive 4096 ∷ [])
    × (4096 + 512 < (file_of archive 4096).data_at + (file_of archive 4096).size)
initramfs_init_overrun_test =
    initramfs_init_overrun archive (boot_of 512) (λ e. omega arith) refl has_header is_a_file
      (omega (arith, size_is_ten))
