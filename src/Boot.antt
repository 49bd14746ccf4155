-- ===== src/Boot.antt =====
-- include/bootinfo.h: what the loader hands to the kernel. A structure that the kernel reads through
-- a pointer is a record, and the entries of the memory map in use are a list.
use ore_os.Base.{List, ℕ, ◌*◌, ◌+◌}

-- OreMemoryDescriptor; `type` is `kind`.
pub record MemoryDescriptor : Type 0 where
  pub kind : ℕ
  pub physical_start : ℕ
  pub virtual_start : ℕ
  pub number_of_pages : ℕ
  pub attribute : ℕ

pub record Framebuffer : Type 0 where
  pub base : ℕ
  pub width : ℕ
  pub height : ℕ
  pub pixels_per_scanline : ℕ
  pub pixel_format : ℕ

pub record BootInfo : Type 0 where
  pub magic : ℕ
  pub rsdp : ℕ
  pub kernel_base : ℕ
  pub kernel_size : ℕ
  pub initramfs_base : ℕ
  pub initramfs_size : ℕ
  pub framebuffer : Framebuffer
  pub memory_map_descriptor_size : ℕ
  pub memory_map : List MemoryDescriptor
  pub cmdline : List ℕ

-- sizeof(BootInfo): six words, the frame buffer of 24 bytes, two words, 256 descriptors of 40 bytes,
-- and 128 bytes of command line.
abbrev pub boot_info_size : ℕ
boot_info_size = 6 * 8 + 24 + 2 * 8 + 256 * 40 + 128
