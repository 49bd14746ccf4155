-- ===== src/Block.antt =====
-- kernel/block.c: the root device and a read from it. The device's own read is a field, as in the code.
use ore_os.Base.{
  Memory, Option, add64, if◌then◌else◌, ltb, none, not, some, ℕ, ◌*◌, ◌+◌, ◌<◌, ◌==◌, ◌≡◌,
}

-- `read` gives the bytes of the blocks, or `none` where it fails.
pub record BlockDevice : Type 0 where
  pub block_size : ℕ
  pub block_count : ℕ
  pub read : (lba blocks : ℕ) → Option Memory

-- block_root_read of the device `root_block`, whose function `read` is not NULL; `none` is the failure.
unfoldable pub block_root_read : Option BlockDevice → (lba blocks : ℕ) → Option Memory
block_root_read none lba blocks = none
block_root_read (some dev) lba blocks =
    if not (dev.block_size == 512)
    then none
    else if ltb dev.block_count (add64 lba blocks)
    then none
    else dev.read lba blocks

pub block_root_count : Option BlockDevice → ℕ
block_root_count none = 0
block_root_count (some dev) = dev.block_count

-- A device with the bytes of `disk`: a read that it gives has them.
pub record Holds (dev : Option BlockDevice) (disk : Memory) : Type 0 where
  pub same :
      (lba blocks : ℕ) (tmp : Memory)
      → block_root_read dev lba blocks ≡ some tmp
      → (i : ℕ) → i < 512 * blocks
      → tmp i ≡ disk (512 * lba + i)
