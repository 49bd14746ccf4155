-- ===== src/Vfs/Disk.antt =====
-- mount_disk and vfs_mount_initramfs of kernel/vfs.c: the table of files at the start of the disk.
pub mod Table
mod Tests
use ore_os.Base.{
  Bool, List, Memory, Option, [], false, if◌then◌else◌, ltb, none, not, read32, read64, some, suc,
  take, true, zero, ℕ, ◌&&◌, ◌*◌, ◌+◌, ◌/◌, ◌==◌, ◌>>=◌, ◌||◌, ◌∷◌,
}
use ore_os.Block.{BlockDevice, block_root_read}
use ore_os.Vfs.{FileView, OreFsEntry, Vfs, orefs_max_entries}

-- The string in at most `n` bytes from `p` on.
pub string_at : Memory → (n p : ℕ) → List ℕ
string_at m zero p = []
string_at m (suc n) p = let rest = string_at m n (p + 1) in if m p == 0 then [] else m p ∷ rest

-- sizeof(OreFsEntry)
abbrev pub entry_size : ℕ
entry_size = 128

-- The entry at `p`; its name ends within its 96 bytes.
pub read_entry : Memory → ℕ → OreFsEntry
read_entry m p = record {
  name = string_at m 96 p;
  offset = read64 m (p + 96);
  size = read64 m (p + 104);
  kind = read32 m (p + 112);
}

pub read_entries : Memory → (n p : ℕ) → List OreFsEntry
read_entries m zero p = []
read_entries m (suc n) p = read_entry m p ∷ read_entries m n (p + entry_size)

-- `hdr->magic`, of which six characters are compared.
pub magic_ok : Memory → Bool
magic_ok m =
    m 0 == b'O' && (m 1 == b'R' && (m 2 == b'E' && (m 3 == b'F' && (m 4 == b'S' && m 5 == b'1'))))

-- The sectors with the entries, where `can_alloc` tells whether kmalloc has room for the buffer; the
-- kfree of the buffer is left out. `old` are the entries before.
pub read_table :
    Option BlockDevice
    → (can_alloc : ℕ → Bool) → (count : ℕ) → (old : List OreFsEntry) → Option (List OreFsEntry)
read_table dev can_alloc count old =
    let entry_sectors = (count * entry_size + 511) / 512 in
    if entry_sectors == 0
    then some old
    else if not (can_alloc (entry_sectors * 512))
    then none
    else elim (block_root_read dev 1 entry_sectors) [
      | none ↦ none
      | some tmp ↦ some (read_entries tmp count 0)
    ]

-- mount_disk; `none` is the result -1.
pub mount_disk : Option BlockDevice → (can_alloc : ℕ → Bool) → Vfs → Option Vfs
mount_disk dev can_alloc s = do
  sector ← block_root_read dev 0 1
  let count = read32 sector 12
  entries ←
      if not (magic_ok sector) || ltb orefs_max_entries count
      then none
      else read_table dev can_alloc count s.disk_entries
  some (record s { disk_mounted = true; disk_entries = take count entries })

-- vfs_mount_initramfs; `files` is what initramfs_init has found.
pub vfs_mount_initramfs : Option BlockDevice → (can_alloc : ℕ → Bool) → List FileView → Vfs → Vfs
vfs_mount_initramfs dev can_alloc files s =
    let s = record s { mounted = true; files = files } in
    elim (mount_disk dev can_alloc s) [ none ↦ s | some t ↦ t ]

-- vfs_init
pub vfs_init : Vfs → Vfs
vfs_init s = record s { mounted = false }
