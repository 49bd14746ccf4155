-- ===== src/Vfs/Calls.antt =====
-- The calls of kernel/vfs.c: stat, read and the listing of a directory. Pointers are not NULL.
pub mod Read
pub mod Whole
pub mod Listing
pub mod Short
pub mod Directory
pub mod Sample
mod Tests
use ore_os.Base.{
  Bool, List, Memory, Option, [], add64, codes, false, if◌then◌else◌, leb, length, min, none, not,
  some, suc, u32_mod, zero, ℕ, ◌%◌, ◌&&◌, ◌*◌, ◌++◌, ◌+◌, ◌-◌, ◌/◌, ◌==◌, ◌||◌, ◌∷◌,
}
use ore_os.Block.{BlockDevice, block_root_read}
use ore_os.Vfs.{
  Vfs, VfsStat, copy_name, direct_child, disk_direct_child, disk_has_children, disk_lookup,
  disk_path, drop_one_slash, lookup_raw, path_has_children, str_eq_local, vfs_dir, vfs_file,
}

abbrev pub root_path : List ℕ
root_path = codes "/"

abbrev pub disk_name : List ℕ
disk_name = codes "disk"

abbrev pub directory : List ℕ → VfsStat
directory name = record { name = name; kind = vfs_dir; size = 0 }

-- The path below the disk, if it is mounted.
pub on_disk : Vfs → List ℕ → Option (List ℕ)
on_disk s path = if s.disk_mounted then disk_path path else none

pub stat_disk : Vfs → List ℕ → Option VfsStat
stat_disk s [] = some (directory (copy_name disk_name))
stat_disk s (c ∷ cs) = elim (disk_lookup s (c ∷ cs)) [
  | some entry ↦ some (record { name = copy_name entry.name; kind = entry.kind; size = entry.size })
  | none ↦ if disk_has_children s (c ∷ cs) then some (directory (copy_name (c ∷ cs))) else none
]

pub stat_initramfs : Vfs → List ℕ → Option VfsStat
stat_initramfs s path = elim (lookup_raw s path) [
  | some file ↦ some (record { name = copy_name file.name; kind = file.kind; size = file.size })
  | none ↦
      if path_has_children s path then some (directory (copy_name (drop_one_slash path))) else none
]

-- vfs_stat; `none` is the result -1.
pub vfs_stat : Vfs → List ℕ → Option VfsStat
vfs_stat s path =
    if not s.mounted
    then none
    else if str_eq_local path root_path
    then some (directory (copy_name root_path))
    else elim (on_disk s path) [ some rel ↦ stat_disk s rel | none ↦ stat_initramfs s path ]

-- The `n` bytes from `p` on.
pub bytes_at : Memory → (p n : ℕ) → List ℕ
bytes_at m p zero = []
bytes_at m p (suc n) = m p ∷ bytes_at m (p + 1) n

-- The bytes of a file from `disk_offset` on: the sectors around them are read.
pub read_disk : Option BlockDevice → (can_alloc : ℕ → Bool) → (disk_offset n : ℕ) → Option (List ℕ)
read_disk dev can_alloc disk_offset n =
    let lba_off = disk_offset % 512 in
    let sectors = (lba_off + n + 511) / 512 in
    if not (can_alloc (sectors * 512))
    then none
    else elim (block_root_read dev (disk_offset / 512) (sectors % u32_mod)) [
      | none ↦ none
      | some tmp ↦ some (bytes_at tmp lba_off n)
    ]

-- vfs_read_file_at; the bytes that it copies to the buffer, whose number it returns, or `none` for -1.
-- `m` is the memory with the files of the initramfs.
pub vfs_read_file_at :
    Option BlockDevice
    → (can_alloc : ℕ → Bool) → (m : Memory) → Vfs
    → (path : List ℕ) → (offset buffer_size : ℕ) → Option (List ℕ)
vfs_read_file_at dev can_alloc m s path offset buffer_size =
    if not s.mounted then none else elim (on_disk s path) [
      | some rel ↦ elim (disk_lookup s rel) [
        | none ↦ none
        | some entry ↦
            if not (entry.kind == vfs_file)
            then none
            else if leb entry.size offset
            then some []
            else read_disk dev can_alloc (add64 entry.offset offset)
                (min (entry.size - offset) buffer_size)
      ]
      | none ↦ elim (lookup_raw s path) [
        | none ↦ none
        | some file ↦
            if leb file.size offset
            then some []
            else some (bytes_at m (file.data_at + offset) (min (file.size - offset) buffer_size))
      ]
    ]

-- vfs_read_file
abbrev pub vfs_read_file :
    Option BlockDevice
    → (can_alloc : ℕ → Bool) → Memory
    → Vfs
    → (path : List ℕ) → ℕ
    → Option (List ℕ)
vfs_read_file dev can_alloc m s path buffer_size =
    vfs_read_file_at dev can_alloc m s path 0 buffer_size

module _ {A : Type 0} (child : A → Option VfsStat) where
  -- The inner loop of vfs_readdir_path: the name is that of an earlier entry's child.
  pub is_duplicate : List ℕ → List A → Bool
  is_duplicate name [] = false
  is_duplicate name (e ∷ es) =
      elim (child e) [ none ↦ false | some prev ↦ str_eq_local name prev.name ]
      || is_duplicate name es

  -- The entry has a child of the directory, and no earlier entry has the same.
  pub is_new : Option VfsStat → List A → Bool
  is_new none before = false
  is_new (some st) before = not (is_duplicate st.name before)

  -- The outer loop: what it finds, and the children that it has passed. `before` are the entries that
  -- it has seen.
  pub list_children : (before rest : List A) → (index emitted : ℕ) → Option VfsStat × ℕ
  list_children before [] index emitted = (none, emitted)
  list_children before (e ∷ es) index emitted =
      let new = is_new (child e) before in
      let later =
        list_children (before ++ e ∷ []) es index (if new then emitted + 1 else emitted) in
      if new && emitted == index then (child e, emitted + 1) else later

abbrev pub copy_stat : VfsStat → VfsStat
copy_stat st = record st { name = copy_name st.name }

-- vfs_readdir_path; `none` is the result -1.
pub vfs_readdir_path : Vfs → (path : List ℕ) → (index : ℕ) → Option VfsStat
vfs_readdir_path s path index = if not s.mounted then none else elim (on_disk s path) [
  | some rel ↦
      let (found, emitted) = list_children (disk_direct_child rel) [] s.disk_entries index 0 in
      elim found [ none ↦ none | some st ↦ some (copy_stat st) ]
  | none ↦
      let dir = copy_name (drop_one_slash path) in
      let (found, emitted) = list_children (direct_child dir) [] s.files index 0 in
      elim found [
        | some st ↦ some (copy_stat st)
        | none ↦
            if length dir == 0 && (s.disk_mounted && index == emitted)
            then some (directory (copy_name disk_name))
            else none
      ]
]

-- vfs_readdir
abbrev pub vfs_readdir : Vfs → (index : ℕ) → Option VfsStat
vfs_readdir s index = vfs_readdir_path s root_path index
