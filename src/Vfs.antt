-- ===== src/Vfs.antt =====
-- kernel/vfs.c: one tree of names over the initramfs and the disk. A string is the list of its
-- characters, none of them NUL.
pub mod Names
pub mod Disk
pub mod Calls
use ore_os.Base.{
  Bool, List, Option, [], codes, drop, false, get_or, if◌then◌else◌, length, min, none, not, some,
  suc, take, true, ℕ, ◌&&◌, ◌==◌, ◌||◌, ◌∷◌,
}

abbrev pub slash : ℕ
slash = b'/'

abbrev pub vfs_file : ℕ
vfs_file = 1

abbrev pub vfs_dir : ℕ
vfs_dir = 2

-- InitramfsFileView; `data_at` is where the data start in memory.
pub record FileView : Type 0 where
  pub name : List ℕ
  pub data_at : ℕ
  pub size : ℕ
  pub kind : ℕ

pub record OreFsEntry : Type 0 where
  pub name : List ℕ
  pub offset : ℕ
  pub size : ℕ
  pub kind : ℕ

pub record VfsStat : Type 0 where
  pub name : List ℕ
  pub kind : ℕ
  pub size : ℕ

-- The static variables of vfs.c, and the list of files of initramfs.c.
pub record Vfs : Type 0 where
  pub mounted : Bool
  pub disk_mounted : Bool
  pub files : List FileView
  pub disk_entries : List OreFsEntry

abbrev pub orefs_max_entries : ℕ
orefs_max_entries = 128

-- copy_name and copy_name_len, for a name of 128 bytes.
pub copy_name : List ℕ → List ℕ
copy_name name = take 127 name

pub copy_name_len : List ℕ → ℕ → List ℕ
copy_name_len name len = take (min 127 len) name

pub str_eq_local : List ℕ → List ℕ → Bool
str_eq_local [] [] = true
str_eq_local [] (y ∷ ys) = false
str_eq_local (x ∷ xs) [] = false
str_eq_local (x ∷ xs) (y ∷ ys) = let rest = str_eq_local xs ys in if x == y then rest else false

-- str_prefix_eq of a name and all of `b`.
pub str_prefix_eq : List ℕ → List ℕ → Bool
str_prefix_eq a [] = true
str_prefix_eq [] (y ∷ ys) = false
str_prefix_eq (x ∷ xs) (y ∷ ys) = let rest = str_prefix_eq xs ys in if x == y then rest else false

-- `name[i]`, with the NUL at the end.
abbrev pub char_at : List ℕ → ℕ → ℕ
char_at name i = get_or name i 0

pub starts_with_dir : (name dir : List ℕ) → Bool
starts_with_dir name [] = true
starts_with_dir name (c ∷ cs) =
    str_prefix_eq name (c ∷ cs) && char_at name (length (c ∷ cs)) == slash

-- `while (rel[child_len] && rel[child_len] != '/') child_len++`
pub child_len : List ℕ → ℕ
child_len [] = 0
child_len (c ∷ cs) = if c == slash then 0 else suc (child_len cs)

-- The second half of direct_child and of disk_direct_child: the first part of the name below the
-- directory.
pub child_of : (rel : List ℕ) → (kind size : ℕ) → Option VfsStat
child_of [] kind size = none
child_of rel kind size =
    let len = child_len rel in
    let name = copy_name_len rel len in
    some (
      if char_at rel len == slash
      then record { name = name; kind = vfs_dir; size = 0 }
      else record { name = name; kind = kind; size = size })

-- `name + dir_len`, and `rel++` for a directory that is not the root.
pub rel_to : (name dir : List ℕ) → List ℕ
rel_to name [] = name
rel_to name (c ∷ cs) = drop (suc (length (c ∷ cs))) name

pub direct_child : (dir : List ℕ) → FileView → Option VfsStat
direct_child dir file =
    if starts_with_dir file.name dir
    then child_of (rel_to file.name dir) file.kind file.size
    else none

pub disk_direct_child : (dir : List ℕ) → OreFsEntry → Option VfsStat
disk_direct_child dir entry =
    if not (length dir == 0)
      && (not (str_prefix_eq entry.name dir) || not (char_at entry.name (length dir) == slash))
    then none
    else child_of (rel_to entry.name dir) entry.kind entry.size

pub drop_one_slash : List ℕ → List ℕ
drop_one_slash [] = []
drop_one_slash (c ∷ cs) = if c == slash then cs else c ∷ cs

abbrev pub disk_root : List ℕ
disk_root = codes "/disk"

abbrev pub disk_prefix : List ℕ
disk_prefix = codes "/disk/"

-- disk_path: the path below the disk.
pub disk_path : List ℕ → Option (List ℕ)
disk_path path =
    if str_eq_local path disk_root
    then some []
    else if str_prefix_eq path disk_prefix
    then some (drop 6 path)
    else none

pub find_disk_entry : List ℕ → List OreFsEntry → Option OreFsEntry
find_disk_entry rel [] = none
find_disk_entry rel (e ∷ es) =
    let rest = find_disk_entry rel es in if str_eq_local e.name rel then some e else rest

pub disk_lookup : Vfs → List ℕ → Option OreFsEntry
disk_lookup s path =
    find_disk_entry (drop_one_slash (elim (disk_path path) [ none ↦ path | some rel ↦ rel ]))
      s.disk_entries

pub any_below : List ℕ → List OreFsEntry → Bool
any_below rel [] = false
any_below rel (e ∷ es) =
    (str_prefix_eq e.name rel && char_at e.name (length rel) == slash) || any_below rel es

pub disk_has_children : Vfs → List ℕ → Bool
disk_has_children s [] = not (length s.disk_entries == 0)
disk_has_children s (c ∷ cs) = any_below (c ∷ cs) s.disk_entries

-- initramfs_lookup_raw on the list of files.
pub find_file : List ℕ → List FileView → Option FileView
find_file name [] = none
find_file name (f ∷ fs) =
    let rest = find_file name fs in if str_eq_local f.name name then some f else rest

pub lookup_raw : Vfs → List ℕ → Option FileView
lookup_raw s path = find_file (drop_one_slash path) s.files

pub any_file_below : List ℕ → List FileView → Bool
any_file_below dir [] = false
any_file_below dir (f ∷ fs) = starts_with_dir f.name dir || any_file_below dir fs

pub path_has_children : Vfs → List ℕ → Bool
path_has_children s path = any_file_below (drop_one_slash path) s.files
