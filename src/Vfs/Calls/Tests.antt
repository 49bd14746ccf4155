-- ===== src/Vfs/Calls/Tests.antt =====
-- The file system of kernel/vfs.c with three files in the initramfs and one on the disk.
use ore_os.Vfs.Calls.Directory.{listing, readdir_names_differ, vfs_readdir_path_lem}
use ore_os.Vfs.Calls.Read.{DiskFails, content, vfs_read_file_at_lem}
use ore_os.Vfs.Calls.Whole.{read-append, read-stat}
use ore_os.Base.{
  List, Memory, Option, [], arith, codes, get_elem?, if◌then◌else◌, inl, leb, length, min, none,
  refl, some, true, ℕ, ◌%◌, ◌*◌, ◌++◌, ◌+◌, ◌-◌, ◌<◌, ◌^◌, ◌∷◌, ◌≡◌, ◌≢◌, ◌⊎◌,
}
use ore_os.Block.{BlockDevice, Holds, block_root_read}
use ore_os.Vfs.{
  FileView, Vfs, any_below, child_len, child_of, copy_name, copy_name_len, direct_child,
  disk_has_children, disk_lookup, disk_path, drop_one_slash, find_disk_entry, find_file, lookup_raw,
  rel_to, starts_with_dir, str_eq_local, str_prefix_eq,
}
use ore_os.Vfs.Calls.{
  bytes_at, directory, is_duplicate, is_new, list_children, on_disk, stat_disk, vfs_read_file,
  vfs_read_file_at, vfs_readdir, vfs_readdir_path, vfs_stat,
}

abbrev file_named : List ℕ → (data_at size : ℕ) → FileView
file_named name data_at size = record { name = name; data_at = data_at; size = size; kind = 1 }

abbrev some_files : List FileView
some_files =
    file_named (codes "bin/sh") 0x1000 10
    ∷ file_named (codes "bin/cat") 0x2000 20
    ∷ file_named (codes "motd") 0x3000 6
    ∷ []

-- Every byte is its address, modulo 256.
abbrev counting : Memory
counting a = a % 256

abbrev counting_device : Option BlockDevice
counting_device = some (record {
  block_size = 512;
  block_count = 64;
  read = λ lba blocks. some (λ i. counting (512 * lba + i));
})

abbrev tree : Vfs
tree = record {
  mounted = true;
  disk_mounted = true;
  files = some_files;
  disk_entries = record { name = codes "log/x"; offset = 1000; size = 700; kind = 1 } ∷ [];
}

counting-Holds : Holds counting_device counting
unfolding block_root_read
counting-Holds = record { same = λ lba blocks tmp e i b. ground arith }

list_root : vfs_readdir tree 0 ≡ some (directory (codes "bin"))
unfolding vfs_readdir_path on_disk disk_path str_eq_local str_prefix_eq list_children is_new
    is_duplicate direct_child starts_with_dir rel_to child_of child_len copy_name copy_name_len
    drop_one_slash
list_root = refl

list_root_end : vfs_readdir tree 2 ≡ some (directory (codes "disk"))
unfolding vfs_readdir_path on_disk disk_path str_eq_local str_prefix_eq list_children is_new
    is_duplicate direct_child starts_with_dir rel_to child_of child_len copy_name copy_name_len
    drop_one_slash
list_root_end = refl

stat_log : vfs_stat tree (codes "/disk/log") ≡ some (directory (codes "log"))
unfolding vfs_stat on_disk disk_path str_eq_local str_prefix_eq stat_disk disk_lookup
    find_disk_entry drop_one_slash disk_has_children any_below copy_name
stat_log = refl

vfs_readdir_path_lem_example :
    vfs_readdir_path tree (codes "/bin") 1 ≡ get_elem? (listing tree (codes "/bin")) 1
vfs_readdir_path_lem_example = vfs_readdir_path_lem tree (codes "/bin") 1 refl

readdir_names_differ_example : ¬ (◌≡◌ {A = List ℕ} (codes "sh") (codes "cat"))
unfolding vfs_readdir_path on_disk disk_path str_eq_local str_prefix_eq list_children is_new
    is_duplicate direct_child starts_with_dir rel_to child_of child_len copy_name copy_name_len
    drop_one_slash
readdir_names_differ_example =
    readdir_names_differ tree (codes "/bin") 0 1 (record { name = codes "sh"; kind = 1; size = 10 })
      (record { name = codes "cat"; kind = 1; size = 20 }) refl (inl (omega arith)) (omega arith)
      refl refl

motd_first :
    vfs_read_file_at counting_device (λ n. true) counting tree (codes "/motd") 1 2
    ≡ some (1 ∷ 2 ∷ [])
unfolding vfs_read_file_at on_disk disk_path str_eq_local str_prefix_eq lookup_raw find_file
    drop_one_slash bytes_at
motd_first = refl

motd_second :
    vfs_read_file_at counting_device (λ n. true) counting tree (codes "/motd") 3 4
    ≡ some (3 ∷ 4 ∷ 5 ∷ [])
unfolding vfs_read_file_at on_disk disk_path str_eq_local str_prefix_eq lookup_raw find_file
    drop_one_slash bytes_at
motd_second = refl

motd_whole :
    vfs_read_file_at counting_device (λ n. true) counting tree (codes "/motd") 1 6
    ≡ some (1 ∷ 2 ∷ 3 ∷ 4 ∷ 5 ∷ [])
unfolding vfs_read_file_at on_disk disk_path str_eq_local str_prefix_eq lookup_raw find_file
    drop_one_slash bytes_at
motd_whole = refl

motd_inside :
    (from : Memory) (start size : ℕ)
    → content counting counting tree (codes "/motd") ≡ some (from, (start, size))
    → start + size < 2 ^ 64
unfolding content on_disk disk_path str_eq_local str_prefix_eq lookup_raw find_file drop_one_slash
motd_inside from start size e = ground arith

log_inside :
    (from : Memory) (start size : ℕ)
    → content counting counting tree (codes "/disk/log/x") ≡ some (from, (start, size))
    → start + size < 2 ^ 64
unfolding content on_disk disk_path str_eq_local str_prefix_eq disk_lookup find_disk_entry
    drop_one_slash
log_inside from start size e = ground arith

abbrev first_part : List ℕ
first_part = 1 ∷ 2 ∷ []

abbrev second_part : List ℕ
second_part = 3 ∷ 4 ∷ 5 ∷ []

read-append_example : first_part ++ second_part ≡ 1 ∷ 2 ∷ 3 ∷ 4 ∷ 5 ∷ []
read-append_example =
    read-append counting_device (λ n. true) counting counting tree (codes "/motd") refl
      counting-Holds motd_inside 1 2 4 first_part second_part (1 ∷ 2 ∷ 3 ∷ 4 ∷ 5 ∷ []) (omega arith)
      motd_first motd_second motd_whole

abbrev log_path : List ℕ
log_path = codes "/disk/log/x"

vfs_read_file_at_lem_example :
    let result = vfs_read_file_at counting_device (λ n. true) counting tree log_path 500 300 in
    (content counting counting tree log_path ≡ none) × (result ≡ none)
    ⊎ (from : Memory) × (start : ℕ) × (size : ℕ) × (content counting counting tree log_path
        ≡ some (from, (start, size)))
      × ((result
            ≡ some
                (if leb size 500 then [] else bytes_at from (start + 500) (min (size - 500) 300)))
          ⊎ (on_disk tree log_path ≢ none)
            × (result ≡ none)
            × DiskFails counting_device (λ n. true) (start + 500) (min (size - 500) 300))
vfs_read_file_at_lem_example =
    vfs_read_file_at_lem counting_device (λ n. true) counting counting tree log_path 500 300 refl
      counting-Holds (omega arith) log_inside

log_stat : vfs_stat tree log_path ≡ some (record { name = codes "log/x"; kind = 1; size = 700 })
unfolding vfs_stat on_disk disk_path str_eq_local str_prefix_eq stat_disk disk_lookup
    find_disk_entry drop_one_slash copy_name
log_stat = refl

read-stat_example :
    ((bytes : List ℕ) × (vfs_read_file counting_device (λ n. true) counting tree log_path 700
        ≡ some bytes)
      × (length bytes ≡ 700))
    ⊎ (from : Memory) × (start : ℕ) × (content counting counting tree log_path
        ≡ some (from, (start, 700)))
      × (on_disk tree log_path ≢ none)
      × (vfs_read_file counting_device (λ n. true) counting tree log_path 700 ≡ none)
      × DiskFails counting_device (λ n. true) start 700
read-stat_example =
    read-stat counting_device (λ n. true) counting counting tree log_path refl counting-Holds
      log_inside (record { name = codes "log/x"; kind = 1; size = 700 }) log_stat refl (omega arith)
