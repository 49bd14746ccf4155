-- ===== src/Vfs/Disk/Tests.antt =====
-- mount_disk of kernel/vfs.c on a disk with one file.
use ore_os.Base.{
  Memory, Option, [], arith, codes, false, if◌then◌else◌, read32, read_le, refl, some, true, ◌*◌,
  ◌+◌, ◌==◌, ◌∷◌, ◌≡◌, ◌≤◌,
}
use ore_os.Block.{BlockDevice, Holds, block_root_read}
use ore_os.Vfs.{Vfs}
use ore_os.Vfs.Disk.{magic_ok, mount_disk, read_entries, read_entry, read_table, string_at}
use ore_os.Vfs.Disk.Table.{mount_disk_lem}

-- The first block names the file system and one file.
abbrev one_file_disk : Memory
one_file_disk a =
    if a == 0
    then b'O'
    else if a == 1
    then b'R'
    else if a == 2
    then b'E'
    else if a == 3
    then b'F'
    else if a == 4
    then b'S'
    else if a == 5
    then b'1'
    else if a == 12
    then 1
    else if a == 512
    then b'x'
    else if a == 609
    then 4
    else if a == 616
    then 9
    else if a == 624
    then 1
    else 0

abbrev one_file_device : Option BlockDevice
one_file_device = some (record {
  block_size = 512;
  block_count = 64;
  read = λ lba blocks. some (λ i. one_file_disk (512 * lba + i));
})

one_file-Holds : Holds one_file_device one_file_disk
unfolding block_root_read
one_file-Holds = record { same = λ lba blocks tmp e i b. ground arith }

abbrev empty_tree : Vfs
empty_tree = record { mounted = true; disk_mounted = false; files = []; disk_entries = [] }

abbrev mounted_tree : Vfs
mounted_tree = record empty_tree {
  disk_mounted = true;
  disk_entries = record { name = codes "x"; offset = 1024; size = 9; kind = 1 } ∷ [];
}

mounts : mount_disk one_file_device (λ n. true) empty_tree ≡ some mounted_tree
unfolding mount_disk read_table block_root_read magic_ok read_entries read_entry string_at read_le
mounts = refl

mount_disk_lem_example :
    (magic_ok one_file_disk ≡ true)
    × (read32 one_file_disk 12 ≤ 128)
    × (mounted_tree ≡ record empty_tree {
      disk_mounted = true;
      disk_entries = read_entries one_file_disk (read32 one_file_disk 12) 512;
    })
mount_disk_lem_example =
    mount_disk_lem one_file_device (λ n. true) one_file_disk empty_tree mounted_tree one_file-Holds
      mounts
