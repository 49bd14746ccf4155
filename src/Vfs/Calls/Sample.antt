-- ===== src/Vfs/Calls/Sample.antt =====
-- A file system with one file of the initramfs, for tests.
use ore_os.Base.{Memory, [], codes, false, none, refl, some, true, ◌∷◌, ◌≡◌}
use ore_os.Vfs.{Vfs, VfsStat, copy_name, drop_one_slash, find_file, lookup_raw, str_eq_local}
use ore_os.Vfs.Calls.{bytes_at, on_disk, stat_initramfs, vfs_read_file, vfs_read_file_at, vfs_stat}

-- The file "hi" has the two bytes from 0x5000 on.
abbrev pub one_file : Vfs
one_file = record {
  mounted = true;
  disk_mounted = false;
  files = record { name = codes "hi"; data_at = 0x5000; size = 2; kind = 1 } ∷ [];
  disk_entries = [];
}

abbrev pub one_file_stat : VfsStat
one_file_stat = record { name = codes "hi"; kind = 1; size = 2 }

pub one_file_found : vfs_stat one_file (codes "hi") ≡ some one_file_stat
unfolding vfs_stat str_eq_local stat_initramfs lookup_raw find_file on_disk drop_one_slash copy_name
one_file_found = refl

pub one_file_read :
    (m : Memory)
    → vfs_read_file none (λ n. false) m one_file (codes "hi") 2 ≡ some (m 0x5000 ∷ m 0x5001 ∷ [])
unfolding vfs_read_file_at str_eq_local lookup_raw find_file on_disk drop_one_slash bytes_at
one_file_read m = refl
