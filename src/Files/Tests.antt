-- ===== src/Files/Tests.antt =====
-- The calls on files of a process whose page holds the path "hi".
use ore_os.Base.{
  Bool, List, arith, codes, false, length, none, refl, some, ℕ, ◌+◌, ◌<◌, ◌≡◌, ◌≢◌, ◌≤◌, ◌⊎◌,
}
use ore_os.Vmm.Sample.{root_page}
use ore_os.Vmm.Mapped.{one_page, one_page_translation}
use ore_os.Vfs.{VfsStat}
use ore_os.Vfs.Calls.{vfs_read_file_at, vfs_stat}
use ore_os.Vfs.Calls.Sample.{one_file, one_file_found, one_file_read, one_file_stat}
use ore_os.Process.{Process, zero_process}
use ore_os.UserMemory.{einval, failed, pages_ok, user_range_ok, value}
use ore_os.UserStrings.Sample.{one_page_string}
use ore_os.UserStrings.{refused, store_bytes, string, user_string}
use ore_os.Files.{
  copy_string, enoent, free_handle, max_handles, set_handle, sys_close, sys_file_read, sys_open,
}
use ore_os.Files.Open.{sys_open_lem}
use ore_os.Files.Read.{IsOpen, OthersKept, open_read_close, sys_file_read_lem}

abbrev reader : Process
reader = set_handle 1 (record { kind = 1; offset = 1; flags = 0; path = codes "hi" }) zero_process

sys_open_lem_example :
    let result = sys_open root_page one_page one_file 0x8000000000 reader in
    ((errno : ℕ) × (user_string root_page one_page 0x8000000000 127 ≡ refused errno)
      × (result ≡ (failed errno, reader)))
    ⊎ (path : List ℕ) × (user_string root_page one_page 0x8000000000 127 ≡ string path)
      × ((vfs_stat one_file path ≡ none) × (result ≡ (failed enoent, reader))
          ⊎ (vfs_stat one_file path ≢ none)
            × ((k : ℕ) → 1 ≤ k → k < max_handles → (reader.handles k).kind ≢ 0)
            × (result ≡ (failed einval, reader))
          ⊎ (st : VfsStat) × (i : ℕ) × (vfs_stat one_file path ≡ some st)
            × (1 ≤ i)
            × (i < max_handles)
            × ((reader.handles i).kind ≡ 0)
            × ((k : ℕ) → 1 ≤ k → k < i → (reader.handles k).kind ≢ 0)
            × (result ≡ (
              value i,
              set_handle i
                  (record (reader.handles i) { kind = st.kind; offset = 0; path = path })
                  reader,
            )))
sys_open_lem_example = sys_open_lem root_page one_page one_file 0x8000000000 reader (omega arith)

reader-IsOpen : IsOpen reader 1 (codes "hi") 1
unfolding IsOpen
reader-IsOpen = (omega arith, refl, refl, refl)

abbrev no_room : ℕ → Bool
no_room n = false

sys_file_read_lem_test :
    let result = sys_file_read root_page none no_room one_file 1 0x8000000800 1 reader one_page in
    let read = vfs_read_file_at none no_room one_page.pmm.memory one_file (codes "hi") 1 1 in
    (read ≡ none) × (result ≡ (failed 1, (reader, one_page)))
    ⊎ (bytes : List ℕ) × (q : Process) × (read ≡ some bytes)
      × (length bytes ≤ 1)
      × (result ≡ (value (length bytes), (q, store_bytes root_page 0x8000000800 bytes one_page)))
      × IsOpen q 1 (codes "hi") (1 + length bytes)
      × OthersKept reader q 1
unfolding user_range_ok pages_ok
sys_file_read_lem_test =
    sys_file_read_lem root_page none no_room one_file 1 0x8000000800 1 reader one_page (codes "hi")
      1 reader-IsOpen (omega arith)
      (let there = one_page_translation 0x800 (omega arith) in ground (arith, there))

abbrev opened : Process
opened =
    set_handle 1 (record (zero_process.handles 1) { kind = 1; offset = 0; path = codes "hi" })
      zero_process

one_file_open : sys_open root_page one_page one_file 0x8000000000 zero_process ≡ (value 1, opened)
unfolding sys_open free_handle copy_string
one_file_open = ground (arith, one_page_string, one_file_found)

open_read_close_example :
    (r : Process) × (sys_file_read root_page none no_room one_file 1 0x8000000800 2 opened one_page
      ≡ (value 2, (r, store_bytes root_page 0x8000000800 (codes "hi") one_page)))
    × (let (result, last) = sys_close 1 r in
        (result ≡ value 0) × ((k : ℕ) → (last.handles k).kind ≡ (zero_process.handles k).kind))
unfolding user_range_ok pages_ok
open_read_close_example =
    open_read_close root_page none no_room one_page one_file 0x8000000000 1 0x8000000800 2
      zero_process opened (codes "hi") (codes "hi") one_file_stat (omega arith) (omega arith)
      one_page_string one_file_found refl one_file_open
      (let first = one_page_translation 0x800 (omega arith) in
        let last = one_page_translation 0x801 (omega arith) in ground (arith, first, last))
      (one_file_read one_page.pmm.memory)
