-- ===== src/Files/Read.antt =====
-- A file that a process opens, reads and closes by the calls of kernel/syscall.c.
use ore_os.Files.Open.{sys_open_lem}
use ore_os.Base.{
  Bool, Bool-cases, List, Option, Option-cases, add64, ap, arith, inl, inr, length, none, some, sym,
  true, ℕ, ◌+◌, ◌<◌, ◌==◌, ◌^◌, ◌∙◌, ◌≡◌, ◌≢◌, ◌≤◌, ◌⊎◌,
}
use ore_os.Block.{BlockDevice}
use ore_os.Vmm.{Vmm}
use ore_os.Vfs.{Vfs, VfsStat, vfs_file}
use ore_os.Vfs.Calls.{vfs_read_file, vfs_read_file_at, vfs_stat}
use ore_os.Vfs.Calls.Read.{length-vfs_read_file_at}
use ore_os.Process.{Process}
use ore_os.UserMemory.{failed, user_range_ok, value}
use ore_os.UserStrings.{store_bytes, string, user_string}
use ore_os.Files.{ebadf, max_handles, set_handle, sys_close, sys_file_read, sys_open}

-- The handle of a file that is open at an offset.
unfoldable pub IsOpen : Process → (i : ℕ) → (path : List ℕ) → (offset : ℕ) → Type 0
IsOpen p i path offset =
    (i < max_handles)
    × ((p.handles i).kind ≡ vfs_file)
    × ((p.handles i).path ≡ path)
    × ((p.handles i).offset ≡ offset)

-- All handles but one are the same.
unfoldable pub OthersKept : (p q : Process) → (i : ℕ) → Type 0
OthersKept p q i = (k : ℕ) → k ≢ i → q.handles k ≡ p.handles k

-- When ORE_SYS_OPEN of a file gives a handle, it is open at the offset 0, was free before, and all
-- others are as before.
sys_open-IsOpen :
    (root : ℕ) (s : Vmm) (fs : Vfs) (a1 i : ℕ) (p q : Process) (path : List ℕ) (st : VfsStat)
    → a1 < 2 ^ 64
    → user_string root s a1 127 ≡ string path
    → vfs_stat fs path ≡ some st
    → st.kind ≡ vfs_file
    → sys_open root s fs a1 p ≡ (value i, q)
    → IsOpen q i path 0 × OthersKept p q i × ((p.handles i).kind ≡ 0)
unfolding IsOpen OthersKept
sys_open-IsOpen root s fs a1 i p q path st small named found file e =
    elim (sys_open_lem root s fs a1 p small) [
      | inl (errno, other, f) ↦ absurd (ground (arith, named, other))
      | inr (path', named', inl (absent, f)) ↦ absurd (ground (arith, e, f))
      | inr (path', named', inr (inl (there, full, f))) ↦ absurd (ground (arith, e, f))
      | inr (path', named', inr (inr (st', j, found', from, below, free, before, f))) ↦
          let same_path : path' ≡ path = ground (arith, named, named') in
          let same_stat : st' ≡ st = ground (arith, found', found, same_path) in
          let same : j ≡ i = ground (arith, e, f) in
          let next : q
              ≡ set_handle j (record (p.handles j) { kind = st'.kind; offset = 0; path = path' })
                  p =
            ground (arith, e, f) in
          let inside : i < max_handles = rw same at below in
          let free' : (p.handles i).kind ≡ 0 = rw same at free in
          rw next (
            (
              inside,
              ground (arith, same, same_stat, file),
              ground (arith, same, same_path),
              ground (arith, same),
            ),
            (λ k away. ground (arith, same, away)),
            free',
          )
    ]

-- For a handle that is open at an offset and a buffer that user_range_ok lets pass, ORE_SYS_FILE_READ
-- gives the number of bytes that vfs_read_file_at reads from there, stores exactly these in the buffer,
-- and leaves the handle open behind them and all others as they are; where vfs_read_file_at fails, it
-- gives -1 and changes nothing.
pub sys_file_read_lem :
    (root : ℕ) (dev : Option BlockDevice) (can_alloc : ℕ → Bool) (fs : Vfs) (i buf n : ℕ)
    (p : Process) (s : Vmm) (path : List ℕ) (offset : ℕ)
    → IsOpen p i path offset
    → offset + n < 2 ^ 64
    → user_range_ok root s buf n ≡ true
    → let result = sys_file_read root dev can_alloc fs i buf n p s in
      (vfs_read_file_at dev can_alloc s.pmm.memory fs path offset n ≡ none)
        × (result ≡ (failed 1, (p, s)))
      ⊎ (bytes : List ℕ) × (q : Process) × (vfs_read_file_at dev can_alloc s.pmm.memory fs path
            offset n
          ≡ some bytes)
        × (length bytes ≤ n)
        × (result ≡ (value (length bytes), (q, store_bytes root buf bytes s)))
        × IsOpen q i path (offset + length bytes)
        × OthersKept p q i
unfolding sys_file_read IsOpen OthersKept
sys_file_read_lem root dev can_alloc fs i buf n p s path offset opened small ok =
    let (below, file, named, at) = opened in
    let m = s.pmm.memory in
    elim (Option-cases (vfs_read_file_at dev can_alloc m fs path offset n)) [
      | inl fails ↦ inl (fails, ground (arith, below, file, named, at, ok, fails))
      | inr (bytes, e) ↦
          let fits = length-vfs_read_file_at dev can_alloc m fs path offset n bytes e in
          let next = record (p.handles i) {
            offset = add64 ((p.handles i).offset) (length bytes);
          } in
          inr (
            bytes,
            set_handle i next p,
            e,
            fits,
            ground (arith, below, file, named, at, ok, e),
            (below, ground (arith, file), ground (arith, named), ground (arith, at, fits)),
            λ k away. ground (arith, away),
          )
    ]

-- ORE_SYS_CLOSE of an open handle gives 0, makes the handle free, so that it may be given again, and
-- keeps all others; of a free one it gives EBADF and changes nothing.
pub sys_close_lem :
    (i : ℕ) (p : Process) (path : List ℕ) (offset : ℕ)
    → IsOpen p i path offset
    → let (result, q) = sys_close i p in
      (result ≡ value 0)
      × ((q.handles i).kind ≡ 0)
      × OthersKept p q i
      × (sys_close i q ≡ (failed ebadf, q))
unfolding sys_close IsOpen OthersKept
sys_close_lem i p path offset opened =
    let (below, file, named, at) = opened in
    (
      ground (arith, below, file),
      ground (arith, below, file),
      (λ k away. ground (arith, below, file, away)),
      ground (arith, below, file),
    )

-- A process, with a path of 64 bits that names a file, opens it, reads it into a buffer that
-- user_range_ok lets pass, and closes it. When the open gives a handle and the file can be read, the
-- read gives the bytes that vfs_read_file gives, stored in the buffer, the close gives 0, and
-- afterwards the same handles are in use, for the same kinds, as before the open.
pub open_read_close :
    (root : ℕ) (dev : Option BlockDevice) (can_alloc : ℕ → Bool) (s : Vmm) (fs : Vfs)
    (a1 i buf n : ℕ) (p q : Process) (path bytes : List ℕ) (st : VfsStat)
    → a1 < 2 ^ 64
    → n < 2 ^ 64
    → user_string root s a1 127 ≡ string path
    → vfs_stat fs path ≡ some st
    → st.kind ≡ vfs_file
    → sys_open root s fs a1 p ≡ (value i, q)
    → user_range_ok root s buf n ≡ true
    → vfs_read_file dev can_alloc s.pmm.memory fs path n ≡ some bytes
    → (r : Process) × (sys_file_read root dev can_alloc fs i buf n q s
        ≡ (value (length bytes), (r, store_bytes root buf bytes s)))
      × (let (result, last) = sys_close i r in
          (result ≡ value 0) × ((k : ℕ) → (last.handles k).kind ≡ (p.handles k).kind))
unfolding OthersKept
open_read_close root dev can_alloc s fs a1 i buf n p q path bytes st small fits named found file e
      ok read =
    let (opened, kept, free) =
      sys_open-IsOpen root s fs a1 i p q path st small named found file e in
    elim (sys_file_read_lem root dev can_alloc fs i buf n q s path 0 opened (omega arith) ok) [
      | inl (fails, f) ↦ absurd (ground (arith, fails, read))
      | inr (bytes', r, read', short, f, still, kept') ↦
          let same : bytes' ≡ bytes = ground (arith, read, read') in
          let (closed, zero_kind, kept'', again) =
            sys_close_lem i r path (0 + length bytes') still in
          (
            r,
            rw (sym same) f,
            (
              closed,
              λ k. elim (Bool-cases (k == i)) [
                | inl here ↦ let at : k ≡ i = ground arith in rw at (zero_kind ∙ sym free)
                | inr there ↦
                    let away : k ≢ i = ground arith in
                    ap (λ h. h.kind) (kept'' k away ∙ kept' k away ∙ kept k away)
              ],
            ),
          )
    ]
