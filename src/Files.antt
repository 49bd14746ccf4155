-- ===== src/Files.antt =====
-- The calls of kernel/syscall.c on open files. The process is the current one, or the kernel's if there
-- is none; `root` is its table of pages, in CR3.
pub mod Open
pub mod Read
mod Tests
use ore_os.Base.{
  Bool, List, Option, [], add64, if◌then◌else◌, leb, length, none, not, some, suc, take, update,
  zero, ℕ, ◌+◌, ◌-◌, ◌==◌, ◌||◌,
}
use ore_os.Block.{BlockDevice}
use ore_os.Vmm.{Vmm}
use ore_os.Vfs.{Vfs, vfs_file}
use ore_os.Vfs.Calls.{vfs_read_file_at, vfs_stat}
use ore_os.Process.{Handle, Process}
use ore_os.UserMemory.{SysResult, einval, failed, user_range_ok, value}
use ore_os.UserStrings.{efault, refused, store_bytes, string, user_string}

abbrev pub enoent : ℕ
enoent = 2

abbrev pub ebadf : ℕ
ebadf = 9

abbrev pub max_handles : ℕ
max_handles = 64

-- copy_string to a buffer of `max` bytes, not 0.
pub copy_string : List ℕ → (max : ℕ) → List ℕ
copy_string src max = take (max - 1) src

-- `for (i = 1; i < ORE_MAX_HANDLES; ++i)` up to the first handle that is free.
pub free_handle : (ℕ → Handle) → (rounds i : ℕ) → Option ℕ
free_handle handles zero i = none
free_handle handles (suc n) i =
    let rest = free_handle handles n (i + 1) in if (handles i).kind == 0 then some i else rest

abbrev pub set_handle : (index : ℕ) → Handle → Process → Process
set_handle index h p = record p { handles = update p.handles index h }

-- ORE_SYS_OPEN
pub sys_open : (root : ℕ) → Vmm → Vfs → (a1 : ℕ) → Process → SysResult × Process
sys_open root s fs a1 p = elim (user_string root s a1 127) [
  | refused errno ↦ (failed errno, p)
  | string path ↦ elim (vfs_stat fs path) [
    | none ↦ (failed enoent, p)
    | some st ↦ elim (free_handle p.handles (max_handles - 1) 1) [
      | none ↦ (failed einval, p)
      | some i ↦ (
        value i,
        set_handle i
            (record (p.handles i) { kind = st.kind; offset = 0; path = copy_string path 128 }) p,
      )
    ]
  ]
]

-- ORE_SYS_CLOSE
pub sys_close : (a1 : ℕ) → Process → SysResult × Process
sys_close a1 p =
    if leb max_handles a1 || (p.handles a1).kind == 0
    then (failed ebadf, p)
    else (value 0, set_handle a1 (record (p.handles a1) { kind = 0; offset = 0; path = [] }) p)

-- ORE_SYS_FILE_READ. The bytes are read before the first is stored: no frame of the buffer holds the
-- file.
pub sys_file_read :
    (root : ℕ)
    → Option BlockDevice
    → (can_alloc : ℕ → Bool) → Vfs
    → (a1 a2 a3 : ℕ) → Process
    → Vmm
    → SysResult × (Process × Vmm)
sys_file_read root dev can_alloc fs a1 a2 a3 p s =
    let h = p.handles a1 in
    if leb max_handles a1 || not (h.kind == vfs_file)
    then (failed ebadf, (p, s))
    else if not (user_range_ok root s a2 a3)
    then (failed efault, (p, s))
    else elim (vfs_read_file_at dev can_alloc s.pmm.memory fs h.path h.offset a3) [
      | none ↦ (failed 1, (p, s))
      | some bytes ↦ (
        value (length bytes),
        (
          set_handle a1 (record h { offset = add64 h.offset (length bytes) }) p,
          store_bytes root a2 bytes s,
        ),
      )
    ]
