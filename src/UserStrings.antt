-- ===== src/UserStrings.antt =====
-- The copies between the kernel and a process in kernel/syscall.c: copy_from_user, copy_to_user and
-- the strings of a process. `root` is in CR3.
pub mod Copy
pub mod Byte
pub mod Store
pub mod Sample
mod Tests
use ore_os.Base.{
  List, Option, [], add64, if◌then◌else◌, length, none, not, some, suc, update, zero, ℕ, ◌%◌, ◌*◌,
  ◌+◌, ◌-◌, ◌/◌, ◌==◌, ◌^◌, ◌∷◌,
}
use ore_os.Vmm.{Vmm, vmm_virt_to_phys_in}
use ore_os.UserMemory.{SysResult, einval, failed, user_range_ok, value}

abbrev pub efault : ℕ
efault = 14

-- What the processor loads from a virtual address.
pub user_byte : (root : ℕ) → Vmm → (v : ℕ) → ℕ
user_byte root s v = s.pmm.memory (vmm_virt_to_phys_in root v s)

-- The loop of copy_from_user.
pub load_bytes : (root : ℕ) → Vmm → (src len : ℕ) → List ℕ
load_bytes root s src zero = []
load_bytes root s src (suc n) = user_byte root s src ∷ load_bytes root s (src + 1) n

-- A word with its byte `k` set.
pub set_byte : (word k b : ℕ) → ℕ
set_byte word k b = word / 256 ^ (k + 1) * 256 ^ (k + 1) + b * 256 ^ k + word % 256 ^ k

-- What the processor stores at an address in memory, which may be in a table of pages.
pub store_byte : (phys b : ℕ) → Vmm → Vmm
store_byte phys b s = record s {
  pmm = record s.pmm { memory = update s.pmm.memory phys b };
  words = let word = phys / 8 * 8 in update s.words word (set_byte (s.words word) (phys % 8) b);
}

-- The loop of copy_to_user.
pub store_bytes : (root : ℕ) → (dst : ℕ) → List ℕ → Vmm → Vmm
store_bytes root dst [] s = s
store_bytes root dst (b ∷ bs) s =
    store_bytes root (dst + 1) bs (store_byte (vmm_virt_to_phys_in root dst s) b s)

-- copy_from_user: the bytes that it copies, or `none` for -ORE_EFAULT.
pub copy_from_user : (root : ℕ) → Vmm → (src len : ℕ) → Option (List ℕ)
copy_from_user root s src len =
    if len == 0
    then some []
    else if not (user_range_ok root s src len)
    then none
    else some (load_bytes root s src len)

-- copy_to_user of the bytes given; `none` is -ORE_EFAULT.
pub copy_to_user : (root : ℕ) → (dst : ℕ) → List ℕ → Vmm → Option Vmm
copy_to_user root dst bytes s =
    if length bytes == 0
    then some s
    else if not (user_range_ok root s dst (length bytes))
    then none
    else some (store_bytes root dst bytes s)

-- The loop of strlen_user, `rounds` before `max`.
pub strlen_loop : (root : ℕ) → Vmm → (ptr rounds i : ℕ) → SysResult
strlen_loop root s ptr zero i = failed einval
strlen_loop root s ptr (suc n) i =
    let rest = strlen_loop root s ptr n (i + 1) in
    if not (user_range_ok root s (add64 ptr i) 1)
    then failed efault
    else if user_byte root s (add64 ptr i) == 0
    then value i
    else rest

-- strlen_user: `value` with `*out_len`, or the error.
pub strlen_user : (root : ℕ) → Vmm → (ptr max : ℕ) → SysResult
strlen_user root s ptr max = strlen_loop root s ptr max 0

-- The string in a buffer with these bytes.
pub c_string : List ℕ → List ℕ
c_string [] = []
c_string (b ∷ bs) = let rest = c_string bs in if b == 0 then [] else b ∷ rest

pub data StringResult : Type 0 where
  refused : (errno : ℕ) → StringResult
  string : (chars : List ℕ) → StringResult

-- strlen_user and copy_from_user of the string with its NUL, as copy_user_string_optional and the
-- calls with a path have them.
pub user_string : (root : ℕ) → Vmm → (ptr max : ℕ) → StringResult
user_string root s ptr max = elim (strlen_user root s ptr max) [
  | failed errno ↦ refused errno
  | value len ↦ elim (copy_from_user root s ptr (len + 1)) [
    | none ↦ refused efault
    | some bytes ↦ string (c_string bytes)
  ]
]

-- copy_user_string_optional to a buffer that is not NULL: the string in it.
pub copy_user_string_optional : (root : ℕ) → Vmm → (user_ptr max : ℕ) → StringResult
copy_user_string_optional root s user_ptr max =
    if max == 0
    then refused einval
    else if user_ptr == 0
    then string []
    else user_string root s user_ptr (max - 1)
