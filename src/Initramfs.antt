-- ===== src/Initramfs.antt =====
-- kernel/initramfs.c: the list of files of a tar archive in memory, and the search by name. A string
-- in the archive is its address; a path that is looked up is the list of its characters, none of them
-- NUL.
pub mod Files
pub mod Lookup
mod Tests
use ore_os.Base.{
  Bool, List, Memory, Option, [], add64, false, get_elem?, if◌then◌else◌, leb, none, not, some, suc,
  true, zero, ℕ, ◌&&◌, ◌*◌, ◌+◌, ◌-◌, ◌/◌, ◌==◌, ◌||◌, ◌∷◌,
}
use ore_os.Boot.{BootInfo}

abbrev pub tar_block : ℕ
tar_block = 512

abbrev pub max_files : ℕ
max_files = 64

pub record InitramfsFile : Type 0 where
  pub name : ℕ
  pub data_at : ℕ
  pub size : ℕ
  pub kind : ℕ

-- str_eq of the string at `a` and a path.
pub str_eq : Memory → ℕ → List ℕ → Bool
str_eq m a [] = m a == 0
str_eq m a (c ∷ cs) = let rest = str_eq m (a + 1) cs in if m a == c then rest else false

-- The loop of parse_octal over `n` characters from `s` on, with the value so far.
pub octal_from : Memory → (n s value : ℕ) → ℕ
octal_from m zero s value = value
octal_from m (suc n) s value =
    let digit = leb b'0' (m s) && leb (m s) b'7' in
    octal_from m n (s + 1) (if digit then add64 (value * 8) (m s - b'0') else value)

pub parse_octal : Memory → (s n : ℕ) → ℕ
unfolding octal_from
parse_octal m s n = octal_from m n s 0

-- `n` bytes from `p` on are 0.
pub zeros : Memory → (n p : ℕ) → Bool
zeros m zero p = true
zeros m (suc n) p = let rest = zeros m n (p + 1) in if m p == 0 then rest else false

pub block_empty : Memory → ℕ → Bool
unfolding zeros
block_empty m p = zeros m tar_block p

-- `((size + TAR_BLOCK - 1) / TAR_BLOCK) * TAR_BLOCK`
pub padded : ℕ → ℕ
padded size = (size + tar_block - 1) / tar_block * tar_block

-- The size field of the header.
pub header_file_size : Memory → ℕ → ℕ
unfolding parse_octal
header_file_size m hdr = parse_octal m (hdr + 124) 12

-- The header names a file that is no directory.
pub is_file : Memory → ℕ → Bool
is_file m hdr = not (m hdr == 0) && not (m (hdr + 156) == b'5')

pub file_of : Memory → ℕ → InitramfsFile
unfolding header_file_size
file_of m hdr = record {
  name = hdr;
  data_at = hdr + tar_block;
  size = header_file_size m hdr;
  kind = 1;
}

-- The loop of initramfs_init, for an archive of less than 2^63 bytes, so that no sum wraps, and for at most `rounds` headers from the offset `off` on, with room for
-- `room` files.
pub files_from : Memory → (base archive_size rounds off room : ℕ) → List InitramfsFile
unfolding block_empty is_file file_of header_file_size padded
files_from m base archive_size zero off room = []
files_from m base archive_size (suc n) off room =
    let hdr = base + off in
    let file = is_file m hdr in
    let next = off + tar_block + padded (header_file_size m hdr) in
    let rest = files_from m base archive_size n next (if file then room - 1 else room) in
    if not (leb (off + tar_block) archive_size) || room == 0
    then []
    else if block_empty m hdr
    then []
    else if file
    then file_of m hdr ∷ rest
    else rest

-- Rounds that are enough: each takes a block of the archive.
abbrev pub enough : ℕ → ℕ
enough archive_size = archive_size / tar_block + 1

-- initramfs_init
pub initramfs_init : Memory → BootInfo → List InitramfsFile
unfolding files_from
initramfs_init m boot_info =
    let base = boot_info.initramfs_base in
    let size = boot_info.initramfs_size in
    if base == 0 || size == 0 then [] else files_from m base size (enough size) 0 max_files

-- initramfs_file
abbrev pub initramfs_file : List InitramfsFile → ℕ → Option InitramfsFile
initramfs_file files index = get_elem? files index

pub find_name : Memory → List ℕ → List InitramfsFile → Option InitramfsFile
unfolding str_eq
find_name m p [] = none
find_name m p (f ∷ fs) = let rest = find_name m p fs in if str_eq m f.name p then some f else rest

-- `if (p[0] == '/') p++`
pub drop_slash : List ℕ → List ℕ
drop_slash [] = []
drop_slash (c ∷ cs) = if c == b'/' then cs else c ∷ cs

pub initramfs_lookup_raw : Memory → List InitramfsFile → List ℕ → Option InitramfsFile
unfolding find_name drop_slash
initramfs_lookup_raw m files path = find_name m (drop_slash path) files
