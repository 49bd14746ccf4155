-- ===== src/Elf.antt =====
-- kernel/elf.c: the checks on an ELF image and the list of its segments. An image is memory from
-- address 0 on; a null pointer is `none`.
pub mod Segments
pub mod Probe
mod Tests
use ore_os.Base.{
  Bool, List, Memory, Option, [], add64, false, if◌then◌else◌, leb, length, ltb, none, not, read16,
  read32, read64, some, suc, zero, ℕ, ◌&&◌, ◌*◌, ◌++◌, ◌+◌, ◌==◌, ◌∷◌,
}

-- sizeof(Elf64_Ehdr), padded to eight bytes.
abbrev pub ehdr_size : ℕ
ehdr_size = 64

-- The fields of Elf64_Ehdr that are read.
abbrev pub e_type : Memory → ℕ
e_type m = read16 m 16

abbrev pub e_machine : Memory → ℕ
e_machine m = read16 m 18

abbrev pub e_entry : Memory → ℕ
e_entry m = read64 m 24

abbrev pub e_phoff : Memory → ℕ
e_phoff m = read64 m 32

abbrev pub e_phentsize : Memory → ℕ
e_phentsize m = read16 m 54

abbrev pub e_phnum : Memory → ℕ
e_phnum m = read16 m 56

-- Elf64_Phdr
pub record Phdr : Type 0 where
  pub p_type : ℕ
  pub p_flags : ℕ
  pub p_offset : ℕ
  pub p_vaddr : ℕ
  pub p_filesz : ℕ
  pub p_memsz : ℕ

pub read_phdr : Memory → ℕ → Phdr
read_phdr m a = record {
  p_type = read32 m a;
  p_flags = read32 m (a + 4);
  p_offset = read64 m (a + 8);
  p_vaddr = read64 m (a + 16);
  p_filesz = read64 m (a + 32);
  p_memsz = read64 m (a + 40);
}

pub record UserElfSegmentInfo : Type 0 where
  pub vaddr : ℕ
  pub file_offset : ℕ
  pub mem_size : ℕ
  pub file_size : ℕ
  pub flags : ℕ

-- UserElfInfo; the first `segment_count` segments are a list.
pub record UserElfInfo : Type 0 where
  pub entry : ℕ
  pub image_size : ℕ
  pub segments : List UserElfSegmentInfo

-- The identification: 0x7f, "ELF", 64 bits, little endian.
pub ident_ok : Memory → Bool
ident_ok m =
    m 0 == 0x7f && (m 1 == b'E' && (m 2 == b'L' && (m 3 == b'F' && (m 4 == 2 && m 5 == 1))))

-- elf_validate; `true` for the result 0.
pub elf_validate : Option Memory → ℕ → Bool
unfolding ident_ok
elf_validate none size = false
elf_validate (some m) size =
    not (ltb size ehdr_size)
    && (ident_ok m
        && (e_type m == 2
            && (e_machine m == 62 && leb (add64 (e_phoff m) (e_phentsize m * e_phnum m)) size)))

-- The header is not skipped.
pub loadable : Phdr → Bool
loadable ph = ph.p_type == 1 && not (ph.p_memsz == 0)

-- The file part lies in the image, as the code tests it, and is no longer than the memory part.
pub segment_ok : ℕ → Phdr → Bool
segment_ok size ph = leb (add64 ph.p_offset ph.p_filesz) size && leb ph.p_filesz ph.p_memsz

pub segment_of : Phdr → UserElfSegmentInfo
segment_of ph = record {
  vaddr = ph.p_vaddr;
  file_offset = ph.p_offset;
  mem_size = ph.p_memsz;
  file_size = ph.p_filesz;
  flags = ph.p_flags;
}

-- The loop over the program headers: `i` of them are done, `found` are the segments so far.
pub probe_loop :
    Memory → (size rounds i : ℕ) → List UserElfSegmentInfo → Option (List UserElfSegmentInfo)
unfolding loadable segment_ok segment_of read_phdr
probe_loop m size zero i found = some found
probe_loop m size (suc rounds) i found =
    let ph = read_phdr m (add64 (e_phoff m) (i * e_phentsize m)) in
    let skip = probe_loop m size rounds (i + 1) found in
    let take_it = probe_loop m size rounds (i + 1) (found ++ segment_of ph ∷ []) in
    if not (loadable ph)
    then skip
    else if not (segment_ok size ph)
    then none
    else if leb 8 (length found)
    then none
    else take_it

-- `info->segment_count ? 0 : -1`
pub finish : Memory → ℕ → List UserElfSegmentInfo → Option UserElfInfo
finish m size [] = none
finish m size (seg ∷ segs) =
    some (record { entry = e_entry m; image_size = size; segments = seg ∷ segs })

pub elf_probe_user_image : Option Memory → ℕ → Option UserElfInfo
unfolding elf_validate probe_loop finish
elf_probe_user_image none size = none
elf_probe_user_image (some m) size =
    if not (elf_validate (some m) size) then none else elim (probe_loop m size (e_phnum m) 0 []) [
      | none ↦ none
      | some found ↦ finish m size found
    ]
