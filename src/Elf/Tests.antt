-- ===== src/Elf/Tests.antt =====
-- kernel/elf.c at an image of 200 bytes with one segment to load.
use mathlib.Core.Path.{◌≡◌, refl}
use ore_os.Base.{
  Bool, Memory, Option, [], arith, false, if◌then◌else◌, none, read_le, refl, some, true, ◌+◌, ◌==◌,
  ◌↔◌, ◌≡◌, ◌≤◌,
}
use ore_os.Elf.{Phdr, UserElfInfo, elf_probe_user_image, segment_ok}
use ore_os.Elf.Probe.{Probed, elf_probe_user_image_lem, segment_ok_wraps}

-- One program header at 64; the segment takes the bytes from 120 on, 80 of them, and 96 in memory.
abbrev image : Memory
image a =
    if a == 0
    then 0x7f
    else if a == 1
    then 69
    else if a == 2
    then 76
    else if a == 3
    then 70
    else if a == 4
    then 2
    else if a == 5
    then 1
    else if a == 16
    then 2
    else if a == 18
    then 62
    else if a == 28
    then 0x80
    else if a == 32
    then 64
    else if a == 54
    then 56
    else if a == 56
    then 1
    else if a == 64
    then 1
    else if a == 68
    then 5
    else if a == 72
    then 120
    else if a == 84
    then 0x80
    else if a == 96
    then 80
    else if a == 104
    then 96
    else 0

abbrev probed : Option UserElfInfo
probed = elf_probe_user_image (some image) 200

abbrev get : Option UserElfInfo → UserElfInfo
get none = record { entry = 0; image_size = 0; segments = [] }
get (some info) = info

abbrev is_some : Option UserElfInfo → Bool
is_some none = false
is_some (some info) = true

get_lem : (o : Option UserElfInfo) → is_some o ≡ true → o ≡ some (get o)
get_lem o h = ground arith

probed_some : is_some probed ≡ true
unfolding elf_probe_user_image read_le
probed_some = refl

elf_probe_user_image_lem_example :
    (elf_probe_user_image (some image) 200 ≡ some (get probed)) ↔ Probed image 200 (get probed)
elf_probe_user_image_lem_example = elf_probe_user_image_lem image 200 (get probed)

image-Probed : Probed image 200 (get probed)
image-Probed = (elf_probe_user_image_lem image 200 (get probed)).0 (get_lem probed probed_some)

-- A header whose file part begins behind the image and whose length wraps the sum round to 100.
abbrev far : Phdr
far = record {
  p_type = 1;
  p_flags = 5;
  p_offset = 0xffffffffffffffe4;
  p_vaddr = 0x8000000000;
  p_filesz = 128;
  p_memsz = 128;
}

segment_ok_wraps_test : (segment_ok 200 far ≡ true) × ¬ (far.p_offset + far.p_filesz ≤ 200)
segment_ok_wraps_test =
    segment_ok_wraps 200 far (omega arith) (omega arith) (omega arith) (omega arith) (omega arith)
      (omega arith)
