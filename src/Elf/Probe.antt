-- ===== src/Elf/Probe.antt =====
-- What elf_probe_user_image of kernel/elf.c accepts.
use mathlib.Core.Path.{subst}
use ore_os.Base.{
  Bool-cases, List, Memory, Option-cases, [], add64, ap, append-nil, append_assoc, arith, false,
  inl, inr, leb, length, length-append, le→leb, map, refl, some, some_injective, suc, true, u64_mod,
  zero, ℕ, ◌%◌, ◌*◌, ◌++◌, ◌+◌, ◌<◌, ◌==◌, ◌^◌, ◌↔◌, ◌∙◌, ◌∷◌, ◌≡◌, ◌≢◌, ◌≤◌, ◌⊎◌,
}
use ore_os.Elf.{
  Phdr, UserElfInfo, UserElfSegmentInfo, e_entry, e_phentsize, e_phnum, e_phoff,
  elf_probe_user_image, elf_validate, finish, loadable, probe_loop, read_phdr, segment_of,
  segment_ok,
}
use ore_os.Elf.Segments.{AllOk, headers, loads, probe_loop-some}

-- The segments `segs` that the program headers ask for, in order: a header of another type than
-- PT_LOAD, or without a size in memory, asks for none; any other has a part of the file that is no
-- longer than its part of memory and whose end, in 64 bits, is not behind the image.
abbrev pub Reports : (size : ℕ) → List Phdr → List UserElfSegmentInfo → Type 0
Reports size [] segs = segs ≡ []
Reports size (ph ∷ phs) segs =
    ((ph.p_type ≢ 1) ⊎ (ph.p_memsz ≡ 0)) × Reports size phs segs
    ⊎ (ph.p_type ≡ 1)
      × (ph.p_memsz ≢ 0)
      × (ph.p_filesz ≤ ph.p_memsz)
      × ((ph.p_offset + ph.p_filesz) % 2 ^ 64 ≤ size)
      × ((rest : List UserElfSegmentInfo) × (segs
            ≡ record {
              vaddr = ph.p_vaddr;
              file_offset = ph.p_offset;
              mem_size = ph.p_memsz;
              file_size = ph.p_filesz;
              flags = ph.p_flags;
            }
              ∷ rest)
          × Reports size phs rest)

skipped : (ph : Phdr) → loadable ph ≡ false → (ph.p_type ≢ 1) ⊎ (ph.p_memsz ≡ 0)
unfolding loadable
skipped ph h = elim (Bool-cases (ph.p_type == 1)) [
  | inl load ↦ inr (ground arith)
  | inr other ↦ inl (ground arith)
]

loads-Reports :
    (size : ℕ) (phs : List Phdr)
    → AllOk size (loads phs)
    → Reports size phs (map segment_of (loads phs))
unfolding loads segment_of segment_ok loadable
loads-Reports size [] ok = refl
loads-Reports size (ph ∷ phs) ok = elim (Bool-cases (loadable ph)) [
  | inr skip ↦
      let ok' : AllOk size (loads phs) = rw (loads, skip) at ok in
      rw skip (inl (skipped ph skip, loads-Reports size phs ok'))
  | inl load ↦
      let ok' : AllOk size (ph ∷ loads phs) = rw (loads, load) at ok in
      let fits = ok'.0 in
      rw load (
        inr (
          ground arith,
          ground arith,
          ground arith,
          ground arith,
          (map segment_of (loads phs), refl, loads-Reports size phs ok'.1),
        ))
]

-- The loop finds the segments that the headers ask for, if there is room for them.
Reports-probe_loop :
    (m : Memory) (size rounds i : ℕ) (found segs : List UserElfSegmentInfo)
    → Reports size (headers m rounds i) segs
    → length found + length segs ≤ 8
    → probe_loop m size rounds i found ≡ some (found ++ segs)
unfolding probe_loop headers loadable segment_ok segment_of
Reports-probe_loop m size zero i found segs none_left le = rw (none_left, append-nil found) refl
Reports-probe_loop m size (suc n) i found segs (inl (skip, more)) le =
    let ph = read_phdr m (add64 (e_phoff m) (i * e_phentsize m)) in
    let no_load : loadable ph ≡ false = elim skip [
      | inl other ↦ ground arith
      | inr empty ↦ ground arith
    ] in
    rw (probe_loop, no_load) (Reports-probe_loop m size n (i + 1) found segs more le)
Reports-probe_loop m size (suc n) i found segs (inr (load, sized, part, inside, (rest, e, more)))
      le =
    let ph = read_phdr m (add64 (e_phoff m) (i * e_phentsize m)) in
    let loads_it : loadable ph ≡ true = ground arith in
    let ok : segment_ok size ph ≡ true = ground arith in
    let room : leb 8 (length found) ≡ false = (let le' = rw e at le in ground arith) in
    let next : length (found ++ segment_of ph ∷ []) + length rest ≤ 8 =
      let le' = rw e at le in omega (arith, le', length-append found (segment_of ph ∷ [])) in
    rw (probe_loop, loads_it, ok, room, e)
      (Reports-probe_loop m size n (i + 1) (found ++ segment_of ph ∷ []) rest more next
        ∙ ap some (append_assoc found (segment_of ph ∷ []) rest))

-- Whether an image is accepted, and what is reported then.
pub record Probed (m : Memory) (size : ℕ) (info : UserElfInfo) : Type 0 where
  pub valid : elf_validate (some m) size ≡ true
  pub entry : info.entry ≡ e_entry m
  pub image_size : info.image_size ≡ size
  pub segments : Reports size (headers m (e_phnum m) 0) info.segments
  pub some_segment : 1 ≤ length info.segments
  pub few : length info.segments ≤ 8

report :
    (m : Memory) (size : ℕ) (out : List UserElfSegmentInfo) (info : UserElfInfo)
    → elf_validate (some m) size ≡ true
    → Reports size (headers m (e_phnum m) 0) out
    → length out ≤ 8
    → finish m size out ≡ some info
    → Probed m size info
unfolding finish
report m size [] info ok r few e = cc
report m size (seg ∷ segs) info ok r few e = subst (Probed m size) (some_injective e) (record {
  valid = ok;
  entry = refl;
  image_size = refl;
  segments = r;
  some_segment = omega arith;
  few = few;
})

accepted :
    (m : Memory) (size : ℕ) (info : UserElfInfo)
    → elf_probe_user_image (some m) size ≡ some info
    → Probed m size info
unfolding elf_probe_user_image
accepted m size info e = elim (Bool-cases (elf_validate (some m) size)) [
  | inr bad ↦ let e' = rw (elf_probe_user_image, bad) at e in cc
  | inl ok ↦ elim (Option-cases (probe_loop m size (e_phnum m) 0 [])) [
    | inl nothing ↦ let e' = rw (elf_probe_user_image, ok, nothing) at e in cc
    | inr (out, found) ↦
        let (same, few, all_ok) =
          probe_loop-some m size (e_phnum m) 0 [] {out = out} (omega arith) found in
        let r : Reports size (headers m (e_phnum m) 0) out =
          rw same (loads-Reports size (headers m (e_phnum m) 0) all_ok) in
        report m size out info ok r few (rw (elf_probe_user_image, ok, found) at e)
  ]
]

finish-some :
    (m : Memory) (size : ℕ) (segs : List UserElfSegmentInfo)
    → 1 ≤ length segs
    → finish m size segs ≡ some (record { entry = e_entry m; image_size = size; segments = segs })
unfolding finish
finish-some m size [] h = absurd (omega (arith, h))
finish-some m size (seg ∷ segs) h = refl

accepts :
    (m : Memory) (size : ℕ) (info : UserElfInfo)
    → Probed m size info
    → elf_probe_user_image (some m) size ≡ some info
unfolding elf_probe_user_image
accepts m size info p =
    let few = p.few in
    let found = Reports-probe_loop m size (e_phnum m) 0 [] info.segments p.segments (omega arith) in
    rw (elf_probe_user_image, p.valid, found)
      (finish-some m size info.segments p.some_segment
        ∙ ap some (rw (← p.entry, ← p.image_size) refl))

-- elf_probe_user_image accepts an image exactly when it passes elf_validate and its program headers, as
-- the loop reads them, ask for one to eight segments, each of which fits; and it reports the entry point,
-- the size, and the segments that the headers of type PT_LOAD with a size in memory ask for, in order,
-- with their addresses, offsets, sizes and flags.
pub elf_probe_user_image_lem :
    (m : Memory) (size : ℕ) (info : UserElfInfo)
    → (elf_probe_user_image (some m) size ≡ some info) ↔ Probed m size info
elf_probe_user_image_lem m size info = (accepted m size info, accepts m size info)

-- The test of the segments is passed by a file part that begins behind the end of the image, if the sum
-- wraps round to a small number.
pub segment_ok_wraps :
    (size : ℕ) (ph : Phdr)
    → ph.p_offset < u64_mod
    → ph.p_filesz ≤ ph.p_memsz
    → u64_mod ≤ ph.p_offset + ph.p_filesz
    → ph.p_offset + ph.p_filesz ≤ u64_mod + size
    → ph.p_filesz ≤ size
    → size < u64_mod
    → (segment_ok size ph ≡ true) × ¬ (ph.p_offset + ph.p_filesz ≤ size)
unfolding segment_ok
segment_ok_wraps size ph a b c d f g =
    let small : add64 ph.p_offset ph.p_filesz ≤ size = omega arith in
    (rw (le→leb _ _ small, le→leb _ _ b) refl, omega arith)
