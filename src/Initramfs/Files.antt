-- ===== src/Initramfs/Files.antt =====
-- The files that initramfs_init of kernel/initramfs.c lists, and what a look-up finds.
use ore_os.Boot.{BootInfo}
use ore_os.Base.{
  Bool-cases, List, Memory, [], ap, arith, false, if◌then◌else◌, inl, inr, leb, length, not,
  or-false, refl, suc, true, zero, ℕ, ◌%◌, ◌*◌, ◌+◌, ◌-◌, ◌<◌, ◌==◌, ◌||◌, ◌∙◌, ◌∷◌, ◌≡◌, ◌≢◌, ◌≤◌,
}
use ore_os.Initramfs.{
  InitramfsFile, block_empty, enough, file_of, files_from, header_file_size, initramfs_init,
  is_file, max_files, padded, tar_block,
}

-- A file of the list: its header is a block of the archive with a name, and of no directory; the data
-- are what follows the header, as long as the header says.
pub record IsFile (m : Memory) (base archive_size : ℕ) (f : InitramfsFile) : Type 0 where
  pub from : base ≤ f.name
  pub in_archive : f.name + tar_block ≤ base + archive_size
  pub aligned : (f.name - base) % tar_block ≡ 0
  pub data_follow : f.data_at ≡ f.name + tar_block
  pub size_says : f.size ≡ header_file_size m f.name
  pub named : m f.name ≢ 0
  pub no_directory : m (f.name + 156) ≢ b'5'

-- The files of the list, in the order of their addresses from `low` on, and without overlap.
abbrev pub Layout : Memory → (base archive_size low : ℕ) → List InitramfsFile → Type 0
Layout m base archive_size low [] = Unit
Layout m base archive_size low (f ∷ fs) =
    (low ≤ f.name)
    × IsFile m base archive_size f
    × Layout m base archive_size (f.data_at + f.size) fs

Layout-lower :
    (m : Memory) (base archive_size low low' : ℕ) (fs : List InitramfsFile)
    → low' ≤ low
    → Layout m base archive_size low fs
    → Layout m base archive_size low' fs
Layout-lower m base archive_size low low' [] le h = tt
Layout-lower m base archive_size low low' (f ∷ fs) le (a, b, c) = (omega (arith, a, le), b, c)

padded_facts : (size : ℕ) → (size ≤ padded size) × (padded size % tar_block ≡ 0)
unfolding padded
padded_facts size = (omega arith, omega arith)

file_of-IsFile :
    (m : Memory) (base archive_size off : ℕ)
    → off % tar_block ≡ 0
    → off + tar_block ≤ archive_size
    → is_file m (base + off) ≡ true
    → IsFile m base archive_size (file_of m (base + off))
unfolding is_file file_of
file_of-IsFile m base archive_size off al fits file = record {
  from = omega arith;
  in_archive = omega arith;
  aligned = omega arith;
  data_follow = refl;
  size_says = refl;
  named = ground arith;
  no_directory = ground arith;
}

files_from_lem :
    (m : Memory) (base archive_size rounds off room : ℕ)
    → off % tar_block ≡ 0
    → Layout m base archive_size (base + off) (files_from m base archive_size rounds off room)
      × (length (files_from m base archive_size rounds off room) ≤ room)
unfolding files_from
files_from_lem m base archive_size zero off room al = (tt, omega arith)
files_from_lem m base archive_size (suc n) off room al =
    let hdr = base + off in
    let next = off + tar_block + padded (header_file_size m hdr) in
    let pad = padded_facts (header_file_size m hdr) in
    let stop = not (leb (off + tar_block) archive_size) || room == 0 in
    elim (Bool-cases stop) [
      | inl end ↦ rw end (tt, omega arith)
      | inr go ↦ elim (Bool-cases (block_empty m hdr)) [
        | inl empty ↦ rw (go, empty) (tt, omega arith)
        | inr header ↦ elim (Bool-cases (is_file m hdr)) [
          | inl file ↦
              let ih =
                files_from_lem m base archive_size n next (room - 1) (omega (arith, pad.1)) in
              let fits : off + tar_block ≤ archive_size = ground arith in
              let left : 1 ≤ room = ground arith in
              let f = file_of m hdr in
              let end_of : f.data_at + f.size ≤ base + next =
                unfold file_of in omega (arith, pad.0) in
              rw (go, header, file)
                (
                  (
                    omega arith,
                    file_of-IsFile m base archive_size off al fits file,
                    Layout-lower m base archive_size (base + next) (f.data_at + f.size) _ end_of
                        ih.0,
                  ),
                  omega (arith, ih.1, left),
                )
          | inr other ↦
              let ih = files_from_lem m base archive_size n next room (omega (arith, pad.1)) in
              rw (go, header, other)
                (Layout-lower m base archive_size (base + next) hdr _ (omega arith) ih.0, ih.1)
        ]
      ]
    ]

-- More rounds than the archive has blocks change nothing.
files_from-rounds :
    (m : Memory) (base archive_size n n' off room : ℕ)
    → archive_size < off + tar_block * n
    → archive_size < off + tar_block * n'
    → files_from m base archive_size n off room ≡ files_from m base archive_size n' off room
unfolding files_from
files_from-rounds m base archive_size zero zero off room h h' = refl
files_from-rounds m base archive_size zero (suc n') off room h h' =
    let past : leb (off + tar_block) archive_size ≡ false = ground arith in rw past refl
files_from-rounds m base archive_size (suc n) zero off room h h' =
    let past : leb (off + tar_block) archive_size ≡ false = ground arith in rw past refl
files_from-rounds m base archive_size (suc n) (suc n') off room h h' =
    let hdr = base + off in
    let next = off + tar_block + padded (header_file_size m hdr) in
    rw
      (files_from-rounds m base archive_size n n' next (if is_file m hdr then room - 1 else room)
        (omega arith) (omega arith))
      refl

-- What initramfs_init lists.
pub record Listed (m : Memory) (boot_info : BootInfo) (files : List InitramfsFile) : Type 0 where
  pub layout :
      Layout m boot_info.initramfs_base boot_info.initramfs_size boot_info.initramfs_base files
  pub few : length files ≤ max_files
  pub complete :
      (rounds : ℕ)
      → enough boot_info.initramfs_size ≤ rounds
      → boot_info.initramfs_base ≢ 0
      → boot_info.initramfs_size ≢ 0
      → files_from m boot_info.initramfs_base boot_info.initramfs_size rounds 0 max_files ≡ files

-- initramfs_init lists at most 64 files. Each has its header in a block of the archive that names it
-- and is no directory, its data behind the header, and the size that the header gives; they stand in the
-- order of the archive and do not overlap. The loop has ended by itself: any greater number of rounds
-- gives the same list.
pub initramfs_init_lem :
    (m : Memory) (boot_info : BootInfo) → Listed m boot_info (initramfs_init m boot_info)
unfolding initramfs_init
initramfs_init_lem m boot_info =
    let base = boot_info.initramfs_base in
    let size = boot_info.initramfs_size in
    elim (Bool-cases (base == 0 || size == 0)) [
      | inl absent ↦ rw absent (record {
        layout = tt;
        few = omega arith;
        complete = λ n le nb ns. absurd (ground arith);
      })
      | inr here ↦
          let r = files_from_lem m base size (enough size) 0 max_files (omega arith) in
          rw here (record {
            layout = Layout-lower m base size (base + 0) base _ (omega arith) r.0;
            few = r.1;
            complete = λ n le nb ns.
                files_from-rounds m base size n (enough size) 0 max_files (omega arith)
                  (omega arith);
          })
    ]

files_from_stop :
    (m : Memory) (base archive_size rounds off room : ℕ)
    → archive_size < off + tar_block
    → files_from m base archive_size rounds off room ≡ []
unfolding files_from
files_from_stop m base archive_size zero off room h = refl
files_from_stop m base archive_size (suc n) off room h =
    let past : leb (off + tar_block) archive_size ≡ false = ground arith in rw past refl

is_zero : (n : ℕ) → n ≢ 0 → (n == 0) ≡ false
is_zero n ne = ground arith

files_from_one :
    (m : Memory) (base n room : ℕ)
    → block_empty m (base + 0) ≡ false
    → is_file m (base + 0) ≡ true
    → 1 ≤ room
    → files_from m base tar_block (suc n) 0 room ≡ file_of m (base + 0) ∷ []
unfolding files_from
files_from_one m base n room header file some_room =
    let next = 0 + tar_block + padded (header_file_size m (base + 0)) in
    let full : (room == 0) ≡ false = ground arith in
    rw (full, header, file, files_from_stop m base tar_block n next (room - 1) (omega arith)) refl

-- An archive of one block that names a file with data is accepted, although the data lie behind the
-- end of the archive.
pub initramfs_init_overrun :
    (m : Memory) (boot_info : BootInfo)
    → boot_info.initramfs_base ≢ 0
    → boot_info.initramfs_size ≡ tar_block
    → block_empty m boot_info.initramfs_base ≡ false
    → is_file m boot_info.initramfs_base ≡ true
    → 1 ≤ header_file_size m boot_info.initramfs_base
    → (initramfs_init m boot_info ≡ file_of m boot_info.initramfs_base ∷ [])
      × (boot_info.initramfs_base + boot_info.initramfs_size
          < (file_of m boot_info.initramfs_base).data_at
            + (file_of m boot_info.initramfs_base).size)
unfolding initramfs_init file_of
initramfs_init_overrun m boot_info nb one header file long =
    let base = boot_info.initramfs_base in
    let there : (base == 0 || boot_info.initramfs_size == 0) ≡ false =
      or-false (base == 0) (boot_info.initramfs_size == 0) (is_zero base nb)
        (ap (λ z. z == 0) one) in
    let at : base + 0 ≡ base = omega arith in
    let list =
      files_from_one m base 1 max_files (ap (block_empty m) at ∙ header) (ap (is_file m) at ∙ file)
        (omega arith) in
    (rw (there, one) (list ∙ ap (λ a. file_of m a ∷ []) at), omega arith)
