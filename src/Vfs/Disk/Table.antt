-- ===== src/Vfs/Disk/Table.antt =====
-- What mount_disk of kernel/vfs.c takes from the disk.
use ore_os.Base.{
  Bool, List, Memory, Option, Option-cases, [], ap, arith, false, inl, inr, length, read32, read_le,
  refl, some, suc, take, true, zero, ℕ, ◌*◌, ◌+◌, ◌/◌, ◌<◌, ◌==◌, ◌∙◌, ◌∷◌, ◌≡◌, ◌≤◌,
}
use ore_os.Block.{BlockDevice, Holds, block_root_read}
use ore_os.Vfs.{OreFsEntry, Vfs, orefs_max_entries}
use ore_os.Vfs.Disk.{
  entry_size, magic_ok, mount_disk, read_entries, read_entry, read_table, string_at,
}

read_le_same :
    (n : ℕ) (m m' : Memory) (p q : ℕ)
    → ((i : ℕ) → i < n → m (p + i) ≡ m' (q + i))
    → read_le n m p ≡ read_le n m' q
unfolding read_le
read_le_same zero m m' p q h = refl
read_le_same (suc n) m m' p q h =
    let first : m p ≡ m' q = ap m (omega arith) ∙ h 0 (omega arith) ∙ ap m' (omega arith) in
    let rest =
      read_le_same n m m' (p + 1) (q + 1)
        (λ i b. ap m (omega arith) ∙ h (suc i) (omega arith) ∙ ap m' (omega arith)) in
    omega (arith, first, rest)

string_at-same :
    (m m' : Memory) (n p q : ℕ)
    → ((i : ℕ) → i < n → m (p + i) ≡ m' (q + i))
    → string_at m n p ≡ string_at m' n q
unfolding string_at
string_at-same m m' zero p q h = refl
string_at-same m m' (suc n) p q h =
    let first : m p ≡ m' q = ap m (omega arith) ∙ h 0 (omega arith) ∙ ap m' (omega arith) in
    let rest =
      string_at-same m m' n (p + 1) (q + 1)
        (λ i b. ap m (omega arith) ∙ h (suc i) (omega arith) ∙ ap m' (omega arith)) in
    ground (arith, first, rest)

module _ (m m' : Memory) (shift total : ℕ) (same : (i : ℕ) → i < total → m i ≡ m' (shift + i)) where
  word : (n p : ℕ) → p + n ≤ total → read_le n m p ≡ read_le n m' (shift + p)
  word n p h =
      read_le_same n m m' p (shift + p) (λ i b. same (p + i) (omega arith) ∙ ap m' (omega arith))

  entry_word : (n p k : ℕ) → p + k + n ≤ total → read_le n m (p + k) ≡ read_le n m' (shift + p + k)
  entry_word n p k h = word n (p + k) (omega arith) ∙ ap (read_le n m') (omega arith)

  read_entry-same : (p : ℕ) → p + 128 ≤ total → read_entry m p ≡ read_entry m' (shift + p)
  unfolding read_entry
  read_entry-same p h =
      let name =
        string_at-same m m' 96 p (shift + p)
          (λ i b. same (p + i) (omega arith) ∙ ap m' (omega arith)) in
      let offset = entry_word 8 p 96 (omega arith) in
      let size = entry_word 8 p 104 (omega arith) in
      let kind = entry_word 4 p 112 (omega arith) in rw (name, offset, size, kind) refl

  read_entries-same :
      (n p : ℕ) → p + 128 * n ≤ total → read_entries m n p ≡ read_entries m' n (shift + p)
  unfolding read_entries
  read_entries-same zero p h = refl
  read_entries-same (suc n) p h =
      let first = read_entry-same p (omega arith) in
      let next : shift + (p + 128) ≡ shift + p + 128 = omega arith in
      let rest = read_entries-same n (p + 128) (omega arith) in
      rw first (ap (λ es. read_entry m' (shift + p) ∷ es) (rw next at rest))

length-read_entries : (m : Memory) (n p : ℕ) → length (read_entries m n p) ≡ n
unfolding read_entries
length-read_entries m zero p = refl
length-read_entries m (suc n) p = ap suc (length-read_entries m n (p + 128))

take_exact : (n : ℕ) (es : List OreFsEntry) → length es ≡ n → take n es ≡ es
take_exact zero [] h = refl
take_exact zero (e ∷ es) h = absurd (omega arith)
take_exact (suc n) [] h = refl
take_exact (suc n) (e ∷ es) h = ap (λ r. e ∷ r) (take_exact n es (omega arith))

read_table_lem :
    (dev : Option BlockDevice) (can_alloc : ℕ → Bool) (disk : Memory) (count : ℕ)
    (old entries : List OreFsEntry)
    → Holds dev disk
    → read_table dev can_alloc count old ≡ some entries
    → take count entries ≡ read_entries disk count 512
unfolding read_table read_entries
read_table_lem dev can_alloc disk zero old entries holds e = refl
read_table_lem dev can_alloc disk (suc n) old entries holds e =
    let sectors = (suc n * entry_size + 511) / 512 in
    let some_sectors : (sectors == 0) ≡ false = ground arith in
    elim (Option-cases (block_root_read dev 1 sectors)) [
      | inl f ↦ absurd (ground (arith, some_sectors, f))
      | inr (tmp, b) ↦
          let here : entries ≡ read_entries tmp (suc n) 0 = ground (arith, some_sectors, b) in
          let same =
            read_entries-same tmp disk 512 (512 * sectors)
              (λ i h. holds.same 1 sectors tmp b i h ∙ ap disk (omega arith)) (suc n) 0
              (omega arith) in
          rw here (
            take_exact (suc n) (read_entries tmp (suc n) 0) (length-read_entries tmp (suc n) 0)
            ∙ same
            ∙ ap (read_entries disk (suc n)) (omega arith))
    ]

magic_ok-same : (m m' : Memory) → ((i : ℕ) → i < 6 → m i ≡ m' i) → magic_ok m ≡ magic_ok m'
unfolding magic_ok
magic_ok-same m m' h =
    rw
      (
        h 0 (omega arith),
        h 1 (omega arith),
        h 2 (omega arith),
        h 3 (omega arith),
        h 4 (omega arith),
        h 5 (omega arith),
      )
      refl

abbrev with_table : Vfs → List OreFsEntry → Vfs
with_table s entries = record s { disk_mounted = true; disk_entries = entries }

-- With a device that holds `disk`: when mount_disk returns 0, the disk starts with the six letters of
-- its magic, has at most 128 files, and the table of the file system is the one in the blocks behind
-- the first, with the files of the initramfs as they were.
pub mount_disk_lem :
    (dev : Option BlockDevice) (can_alloc : ℕ → Bool) (disk : Memory) (s t : Vfs)
    → Holds dev disk
    → mount_disk dev can_alloc s ≡ some t
    → (magic_ok disk ≡ true)
      × (read32 disk 12 ≤ orefs_max_entries)
      × (t
          ≡ record s { disk_mounted = true; disk_entries = read_entries disk (read32 disk 12) 512 })
unfolding mount_disk
mount_disk_lem dev can_alloc disk s t holds e = elim (Option-cases (block_root_read dev 0 1)) [
  | inl n ↦ absurd (ground (arith, n))
  | inr (sector, b) ↦
      let same : (i : ℕ) → i < 512 → sector i ≡ disk i =
        λ i h. holds.same 0 1 sector b i (omega arith) ∙ ap disk (omega arith) in
      let count : read32 sector 12 ≡ read32 disk 12 =
        read_le_same 4 sector disk 12 12 (λ i h. same (12 + i) (omega arith)) in
      let magic = magic_ok-same sector disk (λ i h. same i (omega arith)) in
      elim (Option-cases (read_table dev can_alloc (read32 sector 12) s.disk_entries)) [
        | inl n ↦ absurd (ground (arith, b, n))
        | inr (entries, r) ↦
            let table =
              read_table_lem dev can_alloc disk (read32 sector 12) s.disk_entries entries holds r in
            let sized : read_entries disk (read32 sector 12) 512
                ≡ read_entries disk (read32 disk 12) 512 =
              ap (λ n. read_entries disk n 512) count in
            let reached : t ≡ with_table s (take (read32 sector 12) entries) =
              ground (arith, b, r) in
            let written : t ≡ record s {
              disk_mounted = true;
              disk_entries = read_entries disk (read32 disk 12) 512;
            } =
              reached ∙ ap (with_table s) (table ∙ sized) in
            (ground (arith, b, r, magic), ground (arith, b, r, count), written)
      ]
]
