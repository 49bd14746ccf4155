-- ===== src/Vfs/Calls/Whole.antt =====
-- Reads of kernel/vfs.c one after the other, and a read of what stat has announced.
use ore_os.Base.{
  Bool, Bool-cases, List, Memory, Option, Option-cases, [], ap, append-nil, arith, false,
  if◌then◌else◌, inl, inr, leb, length, min, none, some, sym, true, ℕ, ◌++◌, ◌+◌, ◌-◌, ◌<◌, ◌^◌,
  ◌∙◌, ◌∷◌, ◌≡◌, ◌≢◌, ◌⊎◌,
}
use ore_os.Block.{BlockDevice, Holds}
use ore_os.Vfs.{FileView, OreFsEntry, Vfs, VfsStat, disk_lookup, lookup_raw, str_eq_local, vfs_file}
use ore_os.Vfs.Calls.{
  bytes_at, on_disk, root_path, stat_disk, stat_initramfs, vfs_read_file, vfs_read_file_at,
  vfs_stat,
}
use ore_os.Vfs.Calls.Read.{
  DiskFails, bytes_at-append, content, length-bytes_at, vfs_read_file_at_lem,
}

-- The bytes of a file that a read gives.
abbrev part : Memory → (start size offset buffer_size : ℕ) → List ℕ
part from start size offset buffer_size =
    if leb size offset then [] else bytes_at from (start + offset) (min (size - offset) buffer_size)

length-part :
    (from : Memory) (start size offset buffer_size : ℕ)
    → length (part from start size offset buffer_size) ≡ min (size - offset) buffer_size
length-part from start size offset buffer_size =
    let n = length-bytes_at from (start + offset) (min (size - offset) buffer_size) in ground arith

part-append :
    (from : Memory) (start size offset k n : ℕ)
    → part from start size offset k ++ part from start size (offset + k) n
      ≡ part from start size offset (k + n)
part-append from start size offset k n = elim (Bool-cases (leb size (offset + k))) [
  | inl past ↦
      let all : min (size - offset) (k + n) ≡ min (size - offset) k = ground arith in
      rw (past, all) (append-nil (part from start size offset k))
  | inr left ↦
      let before : leb size offset ≡ false = ground arith in
      let first : min (size - offset) k ≡ k = ground arith in
      let sum : min (size - offset) (k + n) ≡ k + min (size - (offset + k)) n = ground arith in
      let place : start + (offset + k) ≡ start + offset + k = omega arith in
      rw (left, before, first, sum, place)
        (bytes_at-append from (start + offset) k (min (size - (offset + k)) n))
]

some_inj {ℓ} : {A : Type ℓ} {a b : A} → some a ≡ some b → a ≡ b
some_inj {a = a} e = ap (λ o. elim o [ none ↦ a | some x ↦ x ]) e

-- Two descriptions of the same file give the same parts.
same_part :
    (from from' : Memory) (start start' size size' offset n : ℕ) (named : Option (Memory × (ℕ × ℕ)))
    → named ≡ some (from, (start, size))
    → named ≡ some (from', (start', size'))
    → part from start size offset n ≡ part from' start' size' offset n
same_part from from' start start' size size' offset n named e e' =
    ap (λ (d : Memory × (ℕ × ℕ)). part d.0 d.1.0 d.1.1 offset n) (some_inj (sym e ∙ e'))

stat_disk_file :
    (s : Vfs) (rel : List ℕ) (st : VfsStat)
    → stat_disk s rel ≡ some st
    → st.kind ≡ vfs_file
    → (entry : OreFsEntry) × (disk_lookup s rel ≡ some entry)
      × (entry.kind ≡ vfs_file)
      × (entry.size ≡ st.size)
unfolding stat_disk
stat_disk_file s [] st e k = absurd (ground arith)
stat_disk_file s (c ∷ cs) st e k = elim (Option-cases (disk_lookup s (c ∷ cs))) [
  | inl n ↦ absurd (ground (arith, n))
  | inr (entry, l) ↦ (entry, l, ground (arith, l), ground (arith, l))
]

stat_initramfs_file :
    (s : Vfs) (path : List ℕ) (st : VfsStat)
    → stat_initramfs s path ≡ some st
    → st.kind ≡ vfs_file
    → (file : FileView) × (lookup_raw s path ≡ some file) × (file.size ≡ st.size)
unfolding stat_initramfs
stat_initramfs_file s path st e k = elim (Option-cases (lookup_raw s path)) [
  | inl n ↦ absurd (ground (arith, n))
  | inr (file, l) ↦ (file, l, ground (arith, l))
]

-- What vfs_stat says of a file is what there is to read.
stat_content :
    (m disk : Memory) (s : Vfs) (path : List ℕ) (st : VfsStat)
    → vfs_stat s path ≡ some st
    → st.kind ≡ vfs_file
    → (from : Memory) × (start : ℕ) × (content m disk s path ≡ some (from, (start, st.size)))
unfolding vfs_stat content
stat_content m disk s path st e k = elim (Bool-cases (str_eq_local path root_path)) [
  | inl r ↦ absurd (ground (arith, r))
  | inr r ↦ elim (Option-cases (on_disk s path)) [
    | inl d ↦
        let (file, l, same) = stat_initramfs_file s path st (ground (arith, r, d)) k in
        (m, file.data_at, ground (arith, d, l, same))
    | inr (rel, d) ↦
        let (entry, l, kind, same) = stat_disk_file s rel st (ground (arith, r, d)) k in
        (disk, entry.offset, ground (arith, d, l, kind, same))
  ]
]

module _ (dev : Option BlockDevice) (can_alloc : ℕ → Bool) (m disk : Memory) (s : Vfs)
    (path : List ℕ) (mounted : s.mounted ≡ true) (holds : Holds dev disk)
    (inside : (from : Memory) (start size : ℕ)
      → content m disk s path ≡ some (from, (start, size))
      → start + size < 2 ^ 64) where
  -- A read that succeeds gives a part of the file.
  read_part :
      (offset buffer_size : ℕ) (bytes : List ℕ)
      → buffer_size < 2 ^ 40
      → vfs_read_file_at dev can_alloc m s path offset buffer_size ≡ some bytes
      → (from : Memory) × (start : ℕ) × (size : ℕ) × (content m disk s path
          ≡ some (from, (start, size)))
        × (bytes ≡ part from start size offset buffer_size)
  read_part offset buffer_size bytes small e =
      elim (vfs_read_file_at_lem dev can_alloc m disk s path offset buffer_size mounted holds small
        inside) [
          | inl (c, fails) ↦ absurd (ground (arith, e, fails))
          | inr (from, start, size, c, r) ↦ elim r [
            | inl same ↦ (from, start, size, c, some_inj (sym e ∙ same))
            | inr (d, fails, why) ↦ absurd (ground (arith, e, fails))
          ]
        ]

  -- A mounted file system, a device that holds `disk`, data that end below 2^64 and buffers below 2^40
  -- bytes: two reads, the second from where the first buffer ends, give together what one read with a
  -- buffer as long as both gives.
  pub read-append :
      (offset k n : ℕ) (first second whole : List ℕ)
      → k + n < 2 ^ 40
      → vfs_read_file_at dev can_alloc m s path offset k ≡ some first
      → vfs_read_file_at dev can_alloc m s path (offset + k) n ≡ some second
      → vfs_read_file_at dev can_alloc m s path offset (k + n) ≡ some whole
      → first ++ second ≡ whole
  read-append offset k n first second whole small e1 e2 e3 =
      let (from, start, size, c, p) = read_part offset k first (omega arith) e1 in
      let (from2, start2, size2, c2, q) = read_part (offset + k) n second (omega arith) e2 in
      let (from3, start3, size3, c3, r) = read_part offset (k + n) whole small e3 in
      let named = content m disk s path in
      let q' = q ∙ same_part from2 from start2 start size2 size (offset + k) n named c2 c in
      let r' = r ∙ same_part from3 from start3 start size3 size offset (k + n) named c3 c in
      rw (p, q', r') (part-append from start size offset k n)

  -- In a mounted file system, with a device that holds `disk` and data that end below 2^64, where
  -- vfs_stat says that a path of a file names `st.size` bytes: a read with a buffer of that size, below
  -- 2^40, gives that many bytes, or the path is on the disk and there is no room for the sectors that
  -- hold the file's bytes or the device fails to read just these.
  pub read-stat :
      (st : VfsStat)
      → vfs_stat s path ≡ some st
      → st.kind ≡ vfs_file
      → st.size < 2 ^ 40
      → ((bytes : List ℕ) × (vfs_read_file dev can_alloc m s path st.size ≡ some bytes)
          × (length bytes ≡ st.size))
        ⊎ (from : Memory) × (start : ℕ) × (content m disk s path ≡ some (from, (start, st.size)))
          × (on_disk s path ≢ none)
          × (vfs_read_file dev can_alloc m s path st.size ≡ none)
          × DiskFails dev can_alloc start st.size
  read-stat st e k small =
      let (from, start, c) = stat_content m disk s path st e k in
      let named : content m disk s path ≡ some (from, (start, st.size)) = c in
      elim (vfs_read_file_at_lem dev can_alloc m disk s path 0 st.size mounted holds small inside) [
        | inl (none_named, fails) ↦ absurd (ground (arith, none_named, named))
        | inr (from', start', size', c', r) ↦
            let same : size' ≡ st.size =
              ap (λ (d : Memory × (ℕ × ℕ)). d.1.1) (some_inj (sym c' ∙ named)) in
            let all : min (size' - 0) st.size ≡ st.size = rw same (omega arith) in
            elim r [
              | inl e' ↦ inl (
                part from' start' size' 0 st.size,
                e',
                length-part from' start' size' 0 st.size ∙ rw same (omega arith),
              )
              | inr (d, fails, why) ↦
                  let named' : content m disk s path ≡ some (from', (start', st.size)) =
                    rw (← same) c' in
                  let place : start' + 0 ≡ start' = omega arith in
                  inr (from', start', named', d, fails, rw (all, place) at why)
            ]
      ]
