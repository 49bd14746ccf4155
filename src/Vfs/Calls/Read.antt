-- ===== src/Vfs/Calls/Read.antt =====
-- vfs_read_file_at of kernel/vfs.c: which bytes of a file it gives.
use ore_os.Base.{
  Bool, Bool-cases, List, Memory, Option, Option-cases, [], add64, ap, arith, false, if◌then◌else◌,
  inl, inr, leb, length, min, none, refl, some, suc, true, u32_mod, zero, ℕ, ◌%◌, ◌*◌, ◌++◌, ◌+◌,
  ◌-◌, ◌/◌, ◌<◌, ◌==◌, ◌^◌, ◌∙◌, ◌∷◌, ◌≡◌, ◌≢◌, ◌≤◌, ◌⊎◌,
}
use ore_os.Block.{BlockDevice, Holds, block_root_read}
use ore_os.Vfs.{Vfs, disk_lookup, lookup_raw, vfs_file}
use ore_os.Vfs.Calls.{bytes_at, on_disk, read_disk, vfs_read_file_at}

pub length-bytes_at : (m : Memory) (p n : ℕ) → length (bytes_at m p n) ≡ n
unfolding bytes_at
length-bytes_at m p zero = refl
length-bytes_at m p (suc n) = ap suc (length-bytes_at m (p + 1) n)

pub bytes_at-append :
    (m : Memory) (p k n : ℕ) → bytes_at m p k ++ bytes_at m (p + k) n ≡ bytes_at m p (k + n)
unfolding bytes_at
bytes_at-append m p zero n =
    ap (λ q. bytes_at m q n) (omega arith) ∙ ap (bytes_at m p) (omega arith)
bytes_at-append m p (suc k) n =
    let next : p + suc k ≡ p + 1 + k = omega arith in
    let more : suc k + n ≡ suc (k + n) = omega arith in
    rw (next, more) (ap (λ r. m p ∷ r) (bytes_at-append m (p + 1) k n))

-- Bytes that agree.
bytes_at-same :
    (m m' : Memory) (p q n : ℕ)
    → ((i : ℕ) → i < n → m (p + i) ≡ m' (q + i))
    → bytes_at m p n ≡ bytes_at m' q n
unfolding bytes_at
bytes_at-same m m' p q zero h = refl
bytes_at-same m m' p q (suc n) h =
    let first : m p ≡ m' q = ap m (omega arith) ∙ h 0 (omega arith) ∙ ap m' (omega arith) in
    let rest =
      bytes_at-same m m' (p + 1) (q + 1) n
        (λ i b. ap m (omega arith) ∙ h (suc i) (omega arith) ∙ ap m' (omega arith)) in
    cc

-- What a path names: the memory, the start and the size of its data.
unfoldable pub content : (m disk : Memory) → Vfs → List ℕ → Option (Memory × (ℕ × ℕ))
content m disk s path = elim (on_disk s path) [
  | some rel ↦ elim (disk_lookup s rel) [
    | none ↦ none
    | some entry ↦ if entry.kind == vfs_file then some (disk, (entry.offset, entry.size)) else none
  ]
  | none ↦ elim (lookup_raw s path) [
    | none ↦ none
    | some file ↦ some (m, (file.data_at, file.size))
  ]
]

-- Why a read from the disk fails: no room for the sectors, or the device fails.
pub DiskFails : Option BlockDevice → (can_alloc : ℕ → Bool) → (disk_offset n : ℕ) → Type 0
DiskFails dev can_alloc disk_offset n =
    let sectors = (disk_offset % 512 + n + 511) / 512 in
    (can_alloc (sectors * 512) ≡ false) ⊎ (block_root_read dev (disk_offset / 512) sectors ≡ none)

read_disk_lem :
    (dev : Option BlockDevice) (can_alloc : ℕ → Bool) (disk : Memory) (disk_offset n : ℕ)
    → Holds dev disk
    → n < 2 ^ 40
    → (read_disk dev can_alloc disk_offset n ≡ none) × DiskFails dev can_alloc disk_offset n
      ⊎ (read_disk dev can_alloc disk_offset n ≡ some (bytes_at disk disk_offset n))
unfolding read_disk DiskFails
read_disk_lem dev can_alloc disk disk_offset n holds small =
    let sectors = (disk_offset % 512 + n + 511) / 512 in
    let fits : sectors % u32_mod ≡ sectors = omega arith in
    elim (Bool-cases (can_alloc (sectors * 512))) [
      | inr no_room ↦ inl (ground (arith, no_room), inl no_room)
      | inl room ↦ elim (Option-cases (block_root_read dev (disk_offset / 512) sectors)) [
        | inl fails ↦ inl (ground (arith, room, fits, fails), inr fails)
        | inr (tmp, e) ↦
            let same = bytes_at-same tmp disk (disk_offset % 512) disk_offset n (λ i b.
              holds.same (disk_offset / 512) sectors tmp e (disk_offset % 512 + i) (omega arith)
              ∙ ap disk (omega arith)) in
            inr (ground (arith, room, fits, e, same))
      ]
    ]

-- In a mounted file system, with a device that holds `disk`, a buffer below 2^40 bytes and data that end
-- below 2^64: vfs_read_file_at fails where the path names no file; where it names one, it gives nothing
-- from the end on, and otherwise the bytes of the file from `offset` on, as many as are left and fit in
-- the buffer, or, for a file on the disk, it fails because there is no room for the sectors or the
-- device fails.
pub vfs_read_file_at_lem :
    (dev : Option BlockDevice) (can_alloc : ℕ → Bool) (m disk : Memory) (s : Vfs) (path : List ℕ)
    (offset buffer_size : ℕ)
    → s.mounted ≡ true
    → Holds dev disk
    → buffer_size < 2 ^ 40
    → ((from : Memory) (start size : ℕ)
        → content m disk s path ≡ some (from, (start, size))
        → start + size < 2 ^ 64)
    → let result = vfs_read_file_at dev can_alloc m s path offset buffer_size in
      (content m disk s path ≡ none) × (result ≡ none)
      ⊎ (from : Memory) × (start : ℕ) × (size : ℕ) × (content m disk s path
          ≡ some (from, (start, size)))
        × ((result
              ≡ some (
                  if leb size offset
                  then []
                  else bytes_at from (start + offset) (min (size - offset) buffer_size)))
            ⊎ (on_disk s path ≢ none)
              × (result ≡ none)
              × DiskFails dev can_alloc (start + offset) (min (size - offset) buffer_size))
unfolding vfs_read_file_at content
vfs_read_file_at_lem dev can_alloc m disk s path offset buffer_size mounted holds small inside =
    elim (Option-cases (on_disk s path)) [
      | inl d ↦ elim (Option-cases (lookup_raw s path)) [
        | inl l ↦ inl (ground (arith, d, l), ground (arith, d, l))
        | inr (file, l) ↦
            inr (m, file.data_at, file.size, ground (arith, d, l), inl (ground (arith, d, l)))
      ]
      | inr (rel, d) ↦ elim (Option-cases (disk_lookup s rel)) [
        | inl l ↦ inl (ground (arith, d, l), ground (arith, d, l))
        | inr (entry, l) ↦ elim (Bool-cases (entry.kind == vfs_file)) [
          | inr k ↦ inl (ground (arith, d, l, k), ground (arith, d, l, k))
          | inl k ↦
              let named : content m disk s path ≡ some (disk, (entry.offset, entry.size)) =
                ground (arith, d, l, k) in
              let within = inside disk entry.offset entry.size named in
              inr (
                disk,
                entry.offset,
                entry.size,
                named,
                elim (Bool-cases (leb entry.size offset)) [
                  | inl past ↦ inl (ground (arith, d, l, k, past))
                  | inr left ↦
                      let whole : add64 entry.offset offset ≡ entry.offset + offset =
                        ground arith in
                      elim (read_disk_lem dev can_alloc disk (entry.offset + offset)
                        (min (entry.size - offset) buffer_size) holds (omega arith)) [
                          | inl (e, why) ↦ inr (
                            (λ absent. absurd (ground (arith, d, absent))),
                            ground (arith, d, l, k, left, whole, e),
                            why,
                          )
                          | inr e ↦ inl (ground (arith, d, l, k, left, whole, e))
                        ]
                ],
              )
        ]
      ]
    ]

length-read_disk :
    (dev : Option BlockDevice) (can_alloc : ℕ → Bool) (disk_offset n : ℕ) (bytes : List ℕ)
    → read_disk dev can_alloc disk_offset n ≡ some bytes
    → length bytes ≡ n
unfolding read_disk
length-read_disk dev can_alloc disk_offset n bytes e =
    let sectors = (disk_offset % 512 + n + 511) / 512 in
    elim (Option-cases (block_root_read dev (disk_offset / 512) (sectors % u32_mod))) [
      | inl fails ↦ absurd (ground (arith, e, fails))
      | inr (tmp, f) ↦ elim (Bool-cases (can_alloc (sectors * 512))) [
        | inr no_room ↦ absurd (ground (arith, e, no_room))
        | inl room ↦
            let same : bytes ≡ bytes_at tmp (disk_offset % 512) n = ground (arith, e, f, room) in
            rw same (length-bytes_at tmp (disk_offset % 512) n)
      ]
    ]

-- A read gives no more bytes than the buffer has.
pub length-vfs_read_file_at :
    (dev : Option BlockDevice) (can_alloc : ℕ → Bool) (m : Memory) (s : Vfs) (path : List ℕ)
    (offset buffer_size : ℕ) (bytes : List ℕ)
    → vfs_read_file_at dev can_alloc m s path offset buffer_size ≡ some bytes
    → length bytes ≤ buffer_size
unfolding vfs_read_file_at
length-vfs_read_file_at dev can_alloc m s path offset buffer_size bytes e =
    elim (Option-cases (on_disk s path)) [
      | inl d ↦ elim (Option-cases (lookup_raw s path)) [
        | inl l ↦ absurd (ground (arith, e, d, l))
        | inr (file, l) ↦ elim (Bool-cases (leb file.size offset)) [
          | inl past ↦
              (let same : bytes ≡ [] = ground (arith, e, d, l, past) in rw same (omega arith))
          | inr left ↦
              let k = min (file.size - offset) buffer_size in
              let same : bytes ≡ bytes_at m (file.data_at + offset) k =
                ground (arith, e, d, l, left) in
              rw (same, length-bytes_at m (file.data_at + offset) k) (omega arith)
        ]
      ]
      | inr (rel, d) ↦ elim (Option-cases (disk_lookup s rel)) [
        | inl l ↦ absurd (ground (arith, e, d, l))
        | inr (entry, l) ↦ elim (Bool-cases (leb entry.size offset)) [
          | inl past ↦
              (let same : bytes ≡ [] = ground (arith, e, d, l, past) in rw same (omega arith))
          | inr left ↦
              let k = min (entry.size - offset) buffer_size in
              let read : read_disk dev can_alloc (add64 entry.offset offset) k ≡ some bytes =
                ground (arith, e, d, l, left) in
              rw (length-read_disk dev can_alloc (add64 entry.offset offset) k bytes read)
                (omega arith)
        ]
      ]
    ]
