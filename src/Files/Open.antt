-- ===== src/Files/Open.antt =====
-- ORE_SYS_OPEN and ORE_SYS_CLOSE of kernel/syscall.c: the handle that is given.
use ore_os.UserStrings.Copy.{short_string}
use ore_os.Vmm.{Vmm, slot}
use ore_os.Vfs.{Vfs, VfsStat}
use ore_os.Vfs.Calls.{vfs_stat}
use ore_os.UserMemory.{einval, failed, value}
use ore_os.UserStrings.{StringResult, refused, string, user_string}
use ore_os.Base.{
  Bool-cases, List, Option-cases, ap, arith, inl, inr, none, refl, some, suc, sym, zero, ℕ, ◌+◌,
  ◌<◌, ◌==◌, ◌^◌, ◌∙◌, ◌≡◌, ◌≢◌, ◌≤◌, ◌⊎◌,
}
use ore_os.Vfs.Calls.Short.{absent, take_all}
use ore_os.Process.{Handle, Process}
use ore_os.Files.{copy_string, enoent, free_handle, max_handles, set_handle, sys_open}

free_handle-some :
    (handles : ℕ → Handle) (n i index : ℕ)
    → free_handle handles n i ≡ some index
    → (i ≤ index)
      × (index < i + n)
      × ((handles index).kind ≡ 0)
      × ((k : ℕ) → i ≤ k → k < index → (handles k).kind ≢ 0)
unfolding free_handle
free_handle-some handles zero i index e = absurd (ground (arith, e))
free_handle-some handles (suc n) i index e = elim (Bool-cases ((handles i).kind == 0)) [
  | inl z ↦
      let same : i ≡ index = ground (arith, e, z) in
      let here : (handles i).kind ≡ 0 = ground arith in
      (
        omega arith,
        omega arith,
        ap (λ j. (handles j).kind) (sym same) ∙ here,
        λ k from below. absurd (omega arith),
      )
  | inr nz ↦
      let (from, below, zero_kind, before) =
        free_handle-some handles n (i + 1) index (ground (arith, e, nz)) in
      (
        omega arith,
        omega arith,
        zero_kind,
        λ k b c. elim (Bool-cases (k == i)) [
          | inl here ↦ (let same : k ≡ i = ground arith in rw same (ground (arith, nz)))
          | inr there ↦ before k (ground arith) c
        ],
      )
]

free_handle-none :
    (handles : ℕ → Handle) (n i : ℕ)
    → free_handle handles n i ≡ none
    → (k : ℕ) → i ≤ k
    → k < i + n
    → (handles k).kind ≢ 0
unfolding free_handle
free_handle-none handles zero i e k from below = absurd (omega arith)
free_handle-none handles (suc n) i e k from below = elim (Bool-cases (k == i)) [
  | inl here ↦ let same : k ≡ i = ground arith in rw same (λ z. absurd (ground (arith, e, z)))
  | inr there ↦
      free_handle-none handles n (i + 1) (ground (arith, e)) k (ground arith) (ground arith)
]

string_cases :
    (r : StringResult) → ((errno : ℕ) × (r ≡ refused errno)) ⊎ (path : List ℕ) × (r ≡ string path)
string_cases (refused errno) = inl (errno, refl)
string_cases (string path) = inr (path, refl)

-- ORE_SYS_OPEN, for a pointer of 64 bits. It fails with the error of the path, with
-- ENOENT if vfs_stat finds nothing, or with EINVAL if the handles 1 to 63 are all in use, and changes
-- nothing. Else it returns the first handle from 1 on that is free, sets it to the whole path, to its
-- kind and to the offset 0, and changes no other.
pub sys_open_lem :
    (root : ℕ) (s : Vmm) (fs : Vfs) (a1 : ℕ) (p : Process)
    → a1 < 2 ^ 64
    → let result = sys_open root s fs a1 p in
      ((errno : ℕ) × (user_string root s a1 127 ≡ refused errno) × (result ≡ (failed errno, p)))
      ⊎ (path : List ℕ) × (user_string root s a1 127 ≡ string path)
        × ((vfs_stat fs path ≡ none) × (result ≡ (failed enoent, p))
            ⊎ (vfs_stat fs path ≢ none)
              × ((k : ℕ) → 1 ≤ k → k < max_handles → (p.handles k).kind ≢ 0)
              × (result ≡ (failed einval, p))
            ⊎ (st : VfsStat) × (i : ℕ) × (vfs_stat fs path ≡ some st)
              × (1 ≤ i)
              × (i < max_handles)
              × ((p.handles i).kind ≡ 0)
              × ((k : ℕ) → 1 ≤ k → k < i → (p.handles k).kind ≢ 0)
              × (result ≡ (
                value i,
                set_handle i (record (p.handles i) { kind = st.kind; offset = 0; path = path }) p,
              )))
unfolding sys_open copy_string
sys_open_lem root s fs a1 p small = elim (string_cases (user_string root s a1 127)) [
  | inl (errno, e) ↦ inl (errno, e, ground (arith, e))
  | inr (path, e) ↦
      let whole =
        take_all 127 path
          (let h = short_string root s a1 127 path small (omega arith) e in omega arith) in
      inr (
        path,
        e,
        elim (Option-cases (vfs_stat fs path)) [
          | inl absent ↦ inl (absent, ground (arith, e, absent))
          | inr (st, found) ↦ inr (elim (Option-cases (free_handle p.handles 63 1)) [
            | inl full ↦ inl (
              (λ absent. absurd (ground (arith, absent, found))),
              (λ k from below. free_handle-none p.handles 63 1 full k from below),
              ground (arith, e, found, full),
            )
            | inr (i, slot) ↦
                let (from, below, free, before) = free_handle-some p.handles 63 1 i slot in
                inr (st, i, found, from, below, free, before, ground (arith, e, found, slot, whole))
          ])
        ],
      )
]
