-- ===== src/Vfs/Calls/Directory.antt =====
-- vfs_readdir_path of kernel/vfs.c against the list of what a directory holds.
use ore_os.Vfs.Calls.Short.{
  absent, absent_there, all_short-listing, copy_stat_short, direct_child-short,
  disk_direct_child-short, names_differ, names_differ-each_once,
}
use ore_os.Base.{
  Bool-cases, List, Option, Option-cases, [], ap, append-nil, arith, false, get_elem?,
  if◌then◌else◌, inl, inr, length, ltb, ltb→lt, none, refl, some, suc, sym, true, zero, ℕ, ◌&&◌,
  ◌++◌, ◌<◌, ◌==◌, ◌∙◌, ◌∷◌, ◌≡◌, ◌≢◌, ◌≤◌, ◌⊎◌,
}
use ore_os.Vfs.Names.{str_eq_local_comm, str_eq_local_refl}
use ore_os.Vfs.{
  Vfs, VfsStat, copy_name, direct_child, disk_direct_child, drop_one_slash, str_eq_local,
}
use ore_os.Vfs.Calls.{copy_stat, directory, disk_name, list_children, on_disk, vfs_readdir_path}
use ore_os.Vfs.Calls.Listing.{all_children, each_once, whole_list}

-- What a directory holds: each name below it once, in the order of the files, and the disk at the end
-- of the root.
pub listing : Vfs → List ℕ → List VfsStat
listing s path = elim (on_disk s path) [
  | some rel ↦ each_once (all_children (disk_direct_child rel) s.disk_entries)
  | none ↦
      let dir = copy_name (drop_one_slash path) in
      each_once (all_children (direct_child dir) s.files)
      ++ (if length dir == 0 && s.disk_mounted then directory disk_name ∷ [] else [])
]

get_elem?-past :
    (sts : List VfsStat) (d : VfsStat) (k : ℕ)
    → get_elem? sts k ≡ none
    → get_elem? (sts ++ d ∷ []) k ≡ (if k == length sts then some d else none)
get_elem?-past [] d zero h = refl
get_elem?-past [] d (suc k) h = ground arith
get_elem?-past (x ∷ sts) d zero h = absurd (cc)
get_elem?-past (x ∷ sts) d (suc k) h = ground (arith, get_elem?-past sts d k h)

get_elem?-within :
    (sts more : List VfsStat) (k : ℕ) (st : VfsStat)
    → get_elem? sts k ≡ some st
    → get_elem? (sts ++ more) k ≡ some st
get_elem?-within [] more k st h = absurd (cc)
get_elem?-within (x ∷ sts) more zero st h = h
get_elem?-within (x ∷ sts) more (suc k) st h = get_elem?-within sts more k st h

module _ {A : Type 0} (child : A → Option VfsStat)
    (short : (e : A) (st : VfsStat) → child e ≡ some st → length st.name ≤ 127) (es : List A)
    (index : ℕ) where
  abbrev all : List VfsStat
  all = each_once (all_children child es)

  copied : (st : VfsStat) → get_elem? all index ≡ some st → copy_stat st ≡ st
  copied st e = copy_stat_short all index st (all_short-listing child short es) e

  -- What the loop finds is the entry of the list.
  search :
      ((list_children child [] es index 0).0 ≡ none)
        × (get_elem? all index ≡ none)
        × ((list_children child [] es index 0).1 ≡ length all)
      ⊎ (st : VfsStat) × ((list_children child [] es index 0).0 ≡ some st)
        × (get_elem? all index ≡ some st)
        × (copy_stat st ≡ st)
  search =
      let (found, passed) = whole_list child es index in
      elim (Option-cases (get_elem? all index)) [
        | inl n ↦ inl (found ∙ n, n, passed (found ∙ n))
        | inr (st, s) ↦ inr (st, found ∙ s, s, copied st s)
      ]

disk_name_short : copy_name disk_name ≡ disk_name
unfolding copy_name
disk_name_short = refl

-- In a mounted file system, vfs_readdir_path gives the entries of the listing by their index, and fails
-- for every index behind them.
pub vfs_readdir_path_lem :
    (s : Vfs) (path : List ℕ) (index : ℕ)
    → s.mounted ≡ true
    → vfs_readdir_path s path index ≡ get_elem? (listing s path) index
unfolding vfs_readdir_path listing
vfs_readdir_path_lem s path index m = elim (Option-cases (on_disk s path)) [
  | inr (rel, d) ↦
      elim (search (disk_direct_child rel) (disk_direct_child-short rel) s.disk_entries index) [
        | inl (e, n, passed) ↦ ground (arith, d, e, n)
        | inr (st, e, g, same) ↦ ground (arith, d, e, g, same)
      ]
  | inl d ↦
      let dir = copy_name (drop_one_slash path) in
      let files = each_once (all_children (direct_child dir) s.files) in
      elim (search (direct_child dir) (direct_child-short dir) s.files index) [
        | inl (e, n, passed) ↦ ground (
          arith,
          d,
          e,
          n,
          passed,
          disk_name_short,
          get_elem?-past files (directory disk_name) index n,
          append-nil files,
        )
        | inr (st, e, g, same) ↦ ground (
          arith,
          d,
          e,
          g,
          same,
          get_elem?-within files (directory disk_name ∷ []) index st g,
          append-nil files,
        )
      ]
]

-- The listing of a directory of the disk, or of one that is not the root, has no name twice.
names_differ-listing :
    (s : Vfs) (path : List ℕ)
    → (length (copy_name (drop_one_slash path)) == 0 && s.disk_mounted) ≡ false
    → names_differ (listing s path) ≡ true
unfolding listing
names_differ-listing s path h = elim (Option-cases (on_disk s path)) [
  | inr (rel, d) ↦
      ground
        (arith, d, names_differ-each_once (all_children (disk_direct_child rel) s.disk_entries))
  | inl d ↦
      let files = all_children (direct_child (copy_name (drop_one_slash path))) s.files in
      ground (arith, d, append-nil (each_once files), names_differ-each_once files)
]

names_apart :
    (sts : List VfsStat) (i j : ℕ) (a b : VfsStat)
    → names_differ sts ≡ true
    → i < j
    → get_elem? sts i ≡ some a
    → get_elem? sts j ≡ some b
    → str_eq_local a.name b.name ≡ false
unfolding names_differ
names_apart [] i j a b h lt e f = absurd (cc)
names_apart (st ∷ sts) i zero a b h lt e f = absurd (omega arith)
names_apart (st ∷ sts) zero (suc j) a b h lt e f =
    let out : absent st.name sts ≡ true = ground arith in
    let same : st ≡ a = ground arith in rw (← same) (absent_there st.name sts j b out f)
names_apart (st ∷ sts) (suc i) (suc j) a b h lt e f =
    names_apart sts i j a b (ground arith) (omega arith) e f

-- In a mounted file system, for a path other than the root's or with no disk mounted: two entries that vfs_readdir_path gives for different indices have different names.
pub readdir_names_differ :
    (s : Vfs) (path : List ℕ) (i j : ℕ) (a b : VfsStat)
    → s.mounted ≡ true
    → (length (copy_name (drop_one_slash path)) ≢ 0) ⊎ (s.disk_mounted ≡ false)
    → i ≢ j
    → vfs_readdir_path s path i ≡ some a
    → vfs_readdir_path s path j ≡ some b
    → a.name ≢ b.name
readdir_names_differ s path i j a b m where_ ne e f same =
    let differ =
      names_differ-listing s path
        (elim where_ [ inl below ↦ ground arith | inr none_mounted ↦ ground arith ]) in
    let first = sym (vfs_readdir_path_lem s path i m) ∙ e in
    let second = sym (vfs_readdir_path_lem s path j m) ∙ f in
    let equal : str_eq_local a.name b.name ≡ true =
      ap (str_eq_local a.name) (sym same) ∙ str_eq_local_refl a.name in
    elim (Bool-cases (ltb i j)) [
      | inl lt ↦
          let apart = names_apart (listing s path) i j a b differ (ltb→lt i j lt) first second in cc
      | inr ge ↦
          let apart = names_apart (listing s path) j i b a differ (ground arith) second first in
          let turned = str_eq_local_comm a.name b.name in cc
    ]
