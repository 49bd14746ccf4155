-- ===== src/Vfs/Calls/Short.antt =====
-- Names that vfs_readdir_path of kernel/vfs.c passes on: they fit in the 128 bytes of a VfsStat, and
-- each stands once.
use ore_os.Base.{
  Bool, Bool-cases, List, Option, Option-cases, [], ap, arith, false, get_elem?, inl, inr, leb,
  length, min, not, refl, some, suc, sym, take, true, zero, ℕ, ◌&&◌, ◌==◌, ◌∷◌, ◌≡◌, ◌≤◌,
}
use ore_os.Vfs.{
  FileView, OreFsEntry, VfsStat, char_at, child_len, child_of, copy_name, copy_name_len,
  direct_child, disk_direct_child, rel_to, slash, str_eq_local,
}
use ore_os.Vfs.Calls.{copy_stat}
use ore_os.Vfs.Calls.Listing.{all_children, each_once, others}

-- Every name has at most 127 characters.
pub all_short : List VfsStat → Bool
all_short [] = true
all_short (st ∷ sts) = leb (length st.name) 127 && all_short sts

-- No entry has the name.
unfoldable pub absent : List ℕ → List VfsStat → Bool
absent name [] = true
absent name (st ∷ sts) = not (str_eq_local name st.name) && absent name sts

-- No two entries have the same name.
unfoldable pub names_differ : List VfsStat → Bool
names_differ [] = true
names_differ (st ∷ sts) = absent st.name sts && names_differ sts

length-take_le : (n : ℕ) (xs : List ℕ) → length (take n xs) ≤ n
length-take_le zero xs = omega arith
length-take_le (suc n) [] = omega arith
length-take_le (suc n) (x ∷ xs) = omega (arith, length-take_le n xs)

pub take_all : (n : ℕ) (xs : List ℕ) → length xs ≤ n → take n xs ≡ xs
take_all zero [] h = refl
take_all zero (x ∷ xs) h = absurd (omega arith)
take_all (suc n) [] h = refl
take_all (suc n) (x ∷ xs) h = ap (λ r. x ∷ r) (take_all n xs (omega arith))

child_of-short :
    (rel : List ℕ) (kind size : ℕ) (st : VfsStat)
    → child_of rel kind size ≡ some st
    → length st.name ≤ 127
unfolding child_of copy_name_len
child_of-short [] kind size st e = absurd (ground arith)
child_of-short (c ∷ cs) kind size st e =
    let le = length-take_le (min 127 (child_len (c ∷ cs))) (c ∷ cs) in
    elim (Bool-cases (char_at (c ∷ cs) (child_len (c ∷ cs)) == slash)) [
      | inl b ↦ ground (arith, le)
      | inr b ↦ ground (arith, le)
    ]

absent-others :
    (name other : List ℕ) (sts : List VfsStat)
    → absent name sts ≡ true
    → absent name (others other sts) ≡ true
unfolding absent others
absent-others name other [] h = refl
absent-others name other (st ∷ sts) h = ground (arith, absent-others name other sts)

absent_others_same : (name : List ℕ) (sts : List VfsStat) → absent name (others name sts) ≡ true
unfolding absent others
absent_others_same name [] = refl
absent_others_same name (st ∷ sts) = ground (arith, absent_others_same name sts)

names_differ-others :
    (name : List ℕ) (sts : List VfsStat)
    → names_differ sts ≡ true
    → names_differ (others name sts) ≡ true
unfolding names_differ others
names_differ-others name [] h = refl
names_differ-others name (st ∷ sts) h =
    ground (arith, names_differ-others name sts, absent-others st.name name sts)

pub names_differ-each_once : (sts : List VfsStat) → names_differ (each_once sts) ≡ true
unfolding names_differ each_once
names_differ-each_once [] = refl
names_differ-each_once (st ∷ sts) = ground (
  arith,
  absent_others_same st.name (each_once sts),
  names_differ-others st.name (each_once sts) (names_differ-each_once sts),
)

all_short-others :
    (name : List ℕ) (sts : List VfsStat) → all_short sts ≡ true → all_short (others name sts) ≡ true
unfolding all_short others
all_short-others name [] h = refl
all_short-others name (st ∷ sts) h = ground (arith, all_short-others name sts)

all_short-each_once : (sts : List VfsStat) → all_short sts ≡ true → all_short (each_once sts) ≡ true
unfolding all_short each_once
all_short-each_once [] h = refl
all_short-each_once (st ∷ sts) h =
    ground (arith, all_short-each_once sts, all_short-others st.name (each_once sts))

abbrev with_name : VfsStat → List ℕ → VfsStat
with_name st name = record st { name = name }

-- A short name is copied whole.
pub copy_stat_short :
    (sts : List VfsStat) (k : ℕ) (st : VfsStat)
    → all_short sts ≡ true
    → get_elem? sts k ≡ some st
    → copy_stat st ≡ st
unfolding all_short copy_name
copy_stat_short [] k st h e = absurd (cc)
copy_stat_short (x ∷ sts) zero st h e =
    let same : x ≡ st = ground arith in
    let le : length x.name ≤ 127 = ground arith in
    rw (sym same) (ap (with_name x) (take_all 127 x.name le))
copy_stat_short (x ∷ sts) (suc k) st h e = copy_stat_short sts k st (ground arith) e

module _ {A : Type 0} (child : A → Option VfsStat)
    (short : (e : A) (st : VfsStat) → child e ≡ some st → length st.name ≤ 127) where
  all_short-all_children : (es : List A) → all_short (all_children child es) ≡ true
  unfolding all_short all_children
  all_short-all_children [] = refl
  all_short-all_children (e ∷ es) = elim (Option-cases (child e)) [
    | inl n ↦ rw (n, all_children) (all_short-all_children es)
    | inr (st, s) ↦
        let fits = short e st s in rw (s, all_children) (ground (arith, all_short-all_children es))
  ]

  pub all_short-listing : (es : List A) → all_short (each_once (all_children child es)) ≡ true
  all_short-listing es = all_short-each_once (all_children child es) (all_short-all_children es)

pub direct_child-short :
    (dir : List ℕ) (file : FileView) (st : VfsStat)
    → direct_child dir file ≡ some st
    → length st.name ≤ 127
unfolding direct_child
direct_child-short dir file st e =
    ground (arith, child_of-short (rel_to file.name dir) file.kind file.size st)

pub disk_direct_child-short :
    (dir : List ℕ) (entry : OreFsEntry) (st : VfsStat)
    → disk_direct_child dir entry ≡ some st
    → length st.name ≤ 127
unfolding disk_direct_child
disk_direct_child-short dir entry st e =
    ground (arith, child_of-short (rel_to entry.name dir) entry.kind entry.size st)

pub absent_there :
    (name : List ℕ) (sts : List VfsStat) (k : ℕ) (b : VfsStat)
    → absent name sts ≡ true
    → get_elem? sts k ≡ some b
    → str_eq_local name b.name ≡ false
unfolding absent
absent_there name [] k b h e = absurd (cc)
absent_there name (st ∷ sts) zero b h e =
    let same : st ≡ b = ground arith in rw (← same) (ground arith)
absent_there name (st ∷ sts) (suc k) b h e = absent_there name sts k b (ground arith) e
