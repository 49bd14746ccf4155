-- ===== src/Vfs/Calls/Listing.antt =====
-- vfs_readdir_path of kernel/vfs.c as the list of the children of a directory.
use ore_os.Base.{
  Bool-cases, List, Option, Option-cases, [], ap, arith, false, get_elem?, if◌then◌else◌, inl, inr,
  length, none, refl, some, suc, sym, true, zero, ℕ, ◌++◌, ◌+◌, ◌==◌, ◌||◌, ◌∷◌, ◌≡◌,
}
use ore_os.Vfs.{VfsStat, str_eq_local}
use ore_os.Vfs.Names.{str_eq_local_comm}
use ore_os.Vfs.Calls.{is_duplicate, is_new, list_children}

-- The entries of a list whose name is not `name`.
unfoldable pub others : List ℕ → List VfsStat → List VfsStat
others name [] = []
others name (st ∷ sts) =
    let rest = others name sts in if str_eq_local name st.name then rest else st ∷ rest

-- Each name once, where it first stands.
unfoldable pub each_once : List VfsStat → List VfsStat
each_once [] = []
each_once (st ∷ sts) = st ∷ others st.name (each_once sts)

-- A new child is the one that is looked for, or the loop goes on.
found_or_later :
    (here : Option VfsStat) (st : VfsStat) (later : Option VfsStat × ℕ) (rest : List VfsStat)
    (index emitted k : ℕ)
    → here ≡ some st
    → index ≡ emitted + k
    → ((j : ℕ)
        → index ≡ emitted + 1 + j
        → (later.0 ≡ get_elem? rest j) × (later.0 ≡ none → later.1 ≡ emitted + 1 + length rest))
    → let (found, passed) = if emitted == index then (here, emitted + 1) else later in
      (found ≡ get_elem? (st ∷ rest) k) × (found ≡ none → passed ≡ emitted + length (st ∷ rest))
found_or_later here st later rest index emitted zero s h ih =
    let same : (emitted == index) ≡ true = ground arith in rw same (s, λ n. absurd (cc))
found_or_later here st later rest index emitted (suc k) s h ih =
    let other : (emitted == index) ≡ false = ground arith in
    let (found, passed) = ih k (omega arith) in rw other (found, λ n. omega (arith, passed n))

module _ {A : Type 0} (child : A → Option VfsStat) where
  -- The children of all entries.
  unfoldable pub all_children : List A → List VfsStat
  all_children [] = []
  all_children (e ∷ es) = elim (child e) [ none ↦ all_children es | some st ↦ st ∷ all_children es ]

  -- The list without the names of some entries.
  without_names : List A → List VfsStat → List VfsStat
  without_names before [] = []
  without_names before (st ∷ sts) =
      let rest = without_names before sts in
      if is_duplicate child st.name before then rest else st ∷ rest

  without_none : (sts : List VfsStat) → without_names [] sts ≡ sts
  unfolding without_names is_duplicate
  without_none [] = refl
  without_none (st ∷ sts) = ap (λ r. st ∷ r) (without_none sts)

  is_duplicate-snoc :
      (name : List ℕ) (before : List A) (e : A)
      → is_duplicate child name (before ++ e ∷ [])
        ≡ (is_duplicate child name before || is_duplicate child name (e ∷ []))
  unfolding is_duplicate
  is_duplicate-snoc name [] e = refl
  is_duplicate-snoc name (b ∷ bs) e = ground (arith, is_duplicate-snoc name bs e)

  without_names-none :
      (before : List A) (e : A) (sts : List VfsStat)
      → child e ≡ none
      → without_names (before ++ e ∷ []) sts ≡ without_names before sts
  unfolding without_names is_duplicate
  without_names-none before e [] h = refl
  without_names-none before e (st ∷ sts) h =
      ground (arith, is_duplicate-snoc st.name before e, without_names-none before e sts h)

  without_names-some :
      (before : List A) (e : A) (st : VfsStat) (sts : List VfsStat)
      → child e ≡ some st
      → without_names (before ++ e ∷ []) sts ≡ without_names before (others st.name sts)
  unfolding without_names is_duplicate others
  without_names-some before e st [] h = refl
  without_names-some before e st (x ∷ sts) h = ground (
    arith,
    is_duplicate-snoc x.name before e,
    str_eq_local_comm x.name st.name,
    without_names-some before e st sts h,
  )

  -- What is listed of the entries `es` when `before` have been seen.
  listed : (before es : List A) → List VfsStat
  listed before es = without_names before (each_once (all_children es))

  children-none : (e : A) (es : List A) → child e ≡ none → all_children (e ∷ es) ≡ all_children es
  unfolding all_children
  children-none e es n = rw (n, all_children) refl

  children-some :
      (e : A) (es : List A) (st : VfsStat)
      → child e ≡ some st
      → all_children (e ∷ es) ≡ st ∷ all_children es
  unfolding all_children
  children-some e es st s = rw (s, all_children) refl

  listed-none :
      (before : List A) (e : A) (es : List A)
      → child e ≡ none
      → listed before (e ∷ es) ≡ listed (before ++ e ∷ []) es
  unfolding listed
  listed-none before e es n =
      rw (children-none e es n) (sym (without_names-none before e (each_once (all_children es)) n))

  listed-some :
      (before : List A) (e : A) (es : List A) (st : VfsStat)
      → child e ≡ some st
      → listed before (e ∷ es) ≡ (
          if is_duplicate child st.name before
          then listed (before ++ e ∷ []) es
          else st ∷ listed (before ++ e ∷ []) es)
  unfolding listed each_once without_names
  listed-some before e es st s =
      rw (children-some e es st s, without_names-some before e st (each_once (all_children es)) s)
        refl

  skip :
      (before : List A) (e : A) (es : List A) (index emitted : ℕ)
      → is_new child (child e) before ≡ false
      → list_children child before (e ∷ es) index emitted
        ≡ list_children child (before ++ e ∷ []) es index emitted
  unfolding list_children
  skip before e es index emitted n = rw n refl

  take_next :
      (before : List A) (e : A) (es : List A) (index emitted : ℕ)
      → is_new child (child e) before ≡ true
      → list_children child before (e ∷ es) index emitted ≡ (
          if emitted == index
          then (child e, emitted + 1)
          else list_children child (before ++ e ∷ []) es index (emitted + 1))
  unfolding list_children
  take_next before e es index emitted n = rw n refl

  nothing :
      (before : List A) (index emitted k : ℕ)
      → let (found, passed) = list_children child before [] index emitted in
        (found ≡ get_elem? (listed before []) k)
        × (found ≡ none → passed ≡ emitted + length (listed before []))
  unfolding list_children listed all_children each_once without_names
  nothing before index emitted k = (refl, λ n. omega arith)

  -- What the loop of vfs_readdir_path finds, and how many children it passes when it finds none.
  list_children_lem :
      (before es : List A) (index emitted k : ℕ)
      → index ≡ emitted + k
      → let (found, passed) = list_children child before es index emitted in
        (found ≡ get_elem? (listed before es) k)
        × (found ≡ none → passed ≡ emitted + length (listed before es))
  unfolding is_new
  list_children_lem before [] index emitted k h = nothing before index emitted k
  list_children_lem before (e ∷ es) index emitted k h = elim (Option-cases (child e)) [
    | inl n ↦
        rw (listed-none before e es n, skip before e es index emitted (ground (arith, n)))
          (list_children_lem (before ++ e ∷ []) es index emitted k h)
    | inr (st, s) ↦ elim (Bool-cases (is_duplicate child st.name before)) [
      | inl d ↦
          rw
            (listed-some before e es st s, skip before e es index emitted (ground (arith, s, d)), d)
            (list_children_lem (before ++ e ∷ []) es index emitted k h)
      | inr d ↦
          rw
            (
              listed-some before e es st s,
              take_next before e es index emitted (ground (arith, s, d)),
              d,
            )
            (found_or_later (child e) st
              (list_children child (before ++ e ∷ []) es index (emitted + 1))
              (listed (before ++ e ∷ []) es) index emitted k s h
              (λ j hj. list_children_lem (before ++ e ∷ []) es index (emitted + 1) j hj))
    ]
  ]

  pub whole_list :
      (es : List A) (index : ℕ)
      → let (found, passed) = list_children child [] es index 0 in
        let all = each_once (all_children es) in
        (found ≡ get_elem? all index) × (found ≡ none → passed ≡ length all)
  unfolding listed
  whole_list es index =
      let (found, passed) = list_children_lem [] es index 0 index (omega arith) in
      let same = without_none (each_once (all_children es)) in
      (rw same at found, λ n. omega (arith, passed n, ap (λ (sts : List VfsStat). length sts) same))
