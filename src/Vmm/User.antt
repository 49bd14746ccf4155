-- ===== src/Vmm/User.antt =====
-- vmm_create_user_pml4 of kernel/vmm.c: the root that shares the kernel's tables.
use ore_os.Pmm.{low_reserved_pages}
use ore_os.Vmm.Entry.{IsFrame, zero_absent}
use ore_os.Vmm.Leaf.{entry_for-entry_at, indices-IsWalk, pt_i-lt, root_nonzero}
use ore_os.Vmm.Share.{entry_at-same, user_words, user_words_other, user_words_root}
use ore_os.Vmm.Fresh.{Fresh, new_table_lem}
use ore_os.Base.{
  Bool-cases, List, [], ap, arith, false, if◌then◌else◌, in_range, inl, inr, none, refl, some, sym,
  true, update, ℕ, ◌/◌, ◌<◌, ◌==◌, ◌∙◌, ◌∷◌, ◌≡◌, ◌≢◌, ◌≤◌, ◌⊎◌,
}
use ore_os.Vmm.{
  Vmm, addr_of, entry_for, indices_of, is_present, pd_i, pdpt_i, pml4_i, pt_i, slot,
  vmm_create_user_pml4,
}
use ore_os.Vmm.Tree.{IsTree, IsWalk, Places, below, entry_at, last_places}

module _ (at : Places) (kernel : ℕ) (s : Vmm) (root : ℕ) (t : Vmm) (tree : IsTree at kernel s)
    (fresh : Fresh s root t) where
  user_at : Places
  user_at = update (update at kernel 0) root 1

  done : Vmm
  done = record t { words = user_words kernel root t.words }

  root_new : at root ≡ 0
  root_new = elim (Bool-cases (at root == 0)) [
    | inl z ↦ ground arith
    | inr n ↦ absurd (ground (arith, tree.taken root (ground arith), fresh.was_free))
  ]

  kernel-IsFrame : (kernel ≢ 0) × IsFrame kernel
  kernel-IsFrame = tree.frames kernel (root_nonzero at kernel s tree)

  not_root : (x : ℕ) → at x ≢ 0 → x ≢ root
  not_root x h e = h (ap at e ∙ root_new)

  kept : (x j : ℕ) → at x ≢ 0 → j < 512 → done.words (slot x j) ≡ s.words (slot x j)
  unfolding done
  kept x j h b =
      let (_, (fx, _)) = tree.frames x h in
      let (fr, _) = fresh.frame in
      user_words_other kernel root t.words x j (not_root x h) fx fr b
      ∙ fresh.others x j fx (not_root x h) b

  root_word :
      (j : ℕ)
      → j < 512
      → done.words (slot root j) ≡ (if in_range 1 255 j then 0 else s.words (slot kernel j))
  unfolding done
  root_word j b =
      let (_, (fk, _)) = kernel-IsFrame in
      let (fr, _) = fresh.frame in
      let ne = not_root kernel (root_nonzero at kernel s tree) in
      rw (sym (fresh.others kernel j fk ne b)) (user_words_root kernel root t.words j ne fk fr b)

  kernel-IsTree : IsTree at kernel done
  unfolding done
  kernel-IsTree = record {
    rooted = tree.rooted;
    leads = λ x j h l b p. rw (kept x j h b) (tree.leads x j h l b (rw (kept x j h b) at p));
    frames = tree.frames;
    taken = λ x h. fresh.still_taken (x / 4096) (tree.taken x h);
    valid = fresh.valid;
    physical = omega (arith, fresh.total, tree.physical);
  }

  user_at-cases :
      (x : ℕ) → user_at x ≢ 0 → (x ≡ root) ⊎ (x ≢ kernel) × (at x ≢ 0) × (user_at x ≡ at x)
  unfolding user_at
  user_at-cases x h = elim (Bool-cases (root == x)) [
    | inl e ↦ inl (ground arith)
    | inr n ↦ inr (ground arith, ground arith, ground arith)
  ]

  user_at-below : (x : ℕ) → at x ≢ 0 → at x ≢ 1 → user_at x ≡ at x
  unfolding user_at
  user_at-below x h n =
      let differs : x ≢ kernel = λ e. n (ap at e ∙ tree.rooted) in ground (arith, not_root x h)

  user_at_root : user_at root ≡ 1
  unfolding user_at
  user_at_root = ground arith

  root_shares :
      (j : ℕ)
      → j < 512
      → is_present (done.words (slot root j)) ≡ true
      → (in_range 1 255 j ≡ false) × (done.words (slot root j) ≡ s.words (slot kernel j))
  unfolding is_present
  root_shares j b p = ground (arith, root_word j b)

  root_leads :
      (j : ℕ)
      → j < 512
      → is_present (done.words (slot root j)) ≡ true
      → user_at (addr_of (done.words (slot root j))) ≡ below 1 j
  root_leads j b p =
      let (_, word) = root_shares j b p in
      let placed = root_nonzero at kernel s tree in
      let upper : at kernel < last_places = omega (arith, tree.rooted) in
      let before : at (addr_of (s.words (slot kernel j))) ≡ below 1 j =
        rw tree.rooted at (tree.leads kernel j placed upper b (rw word at p)) in
      rw word (
        user_at-below (addr_of (s.words (slot kernel j))) (omega (arith, before))
          (omega (arith, before))
        ∙ before)

  user_leads :
      (x j : ℕ)
      → user_at x ≢ 0
      → user_at x < last_places
      → j < 512
      → is_present (done.words (slot x j)) ≡ true
      → user_at (addr_of (done.words (slot x j))) ≡ below (user_at x) j
  user_leads x j h l b p = elim (user_at-cases x h) [
    | inl e ↦ rw (e, user_at_root) (root_leads j b (rw e at p))
    | inr (n, old, same) ↦
        let word = kept x j old b in
        let before = tree.leads x j old (rw (sym same) l) b (rw word at p) in
        rw (word, same)
          (user_at-below (addr_of (s.words (slot x j))) (omega (arith, before))
              (omega (arith, before))
            ∙ before)
  ]

  user-IsTree : IsTree user_at root done
  unfolding done user_at
  user-IsTree = record {
    rooted = ground arith;
    leads = user_leads;
    frames = λ x h. elim (user_at-cases x h) [
      | inl e ↦ rw e (fresh.nonzero, fresh.frame)
      | inr (n, old, same) ↦ tree.frames x old
    ];
    taken = λ x h. elim (user_at-cases x h) [
      | inl e ↦ rw e fresh.now_taken
      | inr (n, old, same) ↦ fresh.still_taken (x / 4096) (tree.taken x old)
    ];
    valid = fresh.valid;
    physical = omega (arith, fresh.total, tree.physical);
  }

  kernel_entries : (u : ℕ) → entry_for kernel u done ≡ entry_for kernel u s
  kernel_entries u =
      entry_for-entry_at at kernel done u kernel-IsTree
      ∙ entry_at-same at kernel s done.words tree kept (indices_of u) (pt_i u) kernel
          (root_nonzero at kernel s tree) (indices-IsWalk at kernel s u tree) (pt_i-lt u)
      ∙ sym (entry_for-entry_at at kernel s u tree)

  root_entry :
      (i : ℕ) (is : List ℕ) (j : ℕ)
      → IsWalk (i ∷ is) (at kernel)
      → j < 512
      → entry_at (i ∷ is) j root done.words
        ≡ (if in_range 1 255 i then 0 else entry_at (i ∷ is) j kernel s.words)
  unfolding entry_at
  root_entry i is j (bi, l, w) b = elim (Bool-cases (in_range 1 255 i)) [
    | inl inside ↦
        let word : done.words (slot root i) ≡ 0 = ground (arith, root_word i bi) in
        rw (inside, word, zero_absent) refl
    | inr outside ↦
        let word : done.words (slot root i) ≡ s.words (slot kernel i) =
          ground (arith, root_word i bi) in
        rw (outside, word)
          (elim (Bool-cases (is_present (s.words (slot kernel i)))) [
            | inl p ↦
                let leads_on = tree.leads kernel i (root_nonzero at kernel s tree) l bi p in
                let placed_below : at (addr_of (s.words (slot kernel i))) ≢ 0 =
                  omega (arith, leads_on) in
                rw p (
                  entry_at-same at kernel s done.words tree kept is j
                    (addr_of (s.words (slot kernel i))) placed_below (rw leads_on w) b)
            | inr a ↦ rw a refl
          ])
  ]

  user_entries :
      (u : ℕ)
      → entry_for root u done ≡ (if in_range 1 255 (pml4_i u) then 0 else entry_for kernel u s)
  user_entries u =
      entry_for-entry_at user_at root done u user-IsTree
      ∙ rw (entry_for-entry_at at kernel s u tree) (
          root_entry (pml4_i u) (pdpt_i u ∷ pd_i u ∷ []) (pt_i u)
            (indices-IsWalk at kernel s u tree) (pt_i-lt u))

-- For the kernel's tree of page tables, vmm_create_user_pml4 panics, and then at most the pages of the
-- low megabyte are free, or it gives the root of another tree and keeps the kernel's: no entry of the
-- kernel changes, and the new root has no entry for the addresses of the entries 1 to 255 of the top
-- table, and the kernel's entries for all others.
pub vmm_create_user_pml4_lem :
    (at : Places) (kernel : ℕ) (s : Vmm)
    → IsTree at kernel s
    → (vmm_create_user_pml4 kernel s ≡ none) × (s.pmm.free_page_count ≤ low_reserved_pages)
      ⊎ (root : ℕ) × (t : Vmm) × (at' : Places) × (vmm_create_user_pml4 kernel s ≡ some (root, t))
        × IsTree at' root t
        × IsTree at kernel t
        × ((u : ℕ) → entry_for kernel u t ≡ entry_for kernel u s)
        × ((u : ℕ)
            → entry_for root u t ≡ (if in_range 1 255 (pml4_i u) then 0 else entry_for kernel u s))
unfolding vmm_create_user_pml4 done user_words
vmm_create_user_pml4_lem at kernel s tree = elim (new_table_lem s tree.valid tree.physical) [
  | inl (e, full) ↦ inl (ground (arith, e), full)
  | inr (root, t, e, fresh) ↦ inr (
    root,
    done at kernel s root t tree fresh,
    user_at at kernel s root t tree fresh,
    ground (arith, e),
    user-IsTree at kernel s root t tree fresh,
    kernel-IsTree at kernel s root t tree fresh,
    kernel_entries at kernel s root t tree fresh,
    user_entries at kernel s root t tree fresh,
  )
]
