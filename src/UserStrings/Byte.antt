-- ===== src/UserStrings/Byte.antt =====
-- One byte that copy_to_user of kernel/syscall.c stores, beside the tables of pages.
use ore_os.Base.{ap, arith, sym, ℕ, ◌*◌, ◌/◌, ◌<◌, ◌∙◌, ◌≡◌, ◌≢◌}
use ore_os.Pmm.{bitmap_test}
use ore_os.Vmm.{Vmm, indices_of, pt_i, slot, vmm_virt_to_phys_in}
use ore_os.Vmm.Entry.{IsFrame}
use ore_os.Vmm.Tree.{IsTree, Places}
use ore_os.Vmm.Share.{entry_at-same}
use ore_os.Vmm.Leaf.{entry_for-entry_at, indices-IsWalk, pt_i-lt, root_nonzero}
use ore_os.Vmm.Translate.{translate_same}
use ore_os.UserStrings.{store_byte}

module _ (at : Places) (root : ℕ) where
  -- The byte is in no table of pages.
  abbrev pub IsOutside : (phys : ℕ) → Type 0
  IsOutside phys = at (phys / 4096 * 4096) ≡ 0

  away : (x j phys : ℕ) → IsFrame x → j < 512 → slot x j ≡ phys / 8 * 8 → phys / 4096 * 4096 ≡ x
  away x j phys (aligned, small) l e = omega arith

  table_kept :
      (s : Vmm) (phys b x j : ℕ)
      → IsTree at root s
      → IsOutside phys
      → at x ≢ 0
      → j < 512
      → (store_byte phys b s).words (slot x j) ≡ s.words (slot x j)
  unfolding store_byte
  table_kept s phys b x j tree outside h l =
      let frame = (tree.frames x h).1 in
      let other : slot x j ≢ phys / 8 * 8 =
        λ e. h (ap at (sym (away x j phys frame l e)) ∙ outside) in
      ground (arith, other)

  pub store_byte-IsTree :
      (s : Vmm) (phys b : ℕ)
      → IsTree at root s
      → IsOutside phys
      → IsTree at root (store_byte phys b s)
  unfolding store_byte bitmap_test
  store_byte-IsTree s phys b tree outside = record {
    rooted = tree.rooted;
    leads = λ x j h l k p.
        let same = table_kept s phys b x j tree outside h k in
        rw same (tree.leads x j h l k (rw same at p));
    frames = tree.frames;
    taken = tree.taken;
    valid = record {
      bytes = tree.valid.bytes;
      counted = tree.valid.counted;
      summed = tree.valid.summed;
      small = tree.valid.small;
    };
    physical = tree.physical;
  }

  -- A byte that is stored beside the tables changes no translation.
  pub store_byte-translation :
      (s : Vmm) (phys b v : ℕ)
      → IsTree at root s
      → IsOutside phys
      → vmm_virt_to_phys_in root v (store_byte phys b s) ≡ vmm_virt_to_phys_in root v s
  store_byte-translation s phys b v tree outside =
      let t = store_byte phys b s in
      let tree' = store_byte-IsTree s phys b tree outside in
      translate_same root v t s (
        entry_for-entry_at at root t v tree'
        ∙ entry_at-same at root s t.words tree (λ x j h l. table_kept s phys b x j tree outside h l)
            (indices_of v) (pt_i v) root (root_nonzero at root s tree)
            (indices-IsWalk at root s v tree) (pt_i-lt v)
        ∙ sym (entry_for-entry_at at root s v tree))
