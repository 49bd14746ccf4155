-- ===== src/Vmm/Pages.antt =====
-- Pages of the allocator that become no tables of kernel/vmm.c: no entry changes.
use ore_os.Base.{List, [], arith, false, some, ℕ, ◌/◌, ◌∷◌, ◌≡◌}
use ore_os.Pmm.{Pmm}
use ore_os.Pmm.Invariant.{IsValid}
use ore_os.Pmm.Alloc.{Taken}
use ore_os.Vmm.{Vmm, addr_of, descend, entry_for, indices_of, next_table, pte_for_root, slot}
use ore_os.Vmm.Tree.{IsTree, Places}
use ore_os.Vmm.Walk.{descend_read}
use ore_os.Vmm.Leaf.{indices-IsWalk, root_nonzero}

-- The pages that are taken are no tables, and the tree stays.
pub alloc-IsTree :
    (at : Places) (root count addr : ℕ) (s : Vmm) (p : Pmm)
    → IsTree at root s
    → Taken s.pmm p count addr
    → IsValid p
    → IsTree at root (record s { pmm = p })
alloc-IsTree at root count addr s p tree taken valid = record {
  rooted = tree.rooted;
  leads = tree.leads;
  frames = tree.frames;
  taken = λ x h. ground (arith, tree.taken x h, taken.bits (x / 4096));
  valid = valid;
  physical = omega (arith, taken.total, tree.physical);
}

-- A walk that makes no table reads no state of the page allocator.
descend_words :
    (is : List ℕ) (table flags : ℕ) (s : Vmm) (p : Pmm) (last : ℕ)
    → descend is table false flags s ≡ some (last, s)
    → descend is table false flags (record s { pmm = p }) ≡ some (last, record s { pmm = p })
unfolding descend next_table
descend_words [] table flags s p last e = ground arith
descend_words (i ∷ is) table flags s p last e =
    ground (arith, descend_words is (addr_of (s.words (slot table i))) flags s p last)

pub entry_for-pmm :
    (at : Places) (root v : ℕ) (s : Vmm) (p : Pmm)
    → IsTree at root s
    → entry_for root v (record s { pmm = p }) ≡ entry_for root v s
unfolding entry_for pte_for_root
entry_for-pmm at root v s p tree =
    let read =
      descend_read at root s tree (indices_of v) root 0 (root_nonzero at root s tree)
        (indices-IsWalk at root s v tree) in
    let same = descend_words (indices_of v) root 0 s p _ read in ground (arith, read, same)
