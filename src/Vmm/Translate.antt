-- ===== src/Vmm/Translate.antt =====
-- vmm_virt_to_phys_in of kernel/vmm.c after map_in_root and unmap_in_root.
use ore_os.Vmm.Change.{unmap_in_root_lem}
use ore_os.Base.{
  Bool-cases, add64, arith, false, if◌then◌else◌, in_range, inl, inr, none, refl, some, true, ℕ,
  ◌%◌, ◌*◌, ◌+◌, ◌-◌, ◌/◌, ◌<◌, ◌^◌, ◌∙◌, ◌≡◌, ◌≤◌, ◌⊎◌,
}
use ore_os.Pmm.{low_reserved_pages}
use ore_os.Vmm.{
  Vmm, addr_of, align_page_up, entry_for, is_present, map_in_root, page_of, page_rounds,
  unmap_in_root, vmm_flags, vmm_virt_to_phys_in,
}
use ore_os.Vmm.Entry.{IsFlags, addr_of-IsFrame, or_page, page_entry_lem}
use ore_os.Vmm.Tree.{IsTree, Places}
use ore_os.Vmm.Leaf.{page_number}
use ore_os.Vmm.Map.{frames_from, map_in_root_lem, regions}

pub translate_present :
    (root v : ℕ) (s : Vmm) (entry : ℕ)
    → entry_for root v s ≡ entry
    → is_present entry ≡ true
    → vmm_virt_to_phys_in root v s ≡ addr_of entry + v % 4096
unfolding vmm_virt_to_phys_in
translate_present root v s entry e p =
    let frame = addr_of-IsFrame entry in
    rw (e, p) (or_page (addr_of entry) (v % 4096) (omega arith) (omega arith))

pub translate_absent :
    (root v : ℕ) (s : Vmm) → entry_for root v s ≡ 0 → vmm_virt_to_phys_in root v s ≡ 0
unfolding vmm_virt_to_phys_in is_present
translate_absent root v s e = ground (arith, e)

pub translate_missing :
    (root v : ℕ) (s : Vmm)
    → is_present (entry_for root v s) ≡ false
    → vmm_virt_to_phys_in root v s ≡ 0
unfolding vmm_virt_to_phys_in is_present
translate_missing root v s a = ground (arith, a)

flags_absent : (root v : ℕ) (s : Vmm) → entry_for root v s ≡ 0 → vmm_flags root v s ≡ 0
unfolding vmm_flags is_present
flags_absent root v s e = ground (arith, e)

pub translate_same :
    (root v : ℕ) (s t : Vmm)
    → entry_for root v s ≡ entry_for root v t
    → vmm_virt_to_phys_in root v s ≡ vmm_virt_to_phys_in root v t
unfolding vmm_virt_to_phys_in
translate_same root v s t e = rw e refl

flags_same :
    (root v : ℕ) (s t : Vmm)
    → entry_for root v s ≡ entry_for root v t
    → vmm_flags root v s ≡ vmm_flags root v t
unfolding vmm_flags
flags_same root v s t e = rw e refl

page_in_range :
    (virt size v : ℕ)
    → virt + size ≤ 2 ^ 48 - 4096
    → virt ≤ v
    → v < virt + size
    → (in_range (page_number virt) (page_rounds virt size) (page_number v) ≡ true)
      × (page_number v - page_number virt ≡ (v - page_of virt) / 4096)
unfolding page_rounds page_of align_page_up
page_in_range virt size v h lo hi = (ground arith, omega arith)

frames_from_addr :
    (phys flags k : ℕ)
    → IsFlags flags
    → phys + 4096 * k < 2 ^ 52
    → (is_present (frames_from (page_of phys) flags k) ≡ true)
      × (addr_of (frames_from (page_of phys) flags k) ≡ page_of phys + 4096 * k)
unfolding page_of addr_of
frames_from_addr phys flags k f h =
    let (present, address) = page_entry_lem (add64 (phys / 4096 * 4096) (4096 * k)) flags f in
    (present, omega (arith, address))

offset :
    (virt v phys a k : ℕ)
    → a ≡ page_of phys + 4096 * k
    → k ≡ (v - page_of virt) / 4096
    → virt ≤ v
    → a + v % 4096 ≡ page_of phys + (v - page_of virt)
unfolding page_of
offset virt v phys a k ea ek lo = omega arith

-- In a tree of page tables, for a range of addresses that ends below 2^48 by at least a page, physical
-- addresses that end below 2^52 by a page, and flags of an entry: map_in_root panics, and then at most
-- the pages of the low megabyte and three for each region of 512 pages up to the end of the range are
-- free, or it returns 0, and then vmm_virt_to_phys_in translates every address of the range to the page
-- of `phys` and the distance from the page of `virt`.
pub translate-map :
    (at : Places) (root virt phys size flags : ℕ) (s : Vmm)
    → IsTree at root s
    → virt + size ≤ 2 ^ 48 - 4096
    → phys + size ≤ 2 ^ 52 - 4096
    → IsFlags flags
    → (map_in_root root virt phys size flags s ≡ none)
        × (s.pmm.free_page_count
            ≤ low_reserved_pages + 3 * regions (virt / 4096) (page_rounds virt size))
      ⊎ (t : Vmm) × (map_in_root root virt phys size flags s ≡ some (true, t))
        × ((v : ℕ)
            → virt ≤ v
            → v < virt + size
            → vmm_virt_to_phys_in root v t ≡ page_of phys + (v - page_of virt))
translate-map at root virt phys size flags s tree h hp f =
    elim (map_in_root_lem at root virt phys size flags s tree h (omega arith)) [
      | inl stop ↦ inl stop
      | inr (t, at', e, tree', changed, free, total) ↦ inr (
        t,
        e,
        λ v lo hi.
            let (inside, distance) = page_in_range virt size v h lo hi in
            let k = page_number v - page_number virt in
            let (present, address) = frames_from_addr phys flags k f (omega (arith, distance)) in
            let entry : entry_for root v t ≡ frames_from (page_of phys) flags k =
              rw inside at (changed v) in
            translate_present root v t (frames_from (page_of phys) flags k) entry present
            ∙ offset virt v phys (addr_of (frames_from (page_of phys) flags k)) k address distance
                lo,
      )
    ]

-- After unmap_in_root, vmm_virt_to_phys_in and vmm_flags give 0 for every address of the range, and what
-- they gave for the addresses of every other page.
pub translate-unmap :
    (at : Places) (root virt size : ℕ) (s : Vmm)
    → IsTree at root s
    → virt + size ≤ 2 ^ 48 - 4096
    → (t : Vmm) × (unmap_in_root root virt size s ≡ some t)
      × ((v : ℕ)
          → let inside = in_range (page_number virt) (page_rounds virt size) (page_number v) in
            (vmm_virt_to_phys_in root v t ≡ (if inside then 0 else vmm_virt_to_phys_in root v s))
            × (vmm_flags root v t ≡ (if inside then 0 else vmm_flags root v s)))
translate-unmap at root virt size s tree h =
    let (t, e, tree', changed, kept) = unmap_in_root_lem at root virt size s tree h in
    (
      t,
      e,
      λ v. elim (Bool-cases (in_range (page_number virt) (page_rounds virt size) (page_number v))) [
        | inl i ↦
            let absent : entry_for root v t ≡ 0 = rw i at (changed v) in
            rw i (translate_absent root v t absent, flags_absent root v t absent)
        | inr o ↦
            let same : entry_for root v t ≡ entry_for root v s = rw o at (changed v) in
            rw o (translate_same root v t s same, flags_same root v t s same)
      ],
    )
