-- ===== src/Vmm/Init/Whole.antt =====
-- vmm_init of kernel/vmm.c, all of it.
use ore_os.Base.{
  Option, arith, if◌then◌else◌, inl, inr, mul64, none, refl, some, update, ℕ, ◌*◌, ◌+◌, ◌-◌, ◌<◌,
  ◌==◌, ◌>>=◌, ◌^◌, ◌||◌, ◌∙◌, ◌≡◌, ◌≤◌, ◌⊎◌,
}
use ore_os.Boot.{BootInfo}
use ore_os.Acpi.{Acpi}
use ore_os.Pmm.{low_reserved_pages}
use ore_os.Pmm.Invariant.{IsValid}
use ore_os.Vmm.{Vmm, entry_for, is_present, vmm_nx, vmm_virt_to_phys_in, vmm_write}
use ore_os.Vmm.Init.{fb_size, map_or_panic, vmm_init}
use ore_os.Vmm.Init.Identity.{Online, Stage, identity_map, Stage-optional, tables_of}
use ore_os.Vmm.Entry.{IsFlags}
use ore_os.Vmm.Tree.{IsTree, Places}
use ore_os.Vmm.Fresh.{Fresh, new_table_lem}
use ore_os.Vmm.Translate.{translate_present}

-- The tree of the new root alone.
root-IsTree :
    (s : Vmm) (root : ℕ) (t : Vmm)
    → s.pmm.total_page_count ≤ 2 ^ 40
    → Fresh s root t
    → IsTree (update (λ x. 0) root 1) root t
unfolding is_present
root-IsTree s root t small fresh = record {
  rooted = ground arith;
  leads = λ x j h l b p. absurd (ground (arith, fresh.empty j b));
  frames = λ x h. let same : x ≡ root = ground arith in rw same (fresh.nonzero, fresh.frame);
  taken = λ x h. let same : x ≡ root = ground arith in rw same fresh.now_taken;
  valid = fresh.valid;
  physical = omega (arith, fresh.total);
}

pub write_nx : IsFlags (vmm_write + vmm_nx)
write_nx = record { low = omega arith; word = omega arith }

-- The page tables and the tables of the frame buffer and of the local APIC that vmm_init may need.
pub init_pages : BootInfo → Acpi → (total : ℕ) → ℕ
unfolding tables_of fb_size
init_pages boot_info acpi total =
    1
    + tables_of 0 (total * 4096)
    + tables_of boot_info.framebuffer.base (fb_size boot_info.framebuffer)
    + tables_of acpi.lapic_base_value 4096

pub Stage-bind :
    (root n : ℕ) (s : Vmm) (result : Option Vmm) (next : Vmm → Option Vmm) (k l : ℕ)
    → Stage root n s result k
    → ((t : Vmm) (at : Places) → Online at root n t → Stage root n t (next t) l)
    → Stage root n s (result >>= next) (k + l)
unfolding Stage
Stage-bind root n s result next k l first later = elim first [
  | inl (e, full) ↦ inl (rw e refl, omega arith)
  | inr (t, at, e, on, free, total) ↦ rw e (elim (later t at on) [
    | inl (e', full) ↦ inl (e', omega arith)
    | inr (u, at', e', on', free', total') ↦ inr (u, at', e', on', omega arith, total' ∙ total)
  ])
]

-- The maps of vmm_init after the new root.
init_stages : BootInfo → Acpi → (root total : ℕ) → Vmm → Option Vmm
init_stages boot_info acpi root total t =
    let fb = boot_info.framebuffer in
    (map_or_panic root 0 (mul64 total 4096) vmm_write t >>= λ t.
    if fb.base == 0 || fb.width == 0 || fb.height == 0
    then some t
    else map_or_panic root fb.base (fb_size fb) (vmm_write + vmm_nx) t)
    >>= λ t.
        if acpi.lapic_base_value == 0
        then some t
        else map_or_panic root acpi.lapic_base_value 4096 (vmm_write + vmm_nx) t

init_stages_lem :
    (boot_info : BootInfo) (acpi : Acpi) (at : Places) (root total : ℕ) (s : Vmm)
    → IsTree at root s
    → total * 4096 ≤ 2 ^ 48 - 4096
    → boot_info.framebuffer.base + fb_size boot_info.framebuffer ≤ 2 ^ 48 - 4096
    → acpi.lapic_base_value + 4096 ≤ 2 ^ 48 - 4096
    → Stage root total s (init_stages boot_info acpi root total s) (
        tables_of 0 (total * 4096)
        + tables_of boot_info.framebuffer.base (fb_size boot_info.framebuffer)
        + tables_of acpi.lapic_base_value 4096)
unfolding init_stages
init_stages_lem boot_info acpi at root total s tree ht hf hl =
    Stage-bind root total s _ _ _ _
      (Stage-bind root total s _ _ _ _ (identity_map at root total s tree ht)
        (λ t at' on. Stage-optional at' root total _ _ _ _ t on hf write_nx))
      (λ t at' on. Stage-optional at' root total _ _ _ _ t on hl write_nx)

-- For memory, a frame buffer and a local APIC below 2^48 by a page, vmm_init panics, and then at most
-- the pages of the low megabyte, the root and the tables that it may need are free, or it gives a tree
-- of page tables in which every page of memory has a present entry with its own address, and takes no
-- more pages than that.
pub vmm_init_lem :
    (boot_info : BootInfo) (acpi : Acpi) (s : Vmm)
    → IsValid s.pmm
    → s.pmm.total_page_count * 4096 ≤ 2 ^ 48 - 4096
    → boot_info.framebuffer.base + fb_size boot_info.framebuffer ≤ 2 ^ 48 - 4096
    → acpi.lapic_base_value + 4096 ≤ 2 ^ 48 - 4096
    → (vmm_init boot_info acpi s ≡ none)
        × (s.pmm.free_page_count
            ≤ low_reserved_pages + init_pages boot_info acpi s.pmm.total_page_count)
      ⊎ (root : ℕ) × (t : Vmm) × (at : Places) × (vmm_init boot_info acpi s ≡ some (root, t))
        × Online at root s.pmm.total_page_count t
        × (s.pmm.free_page_count
            ≤ t.pmm.free_page_count + init_pages boot_info acpi s.pmm.total_page_count)
        × (t.pmm.total_page_count ≡ s.pmm.total_page_count)
unfolding vmm_init Stage init_pages init_stages
vmm_init_lem boot_info acpi s v total fb lapic = elim (new_table_lem s v (omega arith)) [
  | inl (e, full) ↦ inl (ground (arith, e), omega arith)
  | inr (root, t, e, fresh) ↦
      elim (init_stages_lem boot_info acpi (update (λ x. 0) root 1) root s.pmm.total_page_count t
        (root-IsTree s root t (omega arith) fresh) total fb lapic) [
          | inl (e', full) ↦ inl (ground (arith, e, e', fresh.total), omega (arith, fresh.free))
          | inr (u, at, e', on, free, total') ↦ inr (
            root,
            u,
            at,
            ground (arith, e, e', fresh.total),
            on,
            omega (arith, free, fresh.free),
            total' ∙ fresh.total,
          )
        ]
]

-- Where every page of memory has its own address, addresses of memory translate to themselves.
pub Online-translate :
    (at : Places) (root n : ℕ) (s : Vmm) (u : ℕ)
    → Online at root n s
    → n * 4096 ≤ 2 ^ 48
    → u < n * 4096
    → vmm_virt_to_phys_in root u s ≡ u
Online-translate at root n s u on h b =
    let (present, address) = on.identity u (omega arith) in
    translate_present root u s (entry_for root u s) refl present ∙ omega (arith, address)
