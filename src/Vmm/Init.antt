-- ===== src/Vmm/Init.antt =====
-- vmm_init and vmm_self_test of kernel/vmm.c.
pub mod Identity
pub mod Whole
pub mod SelfTest
use ore_os.Pmm.{alloc_page, free_page}
use ore_os.Base.{Bool, Option, if◌then◌else◌, mul64, none, not, some, ℕ, ◌+◌, ◌==◌, ◌>>=◌, ◌||◌}
use ore_os.Boot.{BootInfo, Framebuffer}
use ore_os.Acpi.{Acpi}
use ore_os.Vmm.{Vmm, map_in_root, new_table, unmap_in_root, vmm_nx, vmm_virt_to_phys_in, vmm_write}

-- A call of vmm_map that panics where it fails.
pub map_or_panic : (root base size flags : ℕ) → Vmm → Option Vmm
unfolding map_in_root
map_or_panic root base size flags s = elim (map_in_root root base base size flags s) [
  | none ↦ none
  | some (ok, t) ↦ if ok then some t else none
]

unfoldable pub fb_size : Framebuffer → ℕ
fb_size fb = mul64 (mul64 fb.pixels_per_scanline fb.height) 4

-- vmm_init up to the write of CR3: the kernel's root and the state.
pub vmm_init : BootInfo → Acpi → Vmm → Option (ℕ × Vmm)
unfolding new_table map_or_panic fb_size
vmm_init boot_info acpi s = do
  (kernel_pml4, t) ← new_table s
  t ← map_or_panic kernel_pml4 0 (mul64 t.pmm.total_page_count 4096) vmm_write t
  let fb = boot_info.framebuffer
  t ←
      if fb.base == 0 || fb.width == 0 || fb.height == 0
      then some t
      else map_or_panic kernel_pml4 fb.base (fb_size fb) (vmm_write + vmm_nx) t
  t ←
      if acpi.lapic_base_value == 0
      then some t
      else map_or_panic kernel_pml4 acpi.lapic_base_value 4096 (vmm_write + vmm_nx) t
  some (kernel_pml4, t)

-- A check that panics where it fails.
abbrev pub panic_unless {ℓ} : {A : Type ℓ} → Bool → A → Option A
panic_unless ok a = if ok then some a else none

-- vmm_self_test, where `root` is in CR3.
pub vmm_self_test : BootInfo → (root : ℕ) → Vmm → Option Vmm
vmm_self_test boot_info root s = do
  s ← panic_unless (vmm_virt_to_phys_in root boot_info.kernel_base s == boot_info.kernel_base) s
  let (addr, p) = alloc_page s.pmm
  s ← panic_unless (not (addr == 0)) (record s { pmm = p })
  s ← map_or_panic root addr 4096 (vmm_write + vmm_nx) s
  s ← panic_unless (vmm_virt_to_phys_in root addr s == addr) s
  s ← unmap_in_root root addr 4096 s
  s ← panic_unless (vmm_virt_to_phys_in root addr s == 0) s
  s ← map_or_panic root addr 4096 (vmm_write + vmm_nx) s
  some (record s { pmm = free_page addr s.pmm })

-- The start of the page tables in kernel_main.
pub start_paging : BootInfo → Acpi → Vmm → Option (ℕ × Vmm)
start_paging boot_info acpi s = do
  (root, t) ← vmm_init boot_info acpi s
  u ← vmm_self_test boot_info root t
  some (root, u)
