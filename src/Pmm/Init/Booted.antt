-- ===== src/Pmm/Init/Booted.antt =====
-- The state that pmm_init of kernel/pmm.c leaves: the invariant holds, and the kernel, the loader's
-- data and the bitmap itself cannot be handed out.
use ore_os.Base.{
  Bool-cases, add64, arith, if◌then◌else◌, inl, inr, true, ℕ, ◌+◌, ◌<◌, ◌==◌, ◌^◌, ◌||◌, ◌∙◌, ◌≡◌,
  ◌≢◌,
}
use ore_os.Boot.{BootInfo, boot_info_size}
use ore_os.Pmm.{Pmm, bitmap_test, low_reserved_end}
use ore_os.Pmm.Invariant.{IsValid}
use ore_os.Pmm.Init.{reserve_all, reserve_range}
use ore_os.Pmm.Init.Reserve.{IsCovered, IsMarked, Reserved, reserve_range-RegionReserved}

-- What a chain of reservations keeps of the state that it started from.
pub record Chain (s t : Pmm) : Type 0 where
  pub same : Reserved s t
  pub valid : IsValid t
  pub kept : (q : ℕ) → bitmap_test s q ≡ true → bitmap_test t q ≡ true

Chain-trans : {s t u : Pmm} → Chain s t → Chain t u → Chain s u
Chain-trans a b = record {
  same = record {
    total = b.same.total ∙ a.same.total;
    max = b.same.max ∙ a.same.max;
    used = b.same.used ∙ a.same.used;
    memory = b.same.memory ∙ a.same.memory;
    width = b.same.width ∙ a.same.width;
  };
  valid = b.valid;
  kept = λ q h. b.kept q (a.kept q h);
}

Chain-refl : {s : Pmm} → IsValid s → Chain s s
Chain-refl v = record { same = ground arith; valid = v; kept = λ q h. h }

all_reserves_busy :
    {s t : Pmm} (base size : ℕ) → Chain s t → IsMarked s base size → IsMarked t base size
all_reserves_busy base size c m q a b h = c.kept q (m q a b (omega (arith, c.same.max)))

reserve_step :
    (base size : ℕ) (s : Pmm)
    → IsValid s
    → IsCovered s
    → base + size < 2 ^ 60
    → Chain s (reserve_range base (add64 base size) s)
      × IsMarked (reserve_range base (add64 base size) s) base size
reserve_step base size s v c small =
    let e : add64 base size ≡ base + size = omega arith in
    let r = reserve_range-RegionReserved base size s v c small in
    rw e (record { same = r.same; valid = r.valid; kept = r.kept }, r.marked)

all_reserves_lie_in : {s t : Pmm} → Chain s t → IsCovered s → IsCovered t
all_reserves_lie_in c h = omega (arith, c.same.total, c.same.max, h)

-- The optional reservation of the initramfs.
reserve_initramfs : BootInfo → Pmm → Pmm
reserve_initramfs boot s =
    if boot.initramfs_base == 0 || boot.initramfs_size == 0
    then s
    else reserve_range boot.initramfs_base (add64 boot.initramfs_base boot.initramfs_size) s

reserve_initramfs-Chain :
    (boot : BootInfo) (s : Pmm)
    → IsValid s
    → IsCovered s
    → boot.initramfs_base + boot.initramfs_size < 2 ^ 60
    → Chain s (reserve_initramfs boot s)
      × (boot.initramfs_base ≢ 0
          → boot.initramfs_size ≢ 0
          → IsMarked (reserve_initramfs boot s) boot.initramfs_base boot.initramfs_size)
unfolding reserve_initramfs
reserve_initramfs-Chain boot s v c small =
    elim (Bool-cases (boot.initramfs_base == 0 || boot.initramfs_size == 0)) [
      | inl absent ↦ rw absent (Chain-refl v, λ ne ne' q a b h. absurd (ground arith))
      | inr present ↦ rw present (
          let (chain, marked) = reserve_step boot.initramfs_base boot.initramfs_size s v c small in
          (chain, λ ne ne'. marked))
    ]

-- What `reserve_all` marks: the low megabyte, the bitmap, the kernel, the initramfs if there is one,
-- and the boot information.
pub record Protected (boot : BootInfo) (self bitmap_addr : ℕ) (s t : Pmm) : Type 0 where
  pub chain : Chain s t
  pub low : IsMarked t 0 low_reserved_end
  pub bitmap : IsMarked t bitmap_addr s.bitmap_bytes
  pub kernel : IsMarked t boot.kernel_base boot.kernel_size
  pub initramfs :
      boot.initramfs_base ≢ 0
      → boot.initramfs_size ≢ 0
      → IsMarked t boot.initramfs_base boot.initramfs_size
  pub info : IsMarked t self boot_info_size

-- No region that the code reserves reaches 2^60.
pub record RegionsFit (boot : BootInfo) (self : ℕ) : Type 0 where
  pub kernel : boot.kernel_base + boot.kernel_size < 2 ^ 60
  pub initramfs : boot.initramfs_base + boot.initramfs_size < 2 ^ 60
  pub info : self + boot_info_size < 2 ^ 60

pub reserve_all-Protected :
    (boot : BootInfo) (self bitmap_addr : ℕ) (s : Pmm)
    → IsValid s
    → IsCovered s
    → RegionsFit boot self
    → bitmap_addr + s.bitmap_bytes < 2 ^ 60
    → Protected boot self bitmap_addr s (reserve_all boot self bitmap_addr s)
unfolding reserve_all reserve_initramfs
reserve_all-Protected boot self bitmap_addr s v c fit small =
    let (c1, m1) = reserve_step 0 low_reserved_end s v c (omega arith) in
    let s1 = reserve_range 0 low_reserved_end s in
    let (c2, m2) =
      reserve_step 0x7000 0x2000 s1 c1.valid (all_reserves_lie_in c1 c) (omega arith) in
    let s2 = reserve_range 0x7000 0x9000 s1 in
    let c12 = Chain-trans c1 c2 in
    let (c3, m3) =
      reserve_step bitmap_addr s.bitmap_bytes s2 c2.valid (all_reserves_lie_in c12 c) small in
    let s3 = reserve_range bitmap_addr (add64 bitmap_addr s.bitmap_bytes) s2 in
    let c13 = Chain-trans c12 c3 in
    let (c4, m4) =
      reserve_step boot.kernel_base boot.kernel_size s3 c3.valid (all_reserves_lie_in c13 c)
        fit.kernel in
    let s4 = reserve_range boot.kernel_base (add64 boot.kernel_base boot.kernel_size) s3 in
    let c14 = Chain-trans c13 c4 in
    let (c5, m5) =
      reserve_initramfs-Chain boot s4 c4.valid (all_reserves_lie_in c14 c) fit.initramfs in
    let s5 = reserve_initramfs boot s4 in
    let c15 = Chain-trans c14 c5 in
    let (c6, m6) =
      reserve_step self boot_info_size s5 c5.valid (all_reserves_lie_in c15 c) fit.info in
    record {
      chain = Chain-trans c15 c6;
      low =
          all_reserves_busy 0 low_reserved_end
            (Chain-trans c2 (Chain-trans c3 (Chain-trans c4 (Chain-trans c5 c6)))) m1;
      bitmap = all_reserves_busy bitmap_addr s.bitmap_bytes (Chain-trans c4 (Chain-trans c5 c6)) m3;
      kernel = all_reserves_busy boot.kernel_base boot.kernel_size (Chain-trans c5 c6) m4;
      initramfs =
          λ ne ne'. all_reserves_busy boot.initramfs_base boot.initramfs_size c6 (m5 ne ne');
      info = m6;
    }
