-- ===== src/UserMemory/Bytes.antt =====
-- user_range_ok of kernel/syscall.c: single bytes and the range of them.
use ore_os.Base.{ap, arith, refl, suc, true, zero, ℕ, ◌*◌, ◌+◌, ◌-◌, ◌/◌, ◌<◌, ◌∙◌, ◌≡◌, ◌≢◌, ◌≤◌}
use ore_os.Vmm.{Vmm, vmm_virt_to_phys_in}
use ore_os.UserMemory.{pages_ok, user_base, user_limit, user_range_ok}

module _ (root : ℕ) (s : Vmm) where
  -- A byte that is let pass is below the limit, and its page is mapped.
  pub byte_ok :
      (v : ℕ)
      → user_range_ok root s v 1 ≡ true
      → (user_base ≤ v) × (v < user_limit) × (vmm_virt_to_phys_in root v s ≢ 0)
  unfolding user_range_ok pages_ok
  byte_ok v h = (ground (arith, h), ground (arith, h), λ z. ground (arith, h, z))

  pages_ok_lem :
      (n v : ℕ)
      → ((k : ℕ) → k < n → vmm_virt_to_phys_in root (v + 4096 * k) s ≢ 0)
      → pages_ok root s n v ≡ true
  unfolding pages_ok
  pages_ok_lem zero v h = refl
  pages_ok_lem (suc n) v h =
      let at : (u w : ℕ) → u ≡ w → vmm_virt_to_phys_in root u s ≡ vmm_virt_to_phys_in root w s =
        λ u w e. ap (λ x. vmm_virt_to_phys_in root x s) e in
      let here : vmm_virt_to_phys_in root v s ≢ 0 =
        λ z. h 0 (omega arith) (at (v + 4096 * 0) v (omega arith) ∙ z) in
      let rest = pages_ok_lem n (v + 4096) (λ k b z.
        h (suc k) (omega arith) (at (v + 4096 * suc k) (v + 4096 + 4096 * k) (omega arith) ∙ z)) in
      ground (arith, here, rest)

  -- Bytes that are let pass one by one are let pass together.
  pub bytes_ok :
      (ptr n : ℕ)
      → ((i : ℕ) → i < suc n → user_range_ok root s (ptr + i) 1 ≡ true)
      → user_range_ok root s ptr (suc n) ≡ true
  unfolding user_range_ok
  bytes_ok ptr n h =
      let (from, below, there) = byte_ok (ptr + 0) (h 0 (omega arith)) in
      let (from', below', there') = byte_ok (ptr + n) (h n (omega arith)) in
      let pages =
        pages_ok_lem ((suc n + 4095) / 4096) ptr
          (λ k b. (byte_ok (ptr + 4096 * k) (h (4096 * k) (omega arith))).2) in
      let last : vmm_virt_to_phys_in root (ptr + suc n - 1) s ≢ 0 =
        λ z. there' (ap (λ x. vmm_virt_to_phys_in root x s) (omega arith) ∙ z) in
      ground (arith, from, below, below', pages, last)

module _ (root : ℕ) (s t : Vmm)
    (same : (v : ℕ) → vmm_virt_to_phys_in root v s ≡ vmm_virt_to_phys_in root v t) where
  pages_same : (n v : ℕ) → pages_ok root s n v ≡ pages_ok root t n v
  unfolding pages_ok
  pages_same zero v = refl
  pages_same (suc n) v = ground (arith, same v, pages_same n (v + 4096))

  -- Only the translations matter.
  pub range_same : (ptr len : ℕ) → user_range_ok root s ptr len ≡ user_range_ok root t ptr len
  unfolding user_range_ok
  range_same ptr len = rw (pages_same ((len + 4095) / 4096) ptr, same (ptr + len - 1)) refl
