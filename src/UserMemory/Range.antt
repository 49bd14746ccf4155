-- ===== src/UserMemory/Range.antt =====
-- user_range_ok of kernel/syscall.c: the ranges that it lets pass.
use ore_os.Base.{
  Bool, Bool-cases, ap, arith, inl, inr, ltb, ltb→lt, not, refl, suc, true, zero, ℕ, ◌%◌, ◌*◌, ◌+◌,
  ◌-◌, ◌/◌, ◌<◌, ◌==◌, ◌↔◌, ◌∙◌, ◌≡◌, ◌≢◌, ◌≤◌,
}
use ore_os.Vmm.{Vmm, addr_of, entry_for, is_present, vmm_virt_to_phys_in}
use ore_os.Vmm.Tree.{IsTree, Places, below}
use ore_os.Vmm.Leaf.{same_entry}
use ore_os.Vmm.Translate.{translate_missing, translate_present}
use ore_os.UserMemory.{pages_ok, user_base, user_limit, user_range_ok}

-- No page of the memory of processes is mapped to the frame 0, whose first byte translates to 0 as if
-- it were not mapped. The page 0 of the kernel, outside of this memory, is.
abbrev pub HasNoZeroFrame : (root : ℕ) → Vmm → Type 0
HasNoZeroFrame root s =
    (v : ℕ)
    → user_base ≤ v
    → v < user_limit
    → is_present (entry_for root v s) ≡ true
    → addr_of (entry_for root v s) ≢ 0

module _ (at : Places) (root : ℕ) (s : Vmm) (tree : IsTree at root s)
    (apart : HasNoZeroFrame root s) where
  abbrev mapped : ℕ → Bool
  mapped v = is_present (entry_for root v s)

  translated :
      (v : ℕ)
      → user_base ≤ v
      → v < user_limit
      → (vmm_virt_to_phys_in root v s == 0) ≡ not (mapped v)
  translated v lo hi = elim (Bool-cases (mapped v)) [
    | inl p ↦
        let e = translate_present root v s (entry_for root v s) refl p in
        let n = apart v lo hi p in ground (arith, e)
    | inr a ↦ ground (arith, translate_missing root v s a)
  ]

  same_page_mapped : (u v : ℕ) → u / 4096 ≡ v / 4096 → mapped u ≡ mapped v
  same_page_mapped u v e = ap is_present (same_entry at root s u v tree (omega arith))

  pages_ok→mapped :
      (n ptr : ℕ)
      → user_base ≤ ptr
      → ptr + 4096 * n < user_limit + 4096
      → pages_ok root s n ptr ≡ true
      → (k : ℕ) → k < n
      → mapped (ptr + 4096 * k) ≡ true
  unfolding pages_ok
  pages_ok→mapped zero ptr lo hi h k b = absurd (omega arith)
  pages_ok→mapped (suc n) ptr lo hi h zero b =
      let here : mapped ptr ≡ true = ground (arith, translated ptr lo (omega arith)) in
      ap mapped (omega arith) ∙ here
  pages_ok→mapped (suc n) ptr lo hi h (suc k) b =
      ap mapped (omega arith)
      ∙ pages_ok→mapped n (ptr + 4096) (omega arith) (omega arith) (ground arith) k (omega arith)

  mapped→pages_ok :
      (n ptr : ℕ)
      → user_base ≤ ptr
      → ptr + 4096 * n < user_limit + 4096
      → ((k : ℕ) → k < n → mapped (ptr + 4096 * k) ≡ true)
      → pages_ok root s n ptr ≡ true
  unfolding pages_ok
  mapped→pages_ok zero ptr lo hi h = refl
  mapped→pages_ok (suc n) ptr lo hi h =
      let here : mapped ptr ≡ true = ap mapped (omega arith) ∙ h 0 (omega arith) in
      let rest =
        mapped→pages_ok n (ptr + 4096) (omega arith) (omega arith)
          (λ k b. ap mapped (omega arith) ∙ h (suc k) (omega arith)) in
      ground (arith, translated ptr lo (omega arith), here, rest)

  range_mapped :
      (ptr len : ℕ)
      → user_base ≤ ptr
      → ptr + len ≤ user_limit
      → pages_ok root s ((len + 4095) / 4096) ptr ≡ true
      → (len ≢ 0 → mapped (ptr + len - 1) ≡ true)
      → (i : ℕ) → i < len
      → mapped (ptr + i) ≡ true
  range_mapped ptr len lo hi h last i b =
      let k : ℕ = (ptr % 4096 + i) / 4096 in
      elim (Bool-cases (ltb k ((len + 4095) / 4096))) [
        | inl lt ↦
            same_page_mapped (ptr + i) (ptr + 4096 * k) (omega arith)
            ∙ pages_ok→mapped ((len + 4095) / 4096) ptr lo (omega arith) h k (ltb→lt _ _ lt)
        | inr ge ↦
            let n : (len + 4095) / 4096 ≤ (ptr % 4096 + i) / 4096 = ground arith in
            same_page_mapped (ptr + i) (ptr + len - 1) (omega arith) ∙ last (omega arith)
      ]

  -- With page tables in which no page of the memory of processes is mapped to the frame 0, user_range_ok lets a range pass exactly
  -- when it starts in the memory of processes, ends in it, and each of its bytes lies in a page that is
  -- present.
  pub user_range_ok_lem :
      (ptr len : ℕ)
      → (user_range_ok root s ptr len ≡ true) ↔ (
          (user_base ≤ ptr)
          × (ptr < user_limit)
          × (ptr + len ≤ user_limit)
          × ((i : ℕ) → i < len → is_present (entry_for root (ptr + i) s) ≡ true))
  unfolding user_range_ok
  user_range_ok_lem ptr len = (
    (λ ok.
        let from : user_base ≤ ptr = ground arith in
        let below : ptr < user_limit = ground arith in
        let fits : ptr + len ≤ user_limit = ground arith in
        let last_byte = translated (ptr + len - 1) in
        let pages : pages_ok root s ((len + 4095) / 4096) ptr ≡ true = ground arith in
        let last : len ≢ 0 → mapped (ptr + len - 1) ≡ true =
          λ n. ground (arith, last_byte (omega arith) (omega arith), n) in
        (from, below, fits, range_mapped ptr len from fits pages last)),
    (λ (from, below, fits, all).
        let pages =
          mapped→pages_ok ((len + 4095) / 4096) ptr from (omega arith)
            (λ k b. all (4096 * k) (omega arith)) in
        let last : len ≢ 0 → mapped (ptr + len - 1) ≡ true =
          λ n. ap mapped (omega arith) ∙ all (len - 1) (omega arith) in
        elim (Bool-cases (len == 0)) [
          | inl z ↦ ground (arith, pages)
          | inr nz ↦
              let n : len ≢ 0 = ground arith in
              let last_byte = translated (ptr + len - 1) (omega arith) (omega arith) in
              ground (arith, pages, last_byte, last n)
        ]),
  )
