-- ===== src/UserStrings/Store.antt =====
-- copy_to_user of kernel/syscall.c: what it changes, and that copy_from_user reads it back.
use ore_os.Base.{
  Bool-cases, List, [], ap, arith, inl, inr, length, refl, some, suc, sym, true, ℕ, ◌*◌, ◌+◌, ◌/◌,
  ◌<◌, ◌∙◌, ◌∷◌, ◌≡◌, ◌≢◌,
}
use ore_os.Vmm.{Vmm, vmm_virt_to_phys_in}
use ore_os.Vmm.Tree.{IsTree, Places}
use ore_os.UserMemory.{user_range_ok}
use ore_os.UserMemory.Bytes.{range_same}
use ore_os.UserStrings.{
  copy_from_user, copy_to_user, load_bytes, store_byte, store_bytes, user_byte,
}
use ore_os.UserStrings.Byte.{IsOutside, store_byte-IsTree, store_byte-translation}

module _ (at : Places) (root : ℕ) where
  abbrev translation : Vmm → ℕ → ℕ
  translation s v = vmm_virt_to_phys_in root v s

  abbrev stored : (dst b : ℕ) → Vmm → Vmm
  stored dst b s = store_byte (translation s dst) b s

  -- The range of `n` bytes lies in no table.
  abbrev RangeOutside : (s : Vmm) (dst n : ℕ) → Type 0
  RangeOutside s dst n = (i : ℕ) → i < n → IsOutside at root (translation s (dst + i))

  -- The range after its first byte is stored.
  outside_split :
      (b n dst : ℕ) (s : Vmm)
      → IsTree at root s
      → RangeOutside s dst (suc n)
      → IsTree at root (stored dst b s)
        × ((v : ℕ) → translation (stored dst b s) v ≡ translation s v)
        × RangeOutside (stored dst b s) (dst + 1) n
  outside_split b n dst s tree out =
      let here : IsOutside at root (translation s dst) =
        ap (λ v. at (translation s v / 4096 * 4096)) (omega arith) ∙ out 0 (omega arith) in
      let same : (v : ℕ) → translation (stored dst b s) v ≡ translation s v =
        λ v. store_byte-translation at root s (translation s dst) b v tree here in
      (
        store_byte-IsTree at root s (translation s dst) b tree here,
        same,
        λ i c.
            ap (λ p. at (p / 4096 * 4096)) (same (dst + 1 + i))
            ∙ ap (λ v. at (translation s v / 4096 * 4096)) (omega arith)
            ∙ out (suc i) (omega arith),
      )

  store-translation :
      (bytes : List ℕ) (dst : ℕ) (s : Vmm)
      → IsTree at root s
      → RangeOutside s dst (length bytes)
      → (v : ℕ) → translation (store_bytes root dst bytes s) v ≡ translation s v
  unfolding store_bytes
  store-translation [] dst s tree out v = refl
  store-translation (b ∷ bs) dst s tree out v =
      let (tree', same, out') = outside_split b (length bs) dst s tree out in
      store-translation bs (dst + 1) (stored dst b s) tree' out' v ∙ same v

  -- Memory where no byte of the range is stays as it was.
  store-elsewhere :
      (bytes : List ℕ) (dst : ℕ) (s : Vmm) (a : ℕ)
      → IsTree at root s
      → RangeOutside s dst (length bytes)
      → ((i : ℕ) → i < length bytes → translation s (dst + i) ≢ a)
      → (store_bytes root dst bytes s).pmm.memory a ≡ s.pmm.memory a
  unfolding store_bytes store_byte
  store-elsewhere [] dst s a tree out h = refl
  store-elsewhere (b ∷ bs) dst s a tree out h =
      let (tree', same, out') = outside_split b (length bs) dst s tree out in
      let here : translation s dst ≢ a =
        λ e. h 0 (omega arith) (ap (translation s) (omega arith) ∙ e) in
      let rest = store-elsewhere bs (dst + 1) (stored dst b s) a tree' out' (λ i c e.
        h (suc i) (omega arith)
          (ap (translation s) (omega arith) ∙ sym (same (dst + 1 + i)) ∙ e)) in
      ground (arith, here, rest)

  store-load :
      (bytes : List ℕ) (dst : ℕ) (s : Vmm)
      → IsTree at root s
      → RangeOutside s dst (length bytes)
      → ((i j : ℕ) → i < j → j < length bytes → translation s (dst + i) ≢ translation s (dst + j))
      → load_bytes root (store_bytes root dst bytes s) dst (length bytes) ≡ bytes
  unfolding store_bytes load_bytes user_byte store_byte
  store-load [] dst s tree out apart = refl
  store-load (b ∷ bs) dst s tree out apart =
      let (tree', same, out') = outside_split b (length bs) dst s tree out in
      let t = store_bytes root (dst + 1) bs (stored dst b s) in
      let shift : (i : ℕ) → dst + 1 + i ≡ dst + suc i = λ i. omega arith in
      let place : (i : ℕ)
          → translation (stored dst b s) (dst + 1 + i) ≡ translation s (dst + suc i) =
        λ i. same (dst + 1 + i) ∙ ap (translation s) (shift i) in
      let first : translation s dst ≡ translation s (dst + 0) = ap (translation s) (omega arith) in
      let kept =
        store-elsewhere bs (dst + 1) (stored dst b s) (translation s dst) tree' out'
          (λ i c e. apart 0 (suc i) (omega arith) (omega arith) (sym first ∙ sym e ∙ place i)) in
      let rest = store-load bs (dst + 1) (stored dst b s) tree' out' (λ i j c d e.
        apart (suc i) (suc j) (omega arith) (omega arith) (sym (place i) ∙ e ∙ place j)) in
      let there : translation t dst ≡ translation s dst =
        store-translation bs (dst + 1) (stored dst b s) tree' out' dst ∙ same dst in
      let head : t.pmm.memory (translation t dst) ≡ b =
        ap t.pmm.memory there ∙ kept ∙ ground arith in
      rw (head, rest) refl

  copied :
      (bytes : List ℕ) (dst : ℕ) (s t : Vmm)
      → copy_to_user root dst bytes s ≡ some t
      → store_bytes root dst bytes s ≡ t
  unfolding copy_to_user store_bytes
  copied [] dst s t e = ground (arith, e)
  copied (b ∷ bs) dst s t e = elim (Bool-cases (user_range_ok root s dst (suc (length bs)))) [
    | inl fine ↦ ground (arith, e, fine)
    | inr bad ↦ absurd (ground (arith, e, bad))
  ]

  allowed :
      (bytes : List ℕ) (dst : ℕ) (s t : Vmm)
      → copy_to_user root dst bytes s ≡ some t
      → length bytes ≢ 0
      → user_range_ok root s dst (length bytes) ≡ true
  unfolding copy_to_user
  allowed bytes dst s t e n = elim (Bool-cases (user_range_ok root s dst (length bytes))) [
    | inl fine ↦ fine
    | inr bad ↦ absurd (ground (arith, e, bad, n))
  ]

  load_allowed :
      (bytes : List ℕ) (src : ℕ) (t : Vmm)
      → load_bytes root t src (length bytes) ≡ bytes
      → (length bytes ≢ 0 → user_range_ok root t src (length bytes) ≡ true)
      → copy_from_user root t src (length bytes) ≡ some bytes
  unfolding copy_from_user
  load_allowed [] src t e ok = refl
  load_allowed (b ∷ bs) src t e ok = ground (arith, e, ok (λ z. absurd (omega arith)))

  -- With page tables under which no byte of the range lies in one of the tables and no two share an
  -- address in memory: when copy_to_user succeeds, copy_from_user of the same range succeeds and gives
  -- the bytes back, each virtual address is translated as before, and memory outside the range is as
  -- before.
  pub copy_from_user-copy_to_user :
      (bytes : List ℕ) (dst : ℕ) (s t : Vmm)
      → IsTree at root s
      → ((i : ℕ) → i < length bytes → at (vmm_virt_to_phys_in root (dst + i) s / 4096 * 4096) ≡ 0)
      → ((i j : ℕ)
          → i < j
          → j < length bytes
          → vmm_virt_to_phys_in root (dst + i) s ≢ vmm_virt_to_phys_in root (dst + j) s)
      → copy_to_user root dst bytes s ≡ some t
      → (copy_from_user root t dst (length bytes) ≡ some bytes)
        × ((v : ℕ) → vmm_virt_to_phys_in root v t ≡ vmm_virt_to_phys_in root v s)
        × ((a : ℕ)
            → ((i : ℕ) → i < length bytes → vmm_virt_to_phys_in root (dst + i) s ≢ a)
            → t.pmm.memory a ≡ s.pmm.memory a)
  copy_from_user-copy_to_user bytes dst s t tree out apart e =
      let result = copied bytes dst s t e in
      let same : (v : ℕ) → translation t v ≡ translation s v =
        λ v. ap (λ u. translation u v) (sym result) ∙ store-translation bytes dst s tree out v in
      let loaded : load_bytes root t dst (length bytes) ≡ bytes =
        ap (λ u. load_bytes root u dst (length bytes)) (sym result)
        ∙ store-load bytes dst s tree out apart in
      (
        load_allowed bytes dst t loaded
            (λ n. range_same root t s same dst (length bytes) ∙ allowed bytes dst s t e n),
        same,
        λ a h. ap (λ u. u.pmm.memory a) (sym result) ∙ store-elsewhere bytes dst s a tree out h,
      )
