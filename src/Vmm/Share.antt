-- ===== src/Vmm/Share.antt =====
-- Words of page tables of kernel/vmm.c that are copied: the loops of vmm_create_user_pml4.
use ore_os.Base.{
  Bool-cases, List, [], ap, arith, if◌then◌else◌, in_range, inl, inr, refl, suc, zero, ℕ, ◌%◌, ◌*◌,
  ◌+◌, ◌-◌, ◌<◌, ◌∙◌, ◌∷◌, ◌≡◌, ◌≢◌, ◌≤◌, ◌⊎◌,
}
use ore_os.Vmm.{Vmm, addr_of, copy_words, is_present, slot, zero_words}
use ore_os.Vmm.Tree.{IsTree, IsWalk, Places, entry_at}
use ore_os.Vmm.Fresh.{zero_words_in, zero_words_out}

-- Tables whose words are the same have the same entries below them.
pub entry_at-same :
    (at : Places) (root : ℕ) (s : Vmm) (words : ℕ → ℕ)
    → IsTree at root s
    → ((x j : ℕ) → at x ≢ 0 → j < 512 → words (slot x j) ≡ s.words (slot x j))
    → (is : List ℕ) (j x : ℕ) → at x ≢ 0
    → IsWalk is (at x)
    → j < 512
    → entry_at is j x words ≡ entry_at is j x s.words
unfolding entry_at
entry_at-same at root s words tree same [] j x h w b = same x j h b
entry_at-same at root s words tree same (i ∷ is) j x h (bi, l, w) b =
    rw (same x i h bi) (elim (Bool-cases (is_present (s.words (slot x i)))) [
      | inl p ↦
          let leads_on = tree.leads x i h l bi p in
          let placed_below : at (addr_of (s.words (slot x i))) ≢ 0 = omega (arith, leads_on) in
          rw p (
            entry_at-same at root s words tree same is j (addr_of (s.words (slot x i))) placed_below
              (rw leads_on w) b)
      | inr a ↦ rw a refl
    ])

copy_words_out :
    (from to n : ℕ) (m : ℕ → ℕ) (x : ℕ)
    → (x < to) ⊎ (to + 8 * n ≤ x)
    → copy_words from to n m x ≡ m x
unfolding copy_words
copy_words_out from to zero m x h = refl
copy_words_out from to (suc n) m x h = ground (arith, copy_words_out from to n m x (omega arith))

copy_words_in :
    (from to n : ℕ) (m : ℕ → ℕ) (j : ℕ)
    → (from + 4096 ≤ to) ⊎ (to + 4096 ≤ from)
    → n ≤ 512
    → j < n
    → copy_words from to n m (slot to j) ≡ m (slot from j)
unfolding copy_words
copy_words_in from to zero m j apart le b = absurd (omega arith)
copy_words_in from to (suc n) m j apart le b =
    let source = copy_words_out from to n m (slot from n) (omega arith) in
    ground (arith, source, copy_words_in from to n m j apart (omega arith))

-- The words of the new root and of the tables of the kernel.
unfoldable pub user_words : (kernel root : ℕ) → (ℕ → ℕ) → ℕ → ℕ
user_words kernel root words = zero_words (slot root 1) 255 (copy_words kernel root 512 words)

pub user_words_root :
    (kernel root : ℕ) (words : ℕ → ℕ) (j : ℕ)
    → kernel ≢ root
    → kernel % 4096 ≡ 0
    → root % 4096 ≡ 0
    → j < 512
    → user_words kernel root words (slot root j)
      ≡ (if in_range 1 255 j then 0 else words (slot kernel j))
unfolding user_words
user_words_root kernel root words j ne ak ar b = elim (Bool-cases (in_range 1 255 j)) [
  | inl i ↦
      let at_slot : slot root j ≡ slot (slot root 1) (j - 1) = ground arith in
      rw i (
        ap (user_words kernel root words) at_slot
        ∙ zero_words_in (slot root 1) 255 (copy_words kernel root 512 words) (j - 1) (ground arith))
  | inr o ↦ rw o (
      zero_words_out (slot root 1) 255 (copy_words kernel root 512 words) (slot root j)
        (ground arith)
      ∙ copy_words_in kernel root 512 words j (omega arith) (omega arith) b)
]

pub user_words_other :
    (kernel root : ℕ) (words : ℕ → ℕ) (x j : ℕ)
    → x ≢ root
    → x % 4096 ≡ 0
    → root % 4096 ≡ 0
    → j < 512
    → user_words kernel root words (slot x j) ≡ words (slot x j)
unfolding user_words
user_words_other kernel root words x j ne ax ar b =
    zero_words_out (slot root 1) 255 (copy_words kernel root 512 words) (slot x j) (omega arith)
    ∙ copy_words_out kernel root 512 words (slot x j) (omega arith)
