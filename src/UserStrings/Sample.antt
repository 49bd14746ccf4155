-- ===== src/UserStrings/Sample.antt =====
-- The string "hi" of the page of Vmm/Mapped.
use ore_os.Vmm.Tree.{below}
use ore_os.Base.{
  Bool-cases, ap, arith, codes, if◌then◌else◌, inl, inr, ltb, refl, true, ℕ, ◌+◌, ◌<◌, ◌==◌, ◌∙◌,
  ◌≡◌,
}
use ore_os.Vmm.Mapped.{one_page, one_page_translation}
use ore_os.Vmm.Sample.{root_page}
use ore_os.UserMemory.{pages_ok, user_range_ok}
use ore_os.UserStrings.{load_bytes, string, user_byte, user_string}
use ore_os.UserStrings.Copy.{HasText, user_string_lem}

pub one_page_byte_ok :
    (i : ℕ) → i < 4096 → user_range_ok root_page one_page (0x8000000000 + i) 1 ≡ true
unfolding user_range_ok pages_ok
one_page_byte_ok i b = let there = one_page_translation i b in ground (arith, there)

one_page_byte :
    (i : ℕ)
    → i < 4096
    → user_byte root_page one_page (0x8000000000 + i)
      ≡ (if i == 0 then 104 else if i == 1 then 105 else 0)
unfolding user_byte
one_page_byte i b = ap one_page.pmm.memory (one_page_translation i b) ∙ ground arith

one_page_load : load_bytes root_page one_page 0x8000000000 2 ≡ codes "hi"
unfolding load_bytes
one_page_load =
    let first : user_byte root_page one_page 0x8000000000 ≡ 104 = one_page_byte 0 (omega arith) in
    let second : user_byte root_page one_page 0x8000000001 ≡ 105 = one_page_byte 1 (omega arith) in
    rw (first, second) refl

pub one_page_string : user_string root_page one_page 0x8000000000 127 ≡ string (codes "hi")
unfolding HasText
one_page_string =
    elim (user_string_lem root_page one_page 0x8000000000 127 (omega arith) (omega arith)) [
      | inl (n, below, text, inl (fine, z, e)) ↦
          let value = one_page_byte n (omega arith) in
          let third = one_page_byte 2 (omega arith) in
          let two : n ≡ 2 = elim (Bool-cases (ltb 2 n)) [
            | inl more ↦ absurd ((text 2 (ground arith)).1 third)
            | inr less ↦ ground (arith, value, z)
          ] in
          e
          ∙ ap (λ k. string (load_bytes root_page one_page 0x8000000000 k)) two
          ∙ ap string one_page_load
      | inl (n, below, text, inr (bad, e)) ↦
          absurd (ground (arith, bad, one_page_byte_ok n (omega arith)))
      | inr (text, e) ↦ absurd ((text 2 (omega arith)).1 (one_page_byte 2 (omega arith)))
    ]
