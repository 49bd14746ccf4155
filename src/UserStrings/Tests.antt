-- ===== src/UserStrings/Tests.antt =====
-- The strings of a process: one page, which starts with the characters "hi".
use ore_os.UserStrings.Store.{copy_from_user-copy_to_user}
use ore_os.Base.{ap, arith, codes, false, some, true, ℕ, ◌*◌, ◌+◌, ◌/◌, ◌<◌, ◌∙◌, ◌≡◌, ◌≢◌, ◌⊎◌}
use ore_os.Vmm.{Vmm, vmm_virt_to_phys_in}
use ore_os.Vmm.Sample.{root_page}
use ore_os.Vmm.Mapped.{one_page, one_page_IsTree, one_page_places, one_page_translation}
use ore_os.UserMemory.{einval, pages_ok, user_range_ok}
use ore_os.UserStrings.{
  copy_from_user, copy_to_user, efault, load_bytes, refused, store_bytes, string, user_byte,
  user_string,
}
use ore_os.UserStrings.Copy.{HasText, user_string_lem}

user_string_lem_example :
    let result = user_string root_page one_page 0x8000000000 127 in
    ((n : ℕ) × (n < 127)
      × HasText root_page one_page 0x8000000000 n
      × ((user_range_ok root_page one_page (0x8000000000 + n) 1 ≡ true)
            × (user_byte root_page one_page (0x8000000000 + n) ≡ 0)
            × (result ≡ string (load_bytes root_page one_page 0x8000000000 n))
          ⊎ (user_range_ok root_page one_page (0x8000000000 + n) 1 ≡ false)
            × (result ≡ refused efault)))
    ⊎ HasText root_page one_page 0x8000000000 127 × (result ≡ refused einval)
user_string_lem_example =
    user_string_lem root_page one_page 0x8000000000 127 (omega arith) (omega arith)

one_page_ok : user_range_ok root_page one_page 0x8000000000 2 ≡ true
unfolding user_range_ok pages_ok
one_page_ok =
    let first = one_page_translation 0 (omega arith) in
    let last = one_page_translation 1 (omega arith) in ground (arith, first, last)

-- After the process's page holds "ok".
abbrev answered : Vmm
answered = store_bytes root_page 0x8000000000 (codes "ok") one_page

one_page_copied : copy_to_user root_page 0x8000000000 (codes "ok") one_page ≡ some answered
unfolding copy_to_user
one_page_copied = ground (arith, one_page_ok)

one_page_apart :
    (i j : ℕ)
    → i < j
    → j < 2
    → vmm_virt_to_phys_in root_page (0x8000000000 + i) one_page
      ≢ vmm_virt_to_phys_in root_page (0x8000000000 + j) one_page
one_page_apart i j lt b e =
    let first = one_page_translation i (omega arith) in
    let second = one_page_translation j (omega arith) in omega (arith, first, second, e)

one_page_outside :
    (i : ℕ)
    → i < 2
    → one_page_places (vmm_virt_to_phys_in root_page (0x8000000000 + i) one_page / 4096 * 4096) ≡ 0
one_page_outside i b =
    let there = one_page_translation i (omega arith) in
    let page : (0x5000 + i) / 4096 * 4096 ≡ 0x5000 = omega arith in
    ap (λ p. one_page_places (p / 4096 * 4096)) there ∙ ap one_page_places page

copy_from_user-copy_to_user_example :
    (copy_from_user root_page answered 0x8000000000 2 ≡ some (codes "ok"))
    × ((v : ℕ)
        → vmm_virt_to_phys_in root_page v answered ≡ vmm_virt_to_phys_in root_page v one_page)
    × ((a : ℕ)
        → ((i : ℕ) → i < 2 → vmm_virt_to_phys_in root_page (0x8000000000 + i) one_page ≢ a)
        → answered.pmm.memory a ≡ one_page.pmm.memory a)
copy_from_user-copy_to_user_example =
    copy_from_user-copy_to_user one_page_places root_page (codes "ok") 0x8000000000 one_page
      answered one_page_IsTree one_page_outside one_page_apart one_page_copied
