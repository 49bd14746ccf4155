-- ===== src/Vmm/Entry.antt =====
-- The bits of the entries that kernel/vmm.c writes.
use ore_os.Base.{
  ap, arith, bit_or, bit_or_disjoint, bit_or_disjoint_high, bit_or_low, bit_or_small, false,
  or_digit, refl, true, ℕ, ◌%◌, ◌*◌, ◌+◌, ◌/◌, ◌<◌, ◌^◌, ◌∙◌, ◌≡◌,
}
use ore_os.Vmm.{addr_of, is_present, page_entry, table_entry, vmm_nx}

-- An address that an entry can hold: page-aligned, and below 2^52.
abbrev pub IsFrame : ℕ → Type 0
IsFrame a = (a % 4096 ≡ 0) × (a < 2 ^ 52)

pub addr_of-IsFrame : (e : ℕ) → IsFrame (addr_of e)
unfolding addr_of
addr_of-IsFrame e = (omega arith, omega arith)

pub addr_of_frame : (a low : ℕ) → IsFrame a → low < 4096 → addr_of (a + low) ≡ a
unfolding addr_of
addr_of_frame a low f h = omega arith

low_or : (a r s : ℕ) → a % 4096 ≡ 0 → r < 4096 → s < 4096 → bit_or (a + r) s ≡ a + bit_or r s
low_or a r s h hr hs =
    let split : a / 4096 * 2 ^ 12 ≡ a = omega arith in
    omega (arith, ap (λ t. bit_or (t + r) s) split, bit_or_low 12 (a / 4096) r s hr hs)

pub or_page : (a r : ℕ) → a % 4096 ≡ 0 → r < 4096 → bit_or a r ≡ a + r
or_page a r h hr =
    let split : a / 4096 * 2 ^ 12 ≡ a = omega arith in
    omega (arith, ap (λ t. bit_or t r) split, bit_or_disjoint 12 (a / 4096) r hr)

-- A word of a frame, odd low bits and the highest bit is a present entry that holds the frame.
entry_shape :
    (e a low high : ℕ)
    → IsFrame a
    → low < 4096
    → low % 2 ≡ 1
    → e ≡ a + low + high * vmm_nx
    → (is_present e ≡ true) × (addr_of e ≡ a)
unfolding is_present addr_of
entry_shape e a low high f small odd shape = (ground arith, omega arith)

-- The entry that next_table writes, with the flags `flags & VMM_USER`.
pub table_entry_lem :
    (child flags : ℕ)
    → IsFrame child
    → let entry = table_entry child (flags / 4 % 2 * 4) in
      (is_present entry ≡ true) × (addr_of entry ≡ child)
unfolding table_entry
table_entry_lem child flags f =
    let same : addr_of child ≡ child =
      ap addr_of (omega arith) ∙ addr_of_frame child 0 f (omega arith) in
    let one : bit_or child 1 ≡ child + 1 = or_page child 1 (omega arith) (omega arith) in
    let three : bit_or (child + 1) 2 ≡ child + 3 =
      low_or child 1 2 (omega arith) (omega arith) (omega arith) in
    let all : bit_or (child + 3) (flags / 4 % 2 * 4) ≡ child + bit_or 3 (flags / 4 % 2 * 4) =
      low_or child 3 (flags / 4 % 2 * 4) (omega arith) (omega arith) (omega arith) in
    let rest : bit_or 3 (flags / 4 % 2 * 4) ≡ 3 + flags / 4 % 2 * 4 =
      bit_or_disjoint_high 2 (flags / 4 % 2) 3 (omega arith) in
    entry_shape _ child (3 + flags / 4 % 2 * 4) 0 f (omega arith) (omega arith)
      (rw (same, one, three, all, rest) (omega arith))

-- The flags of an entry for a page: the low bits, and the bit that forbids execution.
pub record IsFlags (flags : ℕ) : Type 0 where
  pub low : flags % vmm_nx < 4096
  pub word : flags < 2 ^ 64

-- The entry of a page is present, and has the page's address.
pub page_entry_lem :
    (phys flags : ℕ)
    → IsFlags flags
    → (is_present (page_entry phys flags) ≡ true) × (addr_of (page_entry phys flags) ≡ addr_of phys)
unfolding page_entry
page_entry_lem phys flags f =
    let frame = addr_of-IsFrame phys in
    let small = f.low in
    let or_flags : bit_or (addr_of phys) (flags % vmm_nx) ≡ addr_of phys + flags % vmm_nx =
      or_page (addr_of phys) (flags % vmm_nx) (omega arith) (omega arith) in
    let or_one : bit_or (addr_of phys + flags % vmm_nx) 1
        ≡ addr_of phys + bit_or (flags % vmm_nx) 1 =
      low_or (addr_of phys) (flags % vmm_nx) 1 (omega arith) (omega arith) (omega arith) in
    let low = bit_or_small 12 (flags % vmm_nx) 1 (omega arith) (omega arith) in
    let odd = or_digit (flags % vmm_nx) 1 in
    let nx =
      bit_or_disjoint_high 63 (flags / vmm_nx) (addr_of phys + bit_or (flags % vmm_nx) 1)
        (omega arith) in
    entry_shape _ (addr_of phys) (bit_or (flags % vmm_nx) 1) (flags / vmm_nx) frame (omega arith)
      (omega arith) (rw (or_flags, or_one) nx)

pub zero_absent : is_present 0 ≡ false
unfolding is_present
zero_absent = refl
