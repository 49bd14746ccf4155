-- ===== src/Acpi.antt =====
-- kernel/acpi.c: the processors and the local APIC that the firmware's tables name. Addresses are so
-- far below 2^64 that no pointer wraps.
pub mod Madt
pub mod Bounds
mod Tests
use ore_os.Base.{
  Bool, List, Memory, Option, [], get_or, if◌then◌else◌, leb, length, ltb, none, not, read32,
  read64, some, sub64, suc, u32_mod, zero, ℕ, ◌%◌, ◌&&◌, ◌++◌, ◌+◌, ◌/◌, ◌==◌, ◌||◌, ◌∷◌,
}

abbrev pub max_acpi_cpus : ℕ
max_acpi_cpus = 64

-- The static variables; the first `cpu_count_value` entries of `cpu_apic_ids` are a list.
pub record Acpi : Type 0 where
  pub cpu_apic_ids : List ℕ
  pub lapic_base_value : ℕ

-- sig_eq of the four characters at `a`.
pub sig_eq : Memory → ℕ → (c0 c1 c2 c3 : ℕ) → Bool
sig_eq m a c0 c1 c2 c3 = m a == c0 && (m (a + 1) == c1 && (m (a + 2) == c2 && m (a + 3) == c3))

pub sum_from : Memory → (p n sum : ℕ) → ℕ
sum_from m p zero sum = sum
sum_from m p (suc n) sum = sum_from m (p + 1) n ((sum + m p) % 256)

pub checksum : Memory → (p len : ℕ) → ℕ
unfolding sum_from
checksum m p len = sum_from m p len 0

-- An enabled local APIC.
pub enabled_apic : Memory → ℕ → Bool
enabled_apic m p = m p == 0 && (leb 8 (m (p + 1)) && read32 m (p + 4) % 2 == 1)

-- The address of the local APIC in 64 bits.
pub overrides : Memory → ℕ → Bool
overrides m p = m p == 5 && leb 12 (m (p + 1))

-- What the loop of parse_madt does with the entry at `p`.
pub apply_entry : Memory → ℕ → Acpi → Acpi
unfolding enabled_apic overrides
apply_entry m p s =
    if enabled_apic m p
    then (if ltb (length s.cpu_apic_ids) max_acpi_cpus
        then record s { cpu_apic_ids = s.cpu_apic_ids ++ m (p + 3) ∷ [] }
        else s)
    else if overrides m p
    then record s { lapic_base_value = read64 m (p + 4) }
    else s

-- The loop of parse_madt, for at most `rounds` entries from `p` on.
pub parse_entries : Memory → (rounds p end : ℕ) → Acpi → Acpi
unfolding apply_entry
parse_entries m zero p end s = s
parse_entries m (suc n) p end s =
    let len = m (p + 1) in
    let rest = parse_entries m n (p + len) end (apply_entry m p s) in
    if not (leb (p + 2) end) then s else if ltb len 2 || ltb end (p + len) then s else rest

-- The length in the header of a table.
abbrev pub table_length : Memory → ℕ → ℕ
table_length m t = read32 m (t + 4)

-- parse_madt. An entry has two bytes or more, so that half the length is enough rounds.
pub parse_madt : Memory → ℕ → Acpi → Acpi
unfolding checksum parse_entries
parse_madt m madt s =
    let len = table_length m madt in
    if not (checksum m madt len == 0)
    then s
    else parse_entries m (len / 2 + 1) (madt + 44) (madt + len)
        (record s { lapic_base_value = read32 m (madt + 36) })

-- The loop of acpi_init over the table of tables: the first with the signature "APIC".
pub find_madt : Memory → (rounds at entry_size : ℕ) → Option ℕ
unfolding sig_eq
find_madt m zero at entry_size = none
find_madt m (suc n) at entry_size =
    let t = if entry_size == 8 then read64 m at else read32 m at in
    let rest = find_madt m n (at + entry_size) entry_size in
    if sig_eq m t b'A' b'P' b'I' b'C' then some t else rest

-- The table of tables.
pub root_table : Memory → ℕ → ℕ
root_table m rsdp =
    if leb 2 (m (rsdp + 15)) && not (read64 m (rsdp + 24) == 0)
    then read64 m (rsdp + 24)
    else read32 m (rsdp + 16)

pub entry_size_of : Memory → ℕ → ℕ
unfolding sig_eq
entry_size_of m root = if sig_eq m root b'X' b'S' b'D' b'T' then 8 else 4

-- The number of tables that the loop looks at: 64-bit arithmetic, stored in 32 bits.
pub entries_of : Memory → ℕ → ℕ
unfolding entry_size_of
entries_of m root = sub64 (table_length m root) 36 / entry_size_of m root % u32_mod

-- acpi_init
pub acpi_init : Memory → ℕ → Acpi → Acpi
unfolding root_table checksum find_madt entries_of entry_size_of parse_madt
acpi_init m rsdp s =
    let s0 = record s { cpu_apic_ids = [] } in
    let root = root_table m rsdp in
    if rsdp == 0 || (root == 0 || not (checksum m root (table_length m root) == 0))
    then s0
    else elim (find_madt m (entries_of m root) (root + 36) (entry_size_of m root)) [
      | none ↦ s0
      | some madt ↦ parse_madt m madt s0
    ]

-- acpi_cpu_apic_id
abbrev pub acpi_cpu_apic_id : Acpi → ℕ → ℕ
acpi_cpu_apic_id s index = get_or s.cpu_apic_ids index 0xff
