-- ===== src/Acpi/Tests.antt =====
-- kernel/acpi.c at a MADT of 68 bytes at 4096: a local APIC with the identifier 7, and an entry that
-- gives the address 0xfee01000.
use ore_os.Acpi.Bounds.{acpi_init_bound, entries_of_wraps, parse_entries-agree}
use ore_os.Acpi.Madt.{IsRow, apic_ids, last_override, parse_madt_lem}
use ore_os.Base.{
  List, Memory, [], arith, if◌then◌else◌, length, ltb, lt→ltb, read32, read_le, refl, take, ℕ, ◌++◌,
  ◌+◌, ◌<◌, ◌==◌, ◌^◌, ◌∷◌, ◌≡◌, ◌≤◌,
}
use ore_os.Acpi.{Acpi, acpi_init, checksum, entries_of, parse_entries, parse_madt, table_length}

abbrev table : Memory
table a =
    if a == 4100
    then 64
    else if a == 4132
    then 0x22
    else if a == 4140
    then 0
    else if a == 4141
    then 8
    else if a == 4143
    then 7
    else if a == 4144
    then 1
    else if a == 4148
    then 5
    else if a == 4149
    then 12
    else if a == 4153
    then 0x10
    else if a == 4154
    then 0xe0
    else if a == 4155
    then 0xfe
    else if a == 4097
    then 0x8f
    else 0

abbrev none_yet : Acpi
none_yet = record { cpu_apic_ids = []; lapic_base_value = 0xfee00000 }

abbrev entries : List ℕ
entries = 4140 ∷ (4148 ∷ [])

length_is : table_length table 4096 ≡ 64
unfolding read_le
length_is = refl

sum_is : checksum table 4096 (table_length table 4096) ≡ 0
unfolding checksum read_le
sum_is = refl

is_row : IsRow table (4096 + 44) (4096 + table_length table 4096) entries
unfolding read_le
is_row = (refl, omega arith, omega arith, (refl, omega arith, omega arith, refl))

parse_madt_lem_example :
    let s' = parse_madt table 4096 none_yet in
    (s'.cpu_apic_ids ≡ take 64 ([] ++ apic_ids table entries))
    × (s'.lapic_base_value ≡ last_override table entries (read32 table 4132))
parse_madt_lem_example = parse_madt_lem table 4096 entries none_yet sum_is is_row (omega arith)

-- The same table in other memory behind it.
abbrev other : Memory
other a = if ltb a 4160 then table a else 99

parse_entries-agree_example :
    parse_entries other 33 4140 4160 none_yet ≡ parse_entries table 33 4140 4160 none_yet
parse_entries-agree_example =
    parse_entries-agree table other 33 4140 4160 none_yet (λ a lo hi. rw (lt→ltb a 4160 hi) refl)

acpi_init_bound_test : length (acpi_init table 0 none_yet).cpu_apic_ids ≤ 64
acpi_init_bound_test = acpi_init_bound table 0 none_yet

zero_length : table_length (λ a. 0) 8192 < 36
unfolding read_le
zero_length = omega arith

entries_of_wraps_test : 2 ^ 29 ≤ entries_of (λ a. 0) 8192
entries_of_wraps_test = entries_of_wraps (λ a. 0) 8192 zero_length
