-- ===== src/Acpi/Bounds.antt =====
-- What the code of kernel/acpi.c reads and stores at most.
use ore_os.Base.{
  Bool-cases, Memory, Option-cases, [], ap, arith, false, inl, inr, leb, leb→le, length, ltb, not,
  read32, read_le, refl, suc, true, zero, ℕ, ◌+◌, ◌/◌, ◌<◌, ◌==◌, ◌^◌, ◌||◌, ◌∙◌, ◌≡◌, ◌≤◌,
}
use ore_os.Acpi.{
  Acpi, acpi_init, apply_entry, checksum, enabled_apic, entries_of, entry_size_of, find_madt,
  max_acpi_cpus, overrides, parse_entries, parse_madt, root_table, table_length,
}
use ore_os.Acpi.Madt.{apply_entry_facts}

read_le-agree :
    (n : ℕ) (m m' : Memory) (a : ℕ)
    → ((i : ℕ) → a ≤ i → i < a + n → m' i ≡ m i)
    → read_le n m' a ≡ read_le n m a
unfolding read_le
read_le-agree zero m m' a h = refl
read_le-agree (suc n) m m' a h =
    rw
      (
        h a (omega arith) (omega arith),
        read_le-agree n m m' (a + 1) (λ i lo hi. h i (omega arith) (omega arith)),
      )
      refl

-- Two memories that agree on the entry at `p`.
abbrev SameEntry : Memory → Memory → ℕ → Type 0
SameEntry m m' p = (a : ℕ) → p ≤ a → a < p + m (p + 1) → m' a ≡ m a

enabled_apic-agree :
    (m m' : Memory) (p : ℕ)
    → 2 ≤ m (p + 1)
    → SameEntry m m' p
    → enabled_apic m' p ≡ enabled_apic m p
unfolding enabled_apic
enabled_apic-agree m m' p two h =
    let kind : m' p ≡ m p = h p (omega arith) (omega arith) in
    let len : m' (p + 1) ≡ m (p + 1) = h (p + 1) (omega arith) (omega arith) in
    elim (Bool-cases (leb 8 (m (p + 1)))) [
      | inl long ↦
          let le = leb→le 8 (m (p + 1)) long in
          rw
            (
              kind,
              len,
              read_le-agree 4 m m' (p + 4) (λ i lo hi. h i (omega arith) (omega (arith, le, hi))),
            )
            refl
      | inr short ↦ rw (kind, len, short) refl
    ]

overrides-agree :
    (m m' : Memory) (p : ℕ) → 2 ≤ m (p + 1) → SameEntry m m' p → overrides m' p ≡ overrides m p
unfolding overrides
overrides-agree m m' p two h =
    rw (h p (omega arith) (omega arith), h (p + 1) (omega arith) (omega arith)) refl

enabled_apic_long : (m : Memory) (p : ℕ) → enabled_apic m p ≡ true → 8 ≤ m (p + 1)
unfolding enabled_apic
enabled_apic_long m p on = ground arith

overrides_long : (m : Memory) (p : ℕ) → overrides m p ≡ true → 12 ≤ m (p + 1)
unfolding overrides
overrides_long m p on = ground arith

apply_entry-agree :
    (m m' : Memory) (p : ℕ) (s : Acpi)
    → 2 ≤ m (p + 1)
    → SameEntry m m' p
    → apply_entry m' p s ≡ apply_entry m p s
unfolding apply_entry
apply_entry-agree m m' p s two h = elim (Bool-cases (enabled_apic m p)) [
  | inl on ↦
      let long = enabled_apic_long m p on in
      rw (enabled_apic-agree m m' p two h, on, h (p + 3) (omega arith) (omega (arith, long))) refl
  | inr off ↦ elim (Bool-cases (overrides m p)) [
    | inl base ↦
        let long = overrides_long m p base in
        rw
          (
            enabled_apic-agree m m' p two h,
            off,
            overrides-agree m m' p two h,
            base,
            read_le-agree 8 m m' (p + 4) (λ i lo hi. h i (omega arith) (omega (arith, long, hi))),
          )
          refl
    | inr other ↦
        rw (enabled_apic-agree m m' p two h, off, overrides-agree m m' p two h, other) refl
  ]
]

-- The loop of parse_madt reads nothing outside the table, whatever bytes the table holds: memories
-- that agree from `p` to `end` give the same result.
pub parse_entries-agree :
    (m m' : Memory) (rounds p end : ℕ) (s : Acpi)
    → ((a : ℕ) → p ≤ a → a < end → m' a ≡ m a)
    → parse_entries m' rounds p end s ≡ parse_entries m rounds p end s
unfolding parse_entries
parse_entries-agree m m' zero p end s h = refl
parse_entries-agree m m' (suc n) p end s h = elim (Bool-cases (leb (p + 2) end)) [
  | inr past ↦ rw past refl
  | inl on ↦
      let le = leb→le (p + 2) end on in
      let len : m' (p + 1) ≡ m (p + 1) = h (p + 1) (omega arith) (omega (arith, le)) in
      elim (Bool-cases (ltb (m (p + 1)) 2 || ltb end (p + m (p + 1)))) [
        | inl bad ↦ rw (on, len, bad) refl
        | inr good ↦
            let two : 2 ≤ m (p + 1) = ground arith in
            let inside : p + m (p + 1) ≤ end = ground arith in
            let good' : (ltb (m' (p + 1)) 2 || ltb end (p + m' (p + 1))) ≡ false = rw len good in
            rw (on, good, good')
              (ap (λ q. parse_entries m' n (p + q) end (apply_entry m' p s)) len
                ∙ ap (parse_entries m' n (p + m (p + 1)) end)
                    (apply_entry-agree m m' p s two (λ a lo hi. h a lo (omega (arith, hi, inside))))
                ∙ parse_entries-agree m m' n (p + m (p + 1)) end (apply_entry m p s)
                    (λ a lo hi. h a (omega (arith, lo)) hi))
      ]
]

apply_entry_bound :
    (m : Memory) (p : ℕ) (s : Acpi)
    → length s.cpu_apic_ids ≤ max_acpi_cpus
    → length (apply_entry m p s).cpu_apic_ids ≤ max_acpi_cpus
apply_entry_bound m p s le = (apply_entry_facts m p [] s le).0

parse_entries_bound :
    (m : Memory) (rounds p end : ℕ) (s : Acpi)
    → length s.cpu_apic_ids ≤ max_acpi_cpus
    → length (parse_entries m rounds p end s).cpu_apic_ids ≤ max_acpi_cpus
unfolding parse_entries
parse_entries_bound m zero p end s le = le
parse_entries_bound m (suc n) p end s le = elim (Bool-cases (leb (p + 2) end)) [
  | inr past ↦ rw past le
  | inl on ↦ elim (Bool-cases (ltb (m (p + 1)) 2 || ltb end (p + m (p + 1)))) [
    | inl bad ↦ rw (on, bad) le
    | inr good ↦
        rw (on, good)
          (parse_entries_bound m n (p + m (p + 1)) end (apply_entry m p s)
            (apply_entry_bound m p s le))
  ]
]

-- acpi_init never lists more than 64 processors, whatever is in memory.
pub acpi_init_bound :
    (m : Memory) (rsdp : ℕ) (s : Acpi) → length (acpi_init m rsdp s).cpu_apic_ids ≤ max_acpi_cpus
unfolding acpi_init parse_madt
acpi_init_bound m rsdp s =
    let root = root_table m rsdp in
    let s0 = record s { cpu_apic_ids = [] } in
    elim (Bool-cases
      (rsdp == 0 || (root == 0 || not (checksum m root (table_length m root) == 0)))) [
        | inl bad ↦ rw bad (omega arith)
        | inr good ↦
            elim (Option-cases
              (find_madt m (entries_of m root) (root + 36) (entry_size_of m root))) [
                | inl nothing ↦ rw (acpi_init, good, nothing) (omega arith)
                | inr (madt, found) ↦
                    elim (Bool-cases (checksum m madt (table_length m madt) == 0)) [
                      | inr wrong ↦ rw (acpi_init, good, found, wrong) (omega arith)
                      | inl sum ↦
                          rw (acpi_init, good, found, sum)
                            (parse_entries_bound m (table_length m madt / 2 + 1) (madt + 44)
                              (madt + table_length m madt)
                              (record s0 { lapic_base_value = read32 m (madt + 36) }) (omega arith))
                    ]
              ]
      ]

-- A root table with a length below its own header of 36 bytes makes the loop of acpi_init look at
-- more than half a billion entries.
pub entries_of_wraps :
    (m : Memory) (root : ℕ) → table_length m root < 36 → 2 ^ 29 ≤ entries_of m root
unfolding entries_of entry_size_of
entries_of_wraps m root short = ground arith
