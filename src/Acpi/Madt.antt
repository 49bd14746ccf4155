-- ===== src/Acpi/Madt.antt =====
-- What parse_madt of kernel/acpi.c reads and finds.

use ore_os.Base.{
  Bool-cases, List, Memory, [], ap, append-nil, append_assoc, arith, false, if◌then◌else◌, inl, inr,
  leb, length, length-append, ltb, ltb→ge, ltb→lt, read32, read64, refl, suc, sym, take, true, zero,
  ℕ, ◌*◌, ◌++◌, ◌+◌, ◌/◌, ◌<◌, ◌||◌, ◌∙◌, ◌∷◌, ◌≡◌, ◌≤◌,
}
use ore_os.Acpi.{
  Acpi, apply_entry, checksum, enabled_apic, max_acpi_cpus, overrides, parse_entries, parse_madt,
  table_length,
}

-- The table from `p` to `end` is a row of entries, at the addresses of the list, each with a length of
-- two bytes or more.
abbrev pub IsRow : Memory → (p end : ℕ) → List ℕ → Type 0
IsRow m p end [] = p ≡ end
IsRow m p end (q ∷ qs) =
    (q ≡ p) × (2 ≤ m (p + 1)) × (p + m (p + 1) ≤ end) × IsRow m (p + m (p + 1)) end qs

-- The identifiers of the enabled local APICs, in order.
pub apic_ids : Memory → List ℕ → List ℕ
apic_ids m [] = []
apic_ids m (q ∷ qs) =
    let rest = apic_ids m qs in if enabled_apic m q then m (q + 3) ∷ rest else rest

-- The last address of the local APIC that an entry gives, or the one before.
pub last_override : Memory → List ℕ → ℕ → ℕ
last_override m [] d = d
last_override m (q ∷ qs) d = last_override m qs (if overrides m q then read64 m (q + 4) else d)

take_all : (n : ℕ) (xs : List ℕ) → length xs ≤ n → take n xs ≡ xs
take_all zero [] h = refl
take_all zero (x ∷ xs) h = absurd (omega arith)
take_all (suc n) [] h = refl
take_all (suc n) (x ∷ xs) h = ap (λ (ys : List ℕ). x ∷ ys) (take_all n xs (omega arith))

take_full : (n : ℕ) (xs ys : List ℕ) → n ≤ length xs → take n (xs ++ ys) ≡ take n xs
take_full zero xs ys h = refl
take_full (suc n) [] ys h = absurd (omega arith)
take_full (suc n) (x ∷ xs) ys h = ap (λ (zs : List ℕ). x ∷ zs) (take_full n xs ys (omega arith))

pub apply_entry_facts :
    (m : Memory) (q : ℕ) (qs : List ℕ) (s : Acpi)
    → length s.cpu_apic_ids ≤ max_acpi_cpus
    → let s' = apply_entry m q s in
      (length s'.cpu_apic_ids ≤ max_acpi_cpus)
      × (take max_acpi_cpus (s'.cpu_apic_ids ++ apic_ids m qs)
          ≡ take max_acpi_cpus (s.cpu_apic_ids ++ apic_ids m (q ∷ qs)))
      × (s'.lapic_base_value ≡ (if overrides m q then read64 m (q + 4) else s.lapic_base_value))
unfolding apply_entry apic_ids
apply_entry_facts m q qs s le = elim (Bool-cases (enabled_apic m q)) [
  | inl on ↦
      let no_override : overrides m q ≡ false = unfold overrides enabled_apic in ground arith in
      elim (Bool-cases (ltb (length s.cpu_apic_ids) max_acpi_cpus)) [
        | inl room ↦
            rw (on, no_override, room)
              (
                omega (arith, length-append s.cpu_apic_ids (m (q + 3) ∷ []), ltb→lt _ _ room),
                ap (λ (zs : List ℕ). take max_acpi_cpus zs)
                    (append_assoc s.cpu_apic_ids (m (q + 3) ∷ []) (apic_ids m qs)),
                refl,
              )
        | inr full ↦
            let much : max_acpi_cpus ≤ length s.cpu_apic_ids = ltb→ge _ _ full in
            rw (on, no_override, full)
              (
                le,
                take_full max_acpi_cpus s.cpu_apic_ids (apic_ids m qs) much
                    ∙ sym (take_full max_acpi_cpus s.cpu_apic_ids (m (q + 3) ∷ apic_ids m qs) much),
                refl,
              )
      ]
  | inr off ↦ elim (Bool-cases (overrides m q)) [
    | inl base ↦ rw (off, base) (le, refl, refl)
    | inr other ↦ rw (off, other) (le, refl, refl)
  ]
]

parse_entries_lem :
    (m : Memory) (rounds p end : ℕ) (qs : List ℕ) (s : Acpi)
    → IsRow m p end qs
    → end < p + 2 * rounds
    → length s.cpu_apic_ids ≤ max_acpi_cpus
    → let s' = parse_entries m rounds p end s in
      (s'.cpu_apic_ids ≡ take max_acpi_cpus (s.cpu_apic_ids ++ apic_ids m qs))
      × (s'.lapic_base_value ≡ last_override m qs s.lapic_base_value)
unfolding parse_entries last_override apic_ids
parse_entries_lem m zero p end [] s row h le = absurd (omega arith)
parse_entries_lem m zero p end (q ∷ qs) s row h le = absurd (omega arith)
parse_entries_lem m (suc n) p end [] s row h le =
    let done : leb (p + 2) end ≡ false = ground arith in
    rw done (
      sym (
          ap (λ (zs : List ℕ). take max_acpi_cpus zs) (append-nil s.cpu_apic_ids)
          ∙ take_all max_acpi_cpus s.cpu_apic_ids le),
      refl,
    )
parse_entries_lem m (suc n) p end (q ∷ qs) s (here, two, inside, row) h le =
    let on : leb (p + 2) end ≡ true = ground arith in
    let goes : (ltb (m (p + 1)) 2 || ltb end (p + m (p + 1))) ≡ false = ground arith in
    let (le', ids, base) = apply_entry_facts m p qs s le in
    let ih =
      parse_entries_lem m n (p + m (p + 1)) end qs (apply_entry m p s) row (omega arith) le' in
    rw (on, goes, here) (ih.0 ∙ ids, ih.1 ∙ ap (last_override m qs) base)

-- parse_madt of a table with a correct checksum that is a row of entries: it adds the identifiers of
-- the enabled local APICs, in the order of the table and as far as there is room for 64, and takes the
-- address of the local APIC from the last entry that gives one, or else from the head of the table.
pub parse_madt_lem :
    (m : Memory) (madt : ℕ) (qs : List ℕ) (s : Acpi)
    → checksum m madt (table_length m madt) ≡ 0
    → IsRow m (madt + 44) (madt + table_length m madt) qs
    → length s.cpu_apic_ids ≤ max_acpi_cpus
    → let s' = parse_madt m madt s in
      (s'.cpu_apic_ids ≡ take max_acpi_cpus (s.cpu_apic_ids ++ apic_ids m qs))
      × (s'.lapic_base_value ≡ last_override m qs (read32 m (madt + 36)))
unfolding parse_madt
parse_madt_lem m madt qs s sum row le = rw sum (
    parse_entries_lem m (table_length m madt / 2 + 1) (madt + 44) (madt + table_length m madt) qs
      (record s { lapic_base_value = read32 m (madt + 36) }) row (omega arith) le)
