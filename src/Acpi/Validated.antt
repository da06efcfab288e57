-- ===== src/Acpi/Validated.antt =====
-- The ACPI tables that are used have been checked, and the first search for the root pointer has no
-- rounds: arch/x86/hw/acpi.c.
use mathlib.Core.Option.{none-ne-some, some-injective}
use ygg_kernel.Acpi.{
  Tables, all_tables, apic_name, dword_at, ebda, facp_name, hpet_name, no_tables, note_table,
  rsdt_name, same_page, scan_tables, seen_at, signed, steps, validate_header,
}
use ygg_kernel.Base.{
  Bool, Bool-cases, List, Option, ap, arith, if◌then◌else◌, inl, inr, none, not, refl, some, sub32,
  subst, suc, sym, true, zero, ℕ, ◌*◌, ◌+◌, ◌-◌, ◌/◌, ◌||◌, ◌∙◌, ◌≡◌, ◌⊎◌,
}
use ygg_kernel.Mm.Phys.{naddr}

-- No table, or one with the signature and a sum of 0.
abbrev pub Checked : (ℕ → ℕ) → List ℕ → ℕ → Type 0
Checked mem name a = (a ≡ naddr) ⊎ ((validate_header mem a ≡ true) × (signed mem a name 4 ≡ true))

abbrev pub AllChecked : (ℕ → ℕ) → Tables → Type 0
AllChecked mem t =
    Checked mem hpet_name t.hpet × Checked mem facp_name t.fadt × Checked mem apic_name t.apic

note_table-AllChecked :
    (mem : ℕ → ℕ) (a : ℕ) (t : Tables)
    → validate_header mem a ≡ true
    → AllChecked mem t
    → AllChecked mem (note_table mem a t)
unfolding note_table
note_table-AllChecked mem a t valid (h, f, p) = elim (Bool-cases (signed mem a facp_name 4)) [
  | inl facp ↦ rw facp (h, inr (valid, facp), p)
  | inr other ↦ elim (Bool-cases (signed mem a hpet_name 4)) [
    | inl timer ↦ rw (other, timer) (inr (valid, timer), f, p)
    | inr still ↦ elim (Bool-cases (signed mem a apic_name 4)) [
      | inl apic ↦ rw (other, still, apic) (h, f, inr (valid, apic))
      | inr unknown ↦ rw (other, still, unknown) (h, f, p)
    ]
  ]
]

scan_tables-AllChecked :
    (mem : ℕ → ℕ) (page rsdt i n : ℕ) (t r : Tables)
    → AllChecked mem t
    → scan_tables mem page rsdt i n t ≡ some r
    → AllChecked mem r
unfolding scan_tables
scan_tables-AllChecked mem page rsdt i zero t r h e =
    subst (λ q. AllChecked mem q) (some-injective _ _ e) h
scan_tables-AllChecked mem page rsdt i (suc n) t r h e =
    let phys = dword_at mem (rsdt + 36 + 4 * i) in
    let a = seen_at phys in
    let noted = scan_tables mem page rsdt (i + 1) n (note_table mem a t) in
    let skipped = scan_tables mem page rsdt (i + 1) n t in
    let choice : Bool → Option Tables = λ b. if b then noted else skipped in
    let branch : Bool → Option Tables =
      λ b. if not b then none else choice (validate_header mem a) in
    elim (Bool-cases (same_page phys page)) [
      | inr far ↦ absurd (none-ne-some r (sym (ap branch far) ∙ e))
      | inl near ↦ elim (Bool-cases (validate_header mem a)) [
        | inl valid ↦
            scan_tables-AllChecked mem page rsdt (i + 1) n (note_table mem a t) r
              (note_table-AllChecked mem a t valid h) (sym (ap branch near ∙ ap choice valid) ∙ e)
        | inr broken ↦
            scan_tables-AllChecked mem page rsdt (i + 1) n t r h
              (sym (ap branch near ∙ ap choice broken) ∙ e)
      ]
    ]

-- Whatever the memory holds, each table that x86_acpi_init goes on with after its loop is either
-- missing or one whose bytes add up to 0 and whose signature is that of its kind: the HPET, the FADT
-- and the APIC table.
pub all_tables-AllChecked :
    (mem : ℕ → ℕ) (phys : ℕ) (r : Tables) → all_tables mem phys ≡ some r → AllChecked mem r
unfolding all_tables
all_tables-AllChecked mem phys r e =
    let rsdt = seen_at phys in
    let count = sub32 (dword_at mem (rsdt + 4)) 36 / 4 in
    let refused = not (signed mem rsdt rsdt_name 4) || not (validate_header mem rsdt) in
    let branch : Bool → Option Tables =
      λ b. if b then none else scan_tables mem phys rsdt 0 count no_tables in
    elim (Bool-cases refused) [
      | inl bad ↦ absurd (none-ne-some r (sym (ap branch bad) ∙ e))
      | inr good ↦
          scan_tables-AllChecked mem phys rsdt 0 count no_tables r (inl refl, inl refl, inl refl)
            (sym (ap branch good) ∙ e)
    ]

-- The search below 0xA0000 has no rounds, whatever the memory holds: its start is an address of the
-- kernel's half, its end is not.
low_search-empty : (mem : ℕ → ℕ) → steps (ebda mem) (0xA0000 - 4) ≡ 0
low_search-empty mem = omega arith
