-- ===== src/Acpi/Tests.antt =====
-- A root table with one entry, the HPET table, and an instance of the theorem on its search.
use ygg_kernel.Acpi.{
  Tables, all_tables, byte_sum, hpet_name, map_virt, no_tables, note_table, rsdt_name, scan_tables,
  validate_header,
}
use ygg_kernel.Acpi.Validated.{AllChecked, all_tables-AllChecked}
use ygg_kernel.Base.{
  List, [], get_or, if◌then◌else◌, leb, refl, replicate, some, update, ℕ, ◌++◌, ◌-◌, ◌∷◌, ◌≡◌,
}
use ygg_kernel.Mm.Phys.{naddr}
use ygg_kernel.Text.{strncmp}

-- The bytes at ACPI_MAP_VIRT: the root table, its entry 64, and there the HPET table.
abbrev table_bytes : List ℕ
table_bytes =
    rsdt_name
    ++ (40 ∷ 0 ∷ 0 ∷ 0 ∷ 0 ∷ 91 ∷ [])
    ++ replicate 26 0
    ++ (64 ∷ [])
    ++ replicate 27 0
    ++ hpet_name
    ++ (36 ∷ 0 ∷ 0 ∷ 0 ∷ 0 ∷ 171 ∷ [])

abbrev memory : ℕ → ℕ
memory a = if leb map_virt a then get_or table_bytes (a - map_virt) 0 else 0

abbrev found : Tables
found = record { hpet = 0xFF000040; fadt = naddr; apic = naddr }

memory_scan : all_tables memory 0 ≡ some found
unfolding all_tables scan_tables note_table validate_header byte_sum strncmp
memory_scan = refl

all_tables-AllChecked_example : AllChecked memory found
all_tables-AllChecked_example = all_tables-AllChecked memory 0 found memory_scan

-- A table whose bytes do not add up to 0 is passed over.
broken_scan : all_tables (update memory 0xFF000049 0) 0 ≡ some no_tables
unfolding all_tables scan_tables note_table validate_header byte_sum strncmp
broken_scan = refl
