-- ===== src/Acpi.antt =====
-- The ACPI tables, arch/x86/hw/acpi.c. Memory is a family of bytes by virtual address, as it is when
-- the tables' large page is mapped at ACPI_MAP_VIRT; a failed assertion and a panic are `none`.
use ygg_kernel.Base.{
  Bool, List, Option, [], bit_or, false, if◌then◌else◌, ltb, none, not, some, sub32, suc, true,
  zero, ℕ, ◌%◌, ◌&&◌, ◌*◌, ◌+◌, ◌-◌, ◌/◌, ◌==◌, ◌^◌, ◌||◌, ◌∷◌,
}
use ygg_kernel.Mm.Phys.{naddr}
use ygg_kernel.Text.{strncmp}
pub mod Validated
pub mod Tests

-- A `uint32_t` of memory, and `n` bytes of it.
abbrev pub dword_at : (ℕ → ℕ) → ℕ → ℕ
dword_at mem a = mem a + mem (a + 1) * 2 ^ 8 + mem (a + 2) * 2 ^ 16 + mem (a + 3) * 2 ^ 24

abbrev pub bytes_from : (ℕ → ℕ) → ℕ → ℕ → List ℕ
bytes_from mem a zero = []
bytes_from mem a (suc n) = mem a ∷ bytes_from mem (a + 1) n

-- The loops of both checks: the sum of `n` bytes, a uint8_t that wraps.
unfoldable pub byte_sum : (ℕ → ℕ) → ℕ → ℕ → ℕ → ℕ
byte_sum mem a zero sum = sum
byte_sum mem a (suc n) sum = byte_sum mem (a + 1) n ((sum + mem a) % 2 ^ 8)

-- acpi_validate_rsdp and acpi_validate_header, as whether they return 0.
unfoldable pub validate_rsdp : (ℕ → ℕ) → ℕ → Bool
unfolding byte_sum
validate_rsdp mem a =
    let len = dword_at mem (a + 20) in if ltb 36 len then false else byte_sum mem a len 0 == 0

unfoldable pub validate_header : (ℕ → ℕ) → ℕ → Bool
unfolding byte_sum
validate_header mem a = byte_sum mem a (dword_at mem (a + 4)) 0 == 0

-- `!strncmp((const char *) addr, name, n)`
abbrev pub signed : (ℕ → ℕ) → ℕ → List ℕ → ℕ → Bool
signed mem a name n = strncmp (bytes_from mem a n) name n == 0

abbrev pub rsdp_name : List ℕ
rsdp_name = b'R' ∷ b'S' ∷ b'D' ∷ b' ' ∷ b'P' ∷ b'T' ∷ b'R' ∷ b' ' ∷ []

abbrev pub rsdt_name : List ℕ
rsdt_name = b'R' ∷ b'S' ∷ b'D' ∷ b'T' ∷ []

abbrev pub facp_name : List ℕ
facp_name = b'F' ∷ b'A' ∷ b'C' ∷ b'P' ∷ []

abbrev pub hpet_name : List ℕ
hpet_name = b'H' ∷ b'P' ∷ b'E' ∷ b'T' ∷ []

abbrev pub apic_name : List ℕ
apic_name = b'A' ∷ b'P' ∷ b'I' ∷ b'C' ∷ []

abbrev pub facs_name : List ℕ
facs_name = b'F' ∷ b'A' ∷ b'C' ∷ b'S' ∷ []

-- One of the loops that search for the root pointer, in `n` rounds; `rsdt` is kept where none is
-- found.
unfoldable pub search_from : (ℕ → ℕ) → ℕ → ℕ → ℕ → ℕ
search_from mem rsdt a zero = rsdt
search_from mem rsdt a (suc n) =
    let rest = search_from mem rsdt (a + 4) n in
    if signed mem a rsdp_name 8 && validate_rsdp mem a then dword_at mem (a + 16) else rest

-- The rounds of `for (addr = from; addr < end; addr += 4)`.
abbrev pub steps : ℕ → ℕ → ℕ
steps from end = (end - from + 3) / 4

abbrev pub kernel_base : ℕ
kernel_base = 0xC0000000

-- The address at which the first search starts, from the word at 0x040E.
abbrev pub ebda : (ℕ → ℕ) → ℕ
ebda mem = (mem (0x040E + kernel_base) + mem (0x040F + kernel_base) * 2 ^ 8) * 16 + kernel_base

-- Both searches of x86_acpi_init.
unfoldable pub find_rsdt : (ℕ → ℕ) → ℕ
find_rsdt mem =
    let low = search_from mem 0 (ebda mem) (steps (ebda mem) (0xA0000 - 4)) in
    search_from mem low (0xE0000 + kernel_base)
      (steps (0xE0000 + kernel_base) (0x100000 + kernel_base - 4))

-- ACPI_MAP_VIRT, and where an address of the mapped large page is seen.
abbrev pub map_virt : ℕ
map_virt = 0xFF000000

abbrev pub seen_at : ℕ → ℕ
seen_at a = bit_or (a % 0x400000) map_virt

-- `(a & -0x400000) == (b & -0x400000)`
abbrev pub same_page : ℕ → ℕ → Bool
same_page a b = a / 0x400000 == b / 0x400000

-- hpet, fadt and apic of x86_acpi_init.
pub record Tables : Type 0 where
  pub hpet : ℕ
  pub fadt : ℕ
  pub apic : ℕ

-- A table that is valid, by its signature.
unfoldable pub note_table : (ℕ → ℕ) → ℕ → Tables → Tables
note_table mem a t =
    if signed mem a facp_name 4
    then record t { fadt = a }
    else if signed mem a hpet_name 4
    then record t { hpet = a }
    else if signed mem a apic_name 4
    then record t { apic = a }
    else t

-- The loop over the entries of the root table, `n` of them from index `i` on.
unfoldable pub scan_tables : (ℕ → ℕ) → ℕ → ℕ → ℕ → ℕ → Tables → Option Tables
scan_tables mem page rsdt i zero t = some t
scan_tables mem page rsdt i (suc n) t =
    let phys = dword_at mem (rsdt + 36 + 4 * i) in
    let a = seen_at phys in
    let noted = scan_tables mem page rsdt (i + 1) n (note_table mem a t) in
    let skipped = scan_tables mem page rsdt (i + 1) n t in
    if not (same_page phys page) then none else if validate_header mem a then noted else skipped

-- The check of the firmware control structure that the FADT names; `none` is a panic.
unfoldable pub check_facs : (ℕ → ℕ) → ℕ → ℕ → Option Bool
check_facs mem page fadt =
    let facs = dword_at mem (fadt + 36) in
    if fadt == naddr || facs == 0
    then some true
    else if not (same_page facs page)
    then none
    else if signed mem (seen_at facs) facs_name 4
    then some true
    else none

-- The physical address of the timer that the HPET table names, where there is one.
unfoldable pub hpet_base : (ℕ → ℕ) → ℕ → Option (Option ℕ)
hpet_base mem hpet =
    if hpet == naddr
    then some none
    else if mem (hpet + 40) == 0
    then some (some (dword_at mem (hpet + 44)))
    else none

abbrev pub no_tables : Tables
no_tables = record { hpet = naddr; fadt = naddr; apic = naddr }

-- The tables that the root table names.
unfoldable pub all_tables : (ℕ → ℕ) → ℕ → Option Tables
all_tables mem phys =
    let rsdt = seen_at phys in
    let count = sub32 (dword_at mem (rsdt + 4)) 36 / 4 in
    if not (signed mem rsdt rsdt_name 4) || not (validate_header mem rsdt)
    then none
    else scan_tables mem phys rsdt 0 count no_tables

-- x86_acpi_init: the physical address that is mapped for hpet_set_base.
unfoldable pub acpi_init : (ℕ → ℕ) → Option (Option ℕ)
acpi_init mem =
    let phys = find_rsdt mem in
    if phys == 0 then none else elim (all_tables mem phys) [
      | none ↦ none
      | some t ↦ elim (check_facs mem phys t.fadt) [
        | none ↦ none
        | some checked ↦ hpet_base mem t.hpet
      ]
    ]
