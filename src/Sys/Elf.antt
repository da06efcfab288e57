-- ===== src/Sys/Elf.antt =====
-- The loader of programs, src/sys/elf.c. The file is read as its headers and as bytes from its start.
use ygg_kernel.Base.{
  List, Option, [], add32, align_up, has_flag, if◌then◌else◌, none, not, some, sub32, ℕ, ◌&&◌, ◌+◌,
  ◌/◌, ◌==◌, ◌||◌, ◌∷◌,
}
use ygg_kernel.Mm.Map.{flg_merge, map_range, page_base}
use ygg_kernel.Mm.Pool.{MmState}
use ygg_kernel.Mm.User.{kernel_to_user, read_bytes}
use ygg_kernel.Text.{strncmp}
use ygg_kernel.Vfs.{minus_one}

-- The fields of Elf32_Shdr that the loader reads.
pub record Section : Type 0 where
  pub sh_type : ℕ
  pub sh_flags : ℕ
  pub sh_addr : ℕ
  pub sh_offset : ℕ
  pub sh_size : ℕ

-- The fields of Elf32_Ehdr that the loader reads, its sections, and the bytes of the file.
pub record Elf : Type 0 where
  pub e_ident : List ℕ
  pub e_entry : ℕ
  pub sections : List Section
  pub bytes : ℕ → ℕ

abbrev pub sht_progbits : ℕ
sht_progbits = 1

abbrev pub sht_nobits : ℕ
sht_nobits = 8

abbrev pub shf_alloc : ℕ
shf_alloc = 2

-- "\x7F" "ELF"
abbrev pub ident : List ℕ
ident = 0x7F ∷ b'E' ∷ b'L' ∷ b'F' ∷ []

-- MM_FLG_WR | MM_FLG_US | MM_FLG_MERGE
abbrev pub section_flags : ℕ
section_flags = flg_merge + 6

-- The number of pages of a section.
abbrev pub section_pages : Section → ℕ
section_pages h = sub32 (align_up (add32 h.sh_addr h.sh_size) 0x1000) (page_base h.sh_addr) / 0x1000

-- One section: its pages are mapped, and its bytes are copied where the file has them.
unfoldable pub load_section : ℕ → Elf → Section → MmState → Option MmState
load_section dst file h s =
    let loaded : Option MmState =
      elim (map_range dst (page_base h.sh_addr) (section_pages h) section_flags s) [
        | none ↦ none
        | some t ↦
            if h.sh_type == sht_progbits
            then kernel_to_user dst h.sh_addr (read_bytes file.bytes h.sh_offset h.sh_size)
                h.sh_size t
            else some t
      ] in
    if (h.sh_type == sht_progbits || (h.sh_type == sht_nobits)) && has_flag h.sh_flags shf_alloc
    then loaded
    else some s

-- The loop of elf_load.
unfoldable pub load_sections : ℕ → Elf → List Section → MmState → Option MmState
unfolding load_section
load_sections dst file [] s = some s
load_sections dst file (h ∷ hs) s = elim (load_section dst file h s) [
  | none ↦ none
  | some t ↦ load_sections dst file hs t
]

-- elf_load: the entry address, or -1.
unfoldable pub elf_load : ℕ → Elf → MmState → Option (ℕ × MmState)
unfolding load_sections
elf_load dst file s =
    if not (strncmp file.e_ident ident 4 == 0)
    then some (minus_one, s)
    else elim (load_sections dst file file.sections s) [
      | none ↦ none
      | some t ↦ some (file.e_entry, t)
    ]
