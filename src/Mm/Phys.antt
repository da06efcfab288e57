-- ===== src/Mm/Phys.antt =====
-- The physical page allocator, arch/x86/mm/phys.c: a bitmap with one bit for each 4 KiB page,
-- 32 pages to a word, set while the page is in use. Words are families of bits.
pub mod Search
pub mod Alloc
pub mod Free
pub mod Init
pub mod Huge
mod Tests
-- X86_MM_PHYS_MAX
use ygg_kernel.Base.{
  Bool, List, Option, Word, [], false, has_flag, if◌then◌else◌, is_clear, is_full, ltb, none, some,
  suc, true, update, zero, ℕ, ◌%◌, ◌&&◌, ◌*◌, ◌+◌, ◌-◌, ◌/◌, ◌==◌, ◌^◌, ◌∷◌,
}

abbrev pub phys_max : ℕ
phys_max = 262144

-- The number of words of the bitmap.
abbrev pub bitmap_words : ℕ
bitmap_words = phys_max / 8

-- MM_NADDR, MM_FLG_PS and MULTIBOOT_MEMORY_AVAILABLE
abbrev pub naddr : ℕ
naddr = 0xFFFF_FFFF

abbrev pub flg_ps : ℕ
flg_ps = 0x80

abbrev pub memory_available : ℕ
memory_available = 1

-- The static variables of the file.
pub record Phys : Type 0 where
  pub bitmap : ℕ → Word
  pub alloc_last : ℕ
  pub page_count : ℕ

-- The first clear bit among the `n` bits from `j` on.
unfoldable pub find_bit : ℕ → ℕ → Word → Option ℕ
find_bit zero j w = none
find_bit (suc n) j w = let rest = find_bit n (j + 1) w in if w j then rest else some j

-- The word and the bit of the first free page in the `n` words from `i` on.
unfoldable pub find_page : ℕ → ℕ → (ℕ → Word) → Option (ℕ × ℕ)
find_page zero i b = none
find_page (suc n) i b =
    let rest = find_page n (i + 1) b in
    if is_full 32 (b i)
    then rest
    else elim (find_bit 32 0 (b i)) [ some j ↦ some (i, j) | none ↦ rest ]

-- `(i << 17) | (j << 12)`: the two fields share no bit.
abbrev pub page_at : ℕ → ℕ → ℕ
page_at i j = (i * 2 ^ 17 + j * 2 ^ 12) % 2 ^ 32

pub set_bit : Phys → ℕ → ℕ → Bool → (ℕ → Word)
set_bit s i j v = update s.bitmap i (update (s.bitmap i) j v)

pub claim : Phys → ℕ × ℕ → ℕ × Phys
unfolding set_bit
claim s (i, j) = (
  page_at i j,
  record s { bitmap = set_bit s i j true; alloc_last = (page_at i j + 0x1000) % 2 ^ 32 },
)

-- x86_mm_alloc_physical_page: from the word of the last allocation to the end, then from the start.
pub alloc_page : Phys → ℕ × Phys
alloc_page s =
    elim (find_page (bitmap_words - s.alloc_last / 2 ^ 17) (s.alloc_last / 2 ^ 17) s.bitmap) [
      | some found ↦ claim s found
      | none ↦ elim (find_page (s.alloc_last / 2 ^ 17) 0 s.bitmap) [
        | some found ↦ claim s found
        | none ↦ (naddr, s)
      ]
    ]

-- None of the `n` words from `i` on has a bit set.
words_clear : ℕ → ℕ → (ℕ → Word) → Bool
words_clear zero i b = true
words_clear (suc n) i b = is_clear 32 (b i) && words_clear n (i + 1) b

-- The loop over blocks of 32 words, `n` of them from word `i` on.
find_huge : ℕ → ℕ → (ℕ → Word) → Option ℕ
unfolding words_clear
find_huge zero i b = none
find_huge (suc n) i b =
    let rest = find_huge n (i + 32) b in if words_clear 32 i b then some i else rest

-- x86_mm_alloc_physical_page_huge
pub alloc_page_huge : Phys → ℕ × Phys
alloc_page_huge s = elim (find_huge (bitmap_words / 32) 0 s.bitmap) [
  | some i ↦ (
    (i * 2 ^ 17) % 2 ^ 32,
    record s { alloc_last = ((i * 2 ^ 17) % 2 ^ 32 + 0x40_0000) % 2 ^ 32 },
  )
  | none ↦ (naddr, s)
]

-- x86_mm_add_physical_page
pub add_page : Phys → ℕ → Phys
unfolding set_bit
add_page s page = record s {
  page_count = (s.page_count + 1) % 2 ^ 32;
  bitmap = set_bit s (page / 2 ^ 17) (page / 2 ^ 12 % 32) false;
}

-- x86_mm_can_claim
pub can_claim : ℕ → Bool
can_claim page = ltb (page / 2 ^ 12) phys_max && ltb (4 * 0x40_0000) page

-- mm_alloc_physical_page
pub alloc_physical_page : ℕ → Phys → ℕ × Phys
alloc_physical_page flags s = if has_flag flags flg_ps then alloc_page_huge s else alloc_page s

-- mm_free_physical_page; `none` is a failed assertion.
pub free_physical_page : ℕ → ℕ → Phys → Option Phys
unfolding set_bit
free_physical_page page flags s =
    if has_flag flags flg_ps
    then (if is_full 32 (s.bitmap (page / 2 ^ 17))
        then some (record s {
          page_count = (s.page_count + 32) % 2 ^ 32;
          bitmap = update s.bitmap (page / 2 ^ 17) (λ _. false);
        })
        else none)
    else if s.bitmap (page / 2 ^ 17) (page / 2 ^ 12 % 32)
    then some (record s {
      page_count = (s.page_count + 1) % 2 ^ 32;
      bitmap = set_bit s (page / 2 ^ 17) (page / 2 ^ 12 % 32) false;
    })
    else none

-- struct multiboot_mmap_entry
pub record MmapEntry : Type 0 where
  pub addr : ℕ
  pub len : ℕ
  pub kind : ℕ

-- The length that the loop goes on with, `none` at its `continue`.
pub clip : MmapEntry → Option ℕ
clip e =
    if ltb 0xFFFF_FFFF ((e.addr + e.len) % 2 ^ 64)
    then (if ltb e.addr 0xFFFF_FFFF then none else some ((2 ^ 64 + 0xFFFF_FFFF - e.addr) % 2 ^ 64))
    else some e.len

-- The `n` rounds from `i` on of the loop over the pages of a region.
claim_pages : ℕ → ℕ → ℕ → Phys → Phys
claim_pages zero i addr s = s
claim_pages (suc n) i addr s =
    let page = (i * 2 ^ 12 + (addr - addr % 0x1000)) % 2 ^ 32 in
    claim_pages n (i + 1) addr (if can_claim page then add_page s page else s)

-- One round of the loop over the memory map; `none` is the failed assertion on the type.
pub add_entry : Phys → MmapEntry → Option Phys
add_entry s e =
    if ltb e.kind 5
    then elim (clip e) [
      | none ↦ some s
      | some len ↦
          some (
            if e.kind == memory_available
            then claim_pages (len % 2 ^ 32 / 0x1000) 0 e.addr s
            else s)
    ]
    else none

add_entries : Phys → List MmapEntry → Option Phys
add_entries s [] = some s
add_entries s (e ∷ es) = elim (add_entry s e) [ none ↦ none | some t ↦ add_entries t es ]

-- x86_mm_phys_init
pub phys_init : Phys → List MmapEntry → Option Phys
phys_init s entries = add_entries (record s { bitmap = λ _ _. true }) entries
