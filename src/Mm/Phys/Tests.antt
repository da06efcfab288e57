-- ===== src/Mm/Phys/Tests.antt =====
-- The physical page allocator at concrete inputs: tests, and the theorems at inputs that meet
-- their conditions.
use ygg_kernel.Base.{
  [], arith, false, is_clear, is_full, leb, ltb, none, not, refl, some, true, ℕ, ◌&&◌, ◌*◌, ◌+◌,
  ◌<◌, ◌^◌, ◌∷◌, ◌≡◌, ◌≢◌,
}
use ygg_kernel.Mm.Phys.{
  MmapEntry, Phys, add_entries, add_entry, add_page, alloc_page, alloc_page_huge,
  alloc_physical_page, can_claim, claim, claim_pages, clip, find_bit, find_huge, find_page, flg_ps,
  free_physical_page, naddr, phys_init, set_bit, words_clear,
}
use ygg_kernel.Mm.Phys.Alloc.{AllocAt, alloc_physical_page-AllocAt, used}
use ygg_kernel.Mm.Phys.Free.{FreeAt, free-alloc, free_physical_page-FreeAt}
use ygg_kernel.Mm.Phys.Init.{add_entry-high, phys_init-free_range}

-- Words 160 and 161 hold free pages, all else is in use.
abbrev few : Phys
few = record {
  bitmap = λ i j. not (leb 160 i && ltb i 162 && leb 30 j);
  alloc_last = 160 * 2 ^ 17;
  page_count = 4;
}

-- No page is in use.
abbrev empty : Phys
empty = record { bitmap = λ i j. false; alloc_last = 0; page_count = 0 }

abbrev all_used : Phys
all_used = record { bitmap = λ i j. true; alloc_last = 0; page_count = 0 }

alloc-few : (alloc_page few).0 ≡ 160 * 2 ^ 17 + 30 * 2 ^ 12
unfolding alloc_page find_page find_bit is_full claim
alloc-few = refl

clip_tests :
    (clip (record { addr = 0x10_0000; len = 0x1000; kind = 1 }) ≡ some 0x1000)
    × (clip (record { addr = 0xF000_0000; len = 0x2000_0000; kind = 1 }) ≡ none)
unfolding clip
clip_tests = (refl, refl)

abbrev page : ℕ
page = 0x200_0000

alloc_physical_page-AllocAt_example : AllocAt few page (alloc_physical_page 0 few)
alloc_physical_page-AllocAt_example =
    alloc_physical_page-AllocAt few page (omega arith) (omega arith)

found : (alloc_physical_page 0 few).0 ≢ naddr
unfolding alloc_physical_page alloc_page find_page find_bit is_full claim
found = omega arith

free-alloc_example :
    let (p, t) = alloc_physical_page 0 few in
    (u : Phys) × (free_physical_page p 0 t ≡ some u) × (used u page ≡ used few page)
free-alloc_example = free-alloc few page (omega arith) (omega arith) found

free_physical_page-FreeAt_example : FreeAt few page page (free_physical_page page 0 few)
free_physical_page-FreeAt_example =
    free_physical_page-FreeAt few page page (omega arith) (omega arith)

-- One region of 4 MiB at 32 MiB.
abbrev region : MmapEntry
region = record { addr = 0x200_0000; len = 0x40_0000; kind = 1 }

start_run : phys_init all_used (region ∷ []) ≡ some (claim_pages 1024 0 0x200_0000 all_used)
unfolding phys_init add_entries add_entry clip
start_run = refl

start_free : used (claim_pages 1024 0 0x200_0000 all_used) page ≡ false
unfolding claim_pages can_claim add_page set_bit
start_free = refl

phys_init-free_range_example : (0x100_0000 < page) × (page < 0x4000_0000)
phys_init-free_range_example =
    phys_init-free_range all_used (claim_pages 1024 0 0x200_0000 all_used) (region ∷ []) page
      (omega arith) start_run start_free

-- 1 GiB of memory above 4 GiB.
abbrev high : MmapEntry
high = record { addr = 2 ^ 32; len = 2 ^ 30; kind = 1 }

claims : can_claim page ≡ true
unfolding can_claim
claims = refl

add_entry-high_example :
    (page < 2 ^ 32) × ((t : Phys) × (add_entry all_used high ≡ some t) × (used t page ≡ false))
add_entry-high_example =
    add_entry-high all_used high page refl refl (omega arith) (omega arith) (omega arith) claims

found_huge : (alloc_physical_page flg_ps empty).0 ≢ naddr
unfolding alloc_physical_page alloc_page_huge find_huge words_clear is_clear
found_huge = omega arith
