-- ===== src/Mm/Phys/Alloc.antt =====
-- Allocation and freeing of single pages, arch/x86/mm/phys.c.
use ygg_kernel.Base.{
  Bool, arith, false, if◌then◌else◌, inl, inr, refl, true, ℕ, ◌%◌, ◌/◌, ◌<◌, ◌==◌, ◌^◌, ◌≡◌, ◌⊎◌,
}
use ygg_kernel.Mm.Phys.{Phys, alloc_physical_page, bitmap_words, claim, naddr, page_at, set_bit}
use ygg_kernel.Mm.Phys.Search.{alloc_page-Allocated, claimed, exhausted}

-- The bit of a page: true while the page is in use.
abbrev pub used : Phys → ℕ → Bool
used s page = s.bitmap (page / 2 ^ 17) (page / 2 ^ 12 % 32)

-- The addresses of pages.
pub record IsPage (page : ℕ) : Type 0 where
  pub aligned : page % 0x1000 ≡ 0
  pub small : page < 2 ^ 32

page_at_fields :
    (i j : ℕ)
    → i < bitmap_words
    → j < 32
    → (page_at i j / 2 ^ 17 ≡ i) × (page_at i j / 2 ^ 12 % 32 ≡ j) × IsPage (page_at i j)
page_at_fields i j hi hj = (omega arith, omega arith, omega arith)

-- The page with a given word and bit is that page.
page_at-fields : (page : ℕ) → IsPage page → page_at (page / 2 ^ 17) (page / 2 ^ 12 % 32) ≡ page
page_at-fields page h = omega arith

used-claim :
    (s : Phys) (i j q : ℕ)
    → i < bitmap_words
    → j < 32
    → IsPage q
    → used (claim s (i, j)).1 q ≡ (if q == page_at i j then true else used s q)
unfolding claim set_bit
used-claim s i j q hi hj page = ground (arith, page_at_fields i j hi hj, page_at-fields q page)

-- What one allocation does to the page `q`: the memory is used up and nothing changes, or the
-- result is a page that was free, and `q` is in use behind it if it was or is that page.
abbrev pub AllocAt : Phys → ℕ → ℕ × Phys → Type 0
AllocAt s q (p, t) =
    ((p ≡ naddr) × (t ≡ s) × (used s q ≡ true))
    ⊎ (IsPage p
        × (used s p ≡ false)
        × (used t q ≡ (if q == p then true else used s q))
        × (t.alloc_last < 2 ^ 32)
        × (t.page_count ≡ s.page_count))

AllocAt-claim :
    (s : Phys) (i j q : ℕ)
    → i < bitmap_words
    → j < 32
    → s.bitmap i j ≡ false
    → IsPage q
    → AllocAt s q (claim s (i, j))
unfolding claim
AllocAt-claim s i j q hi hj clear hq =
    let (word, bit, page) = page_at_fields i j hi hj in
    inr (page, ground (arith, word, bit), used-claim s i j q hi hj hq, omega arith, refl)

-- While the cursor is below 2 ^ 32, `mm_alloc_physical_page(0)` returns a page that was free and
-- marks exactly that page used, keeping the cursor in range and the counter; or it returns
-- MM_NADDR and changes nothing, and then every page is in use.
pub alloc_physical_page-AllocAt :
    (s : Phys) (q : ℕ) → s.alloc_last < 2 ^ 32 → IsPage q → AllocAt s q (alloc_physical_page 0 s)
unfolding alloc_physical_page
alloc_physical_page-AllocAt s q bound page = elim (alloc_page-Allocated s bound) [
  | claimed i j hi hj clear e ↦ rw e (AllocAt-claim s i j q hi hj clear page)
  | exhausted all e ↦
      rw e (inl (refl, refl, all (q / 2 ^ 17) (q / 2 ^ 12 % 32) (omega arith) (omega arith)))
]
