-- ===== src/Mm/Phys/Huge.antt =====
-- Huge pages, arch/x86/mm/phys.c: x86_mm_alloc_physical_page_huge searches the bitmap and does not
use native.Mathlib.Decide.{ℕ_discrete}
use ygg_kernel.Base.{
  Bool-cases, Option-cases, Word, arith, false, inl, inr, is_clear, is_clear-bit, is_full,
  is_full-bit, none, some, suc, true, zero, ℕ, ◌%◌, ◌*◌, ◌+◌, ◌/◌, ◌<◌, ◌^◌, ◌≡◌, ◌≢◌, ◌≤◌,
}
use ygg_kernel.Mm.Phys.{
  Phys, alloc_page_huge, alloc_physical_page, bitmap_words, find_huge, flg_ps, free_physical_page,
  naddr, words_clear,
}

-- write it.

-- Freeing a huge page asserts on the one word of its first 128 KiB, and every allocation of a huge
-- page returns an address whose word is clear.
find_huge-clear :
    (n i k : ℕ) (b : ℕ → Word)
    → find_huge n i b ≡ some k
    → (i ≤ k) × (k < i + n * 32) × (words_clear 32 k b ≡ true)
unfolding find_huge
find_huge-clear zero i k b h = absurd (ground arith)
find_huge-clear (suc n) i k b h = ground (arith, find_huge-clear n (i + 32) k b)

-- A clear word is not full.
is_clear-is_full : (w : Word) → is_clear 32 w ≡ true → is_full 32 w ≡ false
is_clear-is_full w h = elim (Bool-cases (is_full 32 w)) [
  | inl full ↦ absurd (ground (arith, is_full-bit 32 0 w full, is_clear-bit 32 0 w h))
  | inr e ↦ e
]

words_clear-word :
    (n i k : ℕ) (b : ℕ → Word)
    → words_clear n i b ≡ true
    → i ≤ k
    → k < i + n
    → is_clear 32 (b k) ≡ true
unfolding words_clear
words_clear-word zero i k b h le lt = absurd (omega arith)
words_clear-word (suc n) i k b h le lt = elim (ℕ_discrete i k) [
  | yes e ↦ rw (← e) (ground arith)
  | no ne ↦ words_clear-word n (i + 1) k b (ground arith) (omega arith) (omega arith)
]

-- Two huge allocations in a row return the same memory: the first one leaves no mark. So does any
-- number of them.
alloc_page_huge_twice :
    (s : Phys) → let (p, t) = alloc_physical_page flg_ps s in (alloc_physical_page flg_ps t).0 ≡ p
unfolding alloc_physical_page alloc_page_huge
alloc_page_huge_twice s = ground arith

-- A huge page that was just allocated cannot be freed: the assertion on its word fails.
free-alloc_page_huge :
    (s : Phys)
    → (alloc_physical_page flg_ps s).0 ≢ naddr
    → let (p, t) = alloc_physical_page flg_ps s in free_physical_page p flg_ps t ≡ none
unfolding alloc_physical_page alloc_page_huge free_physical_page
free-alloc_page_huge s found = elim (Option-cases (find_huge (bitmap_words / 32) 0 s.bitmap)) [
  | inl missed ↦ absurd (found (ground (arith, missed)))
  | inr (i, hit) ↦
      let (le, lt, clear) = find_huge-clear _ 0 i s.bitmap hit in
      let word = words_clear-word 32 i i s.bitmap clear (omega arith) (omega arith) in
      let index : i * 2 ^ 17 % 2 ^ 32 / 2 ^ 17 ≡ i = omega arith in
      ground (arith, hit, index, is_clear-is_full (s.bitmap i) word)
]
