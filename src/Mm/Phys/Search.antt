-- ===== src/Mm/Phys/Search.antt =====
-- The two scans of the allocator of arch/x86/mm/phys.c: what they find, and when they find nothing.
use native.Mathlib.Decide.{dec_lt}
use ygg_kernel.Base.{
  Bool-cases, Option, Option-cases, Word, arith, false, inl, inr, is_full-bit, none, some, suc,
  true, zero, ℕ, ◌+◌, ◌-◌, ◌/◌, ◌<◌, ◌^◌, ◌≡◌, ◌≤◌,
}
use ygg_kernel.Mm.Phys.{Phys, alloc_page, bitmap_words, claim, find_bit, find_page, naddr}

-- A bit that the scan of a word returns lies in its range and is clear.
find_bit-clear :
    (n j k : ℕ) (w : Word) → find_bit n j w ≡ some k → (j ≤ k) × (k < j + n) × (w k ≡ false)
unfolding find_bit
find_bit-clear zero j k w h = absurd (ground arith)
find_bit-clear (suc n) j k w h = ground (arith, find_bit-clear n (j + 1) k w)

-- The scan of a word fails only where every bit of the range is set.
find_bit-none : (n j k : ℕ) (w : Word) → find_bit n j w ≡ none → j ≤ k → k < j + n → w k ≡ true
unfolding find_bit
find_bit-none zero j k w h le lt = absurd (omega arith)
find_bit-none (suc n) j k w h le lt = elim (Bool-cases (w j)) [
  | inr clear ↦ absurd (ground arith)
  | inl taken ↦ ground (arith, find_bit-none n (j + 1) k w)
]

pub find_page-clear :
    (n i a k : ℕ) (b : ℕ → Word)
    → find_page n i b ≡ some (a, k)
    → (i ≤ a) × (a < i + n) × (k < 32) × (b a k ≡ false)
unfolding find_page
find_page-clear zero i a k b h = absurd (ground arith)
find_page-clear (suc n) i a k b h =
    ground (arith, find_page-clear n (i + 1) a k b, find_bit-clear 32 0 k (b i))

find_page-none :
    (n i a k : ℕ) (b : ℕ → Word)
    → find_page n i b ≡ none
    → i ≤ a
    → a < i + n
    → k < 32
    → b a k ≡ true
unfolding find_page
find_page-none zero i a k b h le lt bit = absurd (omega arith)
find_page-none (suc n) i a k b h le lt bit =
    ground
      (arith, find_page-none n (i + 1) a k b, is_full-bit 32 k (b i), find_bit-none 32 0 k (b i))

-- What one call of the allocator does: it claims a clear bit, or every bit is set.
pub data Allocated (s : Phys) (r : ℕ × Phys) : Type 0 where
  claimed :
      (i j : ℕ)
      → i < bitmap_words
      → j < 32
      → s.bitmap i j ≡ false
      → r ≡ claim s (i, j)
      → Allocated s r
  exhausted :
      ((i j : ℕ) → i < bitmap_words → j < 32 → s.bitmap i j ≡ true) → r ≡ (naddr, s) → Allocated s r

pub alloc_page-Allocated : (s : Phys) → s.alloc_last < 2 ^ 32 → Allocated s (alloc_page s)
unfolding alloc_page
alloc_page-Allocated s bound = elim (Option-cases first) [
  | inr ((i, j), found) ↦
      let (le, lt, bit, clear) = find_page-clear _ _ i j s.bitmap found in
      claimed i j (omega arith) bit clear (ground (arith, found))
  | inl missed ↦ elim (Option-cases second) [
    | inr ((i, j), found) ↦
        let (le, lt, bit, clear) = find_page-clear _ _ i j s.bitmap found in
        claimed i j (omega arith) bit clear (ground (arith, missed, found))
    | inl missed' ↦
        exhausted
          (λ i j lt bit. elim (dec_lt i (s.alloc_last / 2 ^ 17)) [
            | yes below ↦ find_page-none _ 0 i j s.bitmap missed' (omega arith) (omega arith) bit
            | no above ↦ find_page-none _ _ i j s.bitmap missed (omega arith) (omega arith) bit
          ])
          (ground (arith, missed, missed'))
  ]
]
  where
    first : Option (ℕ × ℕ)
    first = find_page (bitmap_words - s.alloc_last / 2 ^ 17) (s.alloc_last / 2 ^ 17) s.bitmap

    second : Option (ℕ × ℕ)
    second = find_page (s.alloc_last / 2 ^ 17) 0 s.bitmap
