-- ===== src/Mm/Phys/Init.antt =====
-- The memory map at start-up, arch/x86/mm/phys.c: which pages x86_mm_phys_init frees.
-- Every free page may be claimed.
use native.Mathlib.Decide.{ℕ_discrete}
use native.Mathlib.Decide.{ℕ_discrete}
use native.Mathlib.Decide.{ℕ_discrete}
use native.Mathlib.Decide.{ℕ_discrete}
use ygg_kernel.Base.{
  Bool-cases, List, Option-cases, [], ap, arith, false, if◌then◌else◌, inl, inr, some, suc, true,
  zero, ℕ, ◌%◌, ◌*◌, ◌+◌, ◌-◌, ◌/◌, ◌<◌, ◌==◌, ◌^◌, ◌∷◌, ◌≡◌, ◌≤◌, ◌⊎◌,
}
use ygg_kernel.Mm.Phys.{
  MmapEntry, Phys, add_entries, add_entry, add_page, can_claim, claim_pages, clip, memory_available,
  phys_init, set_bit,
}
use ygg_kernel.Mm.Phys.Alloc.{IsPage, used}
use ygg_kernel.Mm.Phys.Free.{page-eq_of_fields}

abbrev Claimable : Phys → ℕ → Type 0
Claimable s q = used s q ≡ false → can_claim q ≡ true

used-add_page :
    (s : Phys) (p q : ℕ)
    → IsPage p
    → IsPage q
    → used (add_page s p) q ≡ (if q == p then false else used s q)
unfolding add_page set_bit
used-add_page s p q hp hq = ground (arith, page-eq_of_fields p q hp hq)

-- The address of round `i`.
abbrev page_of : ℕ → ℕ → ℕ
page_of i addr = (i * 2 ^ 12 + (addr - addr % 0x1000)) % 2 ^ 32

page_of-IsPage : (i addr : ℕ) → IsPage (page_of i addr)
page_of-IsPage i addr = omega arith

-- The pages of one round: `add_page` where the page may be claimed.
used-round :
    (s : Phys) (p q : ℕ)
    → IsPage p
    → IsPage q
    → used (if can_claim p then add_page s p else s) q
      ≡ (if q == p then (if can_claim p then false else used s q) else used s q)
used-round s p q hp hq = elim (Bool-cases (can_claim p)) [
  | inl claims ↦ rw claims (used-add_page s p q hp hq)
  | inr refuses ↦ rw refuses (ground arith)
]

Claimable-round :
    (s : Phys) (p q : ℕ)
    → IsPage p
    → IsPage q
    → Claimable s q
    → Claimable (if can_claim p then add_page s p else s) q
Claimable-round s p q hp hq h free =
    ground (arith, h, used-round s p q hp hq, ap can_claim {x = q} {y = p})

claim_pages-Claimable :
    (n i addr : ℕ) (s : Phys) (q : ℕ)
    → IsPage q
    → Claimable s q
    → Claimable (claim_pages n i addr s) q
unfolding claim_pages
claim_pages-Claimable zero i addr s q hq h = h
claim_pages-Claimable (suc n) i addr s q hq h =
    claim_pages-Claimable n (i + 1) addr _ q hq
      (Claimable-round s (page_of i addr) q (page_of-IsPage i addr) hq h)

add_entry-Claimable :
    (s t : Phys) (e : MmapEntry) (q : ℕ)
    → IsPage q
    → add_entry s e ≡ some t
    → Claimable s q
    → Claimable t q
unfolding add_entry
add_entry-Claimable s t e q hq r h free = elim (Option-cases (clip e)) [
  | inl skipped ↦ ground (arith, skipped, h)
  | inr (len, kept) ↦
      ground (arith, kept, h, claim_pages-Claimable (len % 2 ^ 32 / 0x1000) 0 e.addr s q hq h)
]

add_entries-Claimable :
    (s t : Phys) (es : List MmapEntry) (q : ℕ)
    → IsPage q
    → add_entries s es ≡ some t
    → Claimable s q
    → Claimable t q
unfolding add_entries
add_entries-Claimable s t [] q hq r h free = ground (arith, h)
add_entries-Claimable s t (e ∷ es) q hq r h free = elim (Option-cases (add_entry s e)) [
  | inl failed ↦ absurd (ground (arith, failed))
  | inr (u, added) ↦
      add_entries-Claimable u t es q hq (ground (arith, added))
        (add_entry-Claimable s u e q hq added h) free
]

-- After start-up every page that is not in use lies above the kernel's and the paging structures'
-- 16 MiB and below 1 GiB, whatever the memory map says.
pub phys_init-free_range :
    (s t : Phys) (es : List MmapEntry) (q : ℕ)
    → IsPage q
    → phys_init s es ≡ some t
    → used t q ≡ false
    → (0x100_0000 < q) × (q < 0x4000_0000)
unfolding phys_init can_claim
phys_init-free_range s t es q hq r free = ground (
  arith,
  add_entries-Claimable (record s { bitmap = λ _ _. true }) t es q hq r (λ h. absurd (ground arith))
      free,
)

-- A free page stays free in a round.
free-round :
    (s : Phys) (p q : ℕ)
    → IsPage p
    → IsPage q
    → used s q ≡ false
    → used (if can_claim p then add_page s p else s) q ≡ false
free-round s p q hp hq h = ground (arith, used-round s p q hp hq)

claimed-round :
    (s : Phys) (p q : ℕ)
    → IsPage q
    → can_claim q ≡ true
    → q ≡ p
    → used (if can_claim p then add_page s p else s) q ≡ false
claimed-round s p q hq claims e = rw (← e) (ground (arith, used-round s q q hq hq))

-- A page that may be claimed is free behind the loop if it was, or if it is one of the `n` pages
-- from the `i`th on of a region that starts at a multiple of 2 ^ 32.
claim_pages-free :
    (n i : ℕ) (s : Phys) (q base : ℕ)
    → IsPage q
    → can_claim q ≡ true
    → base % 2 ^ 32 ≡ 0
    → (used s q ≡ false) ⊎ ((i * 2 ^ 12 ≤ q) × (q < (i + n) * 2 ^ 12))
    → used (claim_pages n i base s) q ≡ false
unfolding claim_pages
claim_pages-free zero i s q base hq claims b (inl free) = free
claim_pages-free zero i s q base hq claims b (inr (le, lt)) = absurd (omega arith)
claim_pages-free (suc n) i s q base hq claims b (inl free) =
    claim_pages-free n (i + 1) _ q base hq claims b
      (inl (free-round s (page_of i base) q (page_of-IsPage i base) hq free))
claim_pages-free (suc n) i s q base hq claims b (inr (le, lt)) =
    claim_pages-free n (i + 1) _ q base hq claims b (elim (ℕ_discrete q (page_of i base)) [
      | yes e ↦ inl (claimed-round s (page_of i base) q hq claims e)
      | no ne ↦ inr (omega arith)
    ])

clip-high :
    (e : MmapEntry)
    → e.addr % 2 ^ 32 ≡ 0
    → 0 < e.addr
    → e.addr + e.len < 2 ^ 64
    → clip e ≡ some ((2 ^ 64 + 0xFFFF_FFFF - e.addr) % 2 ^ 64)
unfolding clip
clip-high e base pos fits = ground arith

can_claim_bound : (q : ℕ) → can_claim q ≡ true → q < 2 ^ 30
unfolding can_claim
can_claim_bound q h = ground arith

add_entry-claim_pages :
    (s : Phys) (e : MmapEntry) (len n : ℕ)
    → e.kind ≡ memory_available
    → clip e ≡ some len
    → len % 2 ^ 32 / 0x1000 ≡ n
    → add_entry s e ≡ some (claim_pages n 0 e.addr s)
unfolding add_entry
add_entry-claim_pages s e len n kind kept rounds = ground (arith, kept, kind, rounds)

-- An available region that starts at a multiple of 4 GiB and ends below 2 ^ 64 makes every page
-- that may be claimed free, although all these pages lie below the region.
pub add_entry-high :
    (s : Phys) (e : MmapEntry) (q : ℕ)
    → e.kind ≡ memory_available
    → e.addr % 2 ^ 32 ≡ 0
    → 0 < e.addr
    → e.addr + e.len < 2 ^ 64
    → IsPage q
    → can_claim q ≡ true
    → (q < e.addr) × ((t : Phys) × (add_entry s e ≡ some t) × (used t q ≡ false))
add_entry-high s e q kind base pos fits hq claims = (
  omega arith,
  (
    claim_pages 0xF_FFFF 0 e.addr s,
    add_entry-claim_pages s e _ _ kind (clip-high e base pos fits) (omega arith),
    claim_pages-free 0xF_FFFF 0 s q e.addr hq claims base
        (inr (omega arith, omega (arith, can_claim_bound q claims))),
  ),
)
