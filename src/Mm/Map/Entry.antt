-- ===== src/Mm/Map/Entry.antt =====
-- The bits of an entry of a page table.
use ygg_kernel.Base.{
  ==_iff, all_below-at, arith, bit_or, refl, true, ℕ, ◌%◌, ◌+◌, ◌<◌, ◌==◌, ◌^◌, ◌≡◌,
}
use ygg_kernel.Mm.Map.{page_base}
use ygg_kernel.Mm.Pool.{access, or_low, present}

or_table : (f : ℕ) → f < 256 → bit_or 0 f ≡ f
or_table f lt = (==_iff (bit_or 0 f) f).0 (all_below-at 256 (λ g. bit_or 0 g == g) f refl lt)

-- On an aligned address the flags stand below it.
pub or_low-add : (a f : ℕ) → a % 2 ^ 12 ≡ 0 → f < 256 → or_low a f ≡ a + f
or_low-add a f aligned lt = rw (aligned, or_table f lt) (omega arith)

-- What the processor and mm_translate read from the entry of a page.
pub record Reads (entry page flags : ℕ) : Type 0 where
  pub is_present : present entry ≡ true
  pub base : page_base entry ≡ page
  pub rights : access entry ≡ access flags

pub or_low-Reads :
    (page flags : ℕ) → page % 2 ^ 12 ≡ 0 → Reads (or_low page (access flags + 1)) page flags
or_low-Reads page flags aligned =
    let e = or_low-add page (access flags + 1) aligned (omega arith) in
    record { is_present = ground (arith, e); base = omega (arith, e); rights = omega (arith, e) }
