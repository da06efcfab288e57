-- ===== src/Mm/Phys/Free.antt =====
-- Freeing of single pages, arch/x86/mm/phys.c.
-- What one free of the page `p` does to the page `q`: the assertion fails because `p` was not in
-- use, or `p` was in use and behind the call `q` is in use if it was and is not `p`.
use ygg_kernel.Base.{
  Option, arith, false, if◌then◌else◌, inl, inr, none, refl, some, true, ℕ, ◌%◌, ◌+◌, ◌/◌, ◌<◌,
  ◌==◌, ◌^◌, ◌≡◌, ◌≢◌,
}
use ygg_kernel.Mm.Phys.{Phys, alloc_physical_page, free_physical_page, naddr, set_bit}
use ygg_kernel.Mm.Phys.Alloc.{AllocAt, IsPage, alloc_physical_page-AllocAt, used}

abbrev pub FreeAt : Phys → ℕ → ℕ → Option Phys → Type 0
FreeAt s p q none = used s p ≡ false
FreeAt s p q (some t) =
    (used s p ≡ true)
    × (used t q ≡ (if q == p then false else used s q))
    × (t.alloc_last ≡ s.alloc_last)
    × (t.page_count ≡ (s.page_count + 1) % 2 ^ 32)

pub page-eq_of_fields :
    (p q : ℕ)
    → IsPage p
    → IsPage q
    → p / 2 ^ 17 ≡ q / 2 ^ 17
    → p / 2 ^ 12 % 32 ≡ q / 2 ^ 12 % 32
    → p ≡ q
page-eq_of_fields p q hp hq e f = omega arith

-- `mm_free_physical_page(p, 0)` asserts that `p` is in use, clears the bit of `p` and no other,
-- and counts the page.
pub free_physical_page-FreeAt :
    (s : Phys) (p q : ℕ) → IsPage p → IsPage q → FreeAt s p q (free_physical_page p 0 s)
unfolding free_physical_page set_bit
free_physical_page-FreeAt s p q hp hq = ground (arith, page-eq_of_fields p q hp hq)

-- A page that was just allocated can be freed, and then every page is in use exactly if it was
-- before the allocation.
pub free-alloc :
    (s : Phys) (q : ℕ)
    → s.alloc_last < 2 ^ 32
    → IsPage q
    → (alloc_physical_page 0 s).0 ≢ naddr
    → let (p, t) = alloc_physical_page 0 s in
      (u : Phys) × (free_physical_page p 0 t ≡ some u) × (used u q ≡ used s q)
free-alloc s q bound page found = go (alloc_physical_page-AllocAt s q bound page)
  where
    p : ℕ
    p = (alloc_physical_page 0 s).0

    t : Phys
    t = (alloc_physical_page 0 s).1

    freed :
        (r : Option Phys)
        → r ≡ free_physical_page p 0 t
        → used t p ≡ true
        → used t q ≡ (if q == p then true else used s q)
        → used s p ≡ false
        → FreeAt t p q r
        → (u : Phys) × (r ≡ some u) × (used u q ≡ used s q)
    freed none e h k l f = absurd (ground arith)
    freed (some u) e h k l f = (u, refl, ground arith)

    go :
        AllocAt s q (alloc_physical_page 0 s)
        → (u : Phys) × (free_physical_page p 0 t ≡ some u) × (used u q ≡ used s q)
    go (inl (e, f, g)) = absurd (found e)
    go (inr (hp, clear, at_q, bound', same)) =
        freed (free_physical_page p 0 t) refl (self (alloc_physical_page-AllocAt s p bound hp)) at_q
          clear (free_physical_page-FreeAt t p q hp page)
      where
        self : AllocAt s p (alloc_physical_page 0 s) → used t p ≡ true
        self (inl (e, f, g)) = absurd (found e)
        self (inr (_, _, at_p, _, _)) = ground arith

-- A second free of the same page fails its assertion.
pub free-free :
    (s t : Phys) (p : ℕ) → free_physical_page p 0 s ≡ some t → free_physical_page p 0 t ≡ none
unfolding free_physical_page set_bit
free-free s t p h = ground arith
