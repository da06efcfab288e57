-- ===== src/Mm/Tests.antt =====
-- The page pool and the page tables at concrete inputs: a directory in the pool's first page, its
-- table information in the second one.
use ygg_kernel.Base.{
  Option, [], arith, false, if◌then◌else◌, inr, is_full, ltb, none, refl, some, ℕ, ◌&&◌, ◌+◌, ◌<◌,
  ◌==◌, ◌∷◌, ◌≡◌,
}
use ygg_kernel.Mm.Map.{map_into, map_new, map_page, translate}
use ygg_kernel.Mm.Map.Page.{CanMap, map_page-MapsAt}
use ygg_kernel.Mm.Map.Translate.{IsSpace, MapsAt, tabled}
use ygg_kernel.Mm.Phys.{find_bit, find_page}
use ygg_kernel.Mm.Pool.{
  MmState, Pool, pool_allocate, pool_base, pool_free, pool_free_from, release_page, search_pool,
  take_pool_page,
}
use ygg_kernel.Mm.Pool.Fresh.{IsPool}
use ygg_kernel.Mm.Pool.Reach.{All, Distinct, Held, IsHeld, Reach-IsSound, allocates, here, next}

abbrev words0 : ℕ → ℕ → ℕ
words0 p i = if p == pool_base then (if i == 1023 then pool_base + 0x1000 else 0) else 0

abbrev pool0 : Pool
pool0 = record {
  bitmap = λ j k. j == 0 && ltb k 2;
  index_last = 0;
  vaddr = pool_base;
  paddr = 0x40_0000;
}

abbrev mm0 : MmState
mm0 = record {
  words = words0;
  ram = λ _. 0;
  phys = record { bitmap = λ i j. false; alloc_last = 0; page_count = 0 };
  pools = λ _. pool0;
  kernel = pool_base;
}

mm0-IsPool : IsPool mm0
mm0-IsPool = record { base = refl; aligned = refl }

mm0_untabled : (i : ℕ) → i < 1023 → tabled mm0 pool_base i ≡ false
mm0_untabled i lt = ground arith

mm0-IsSpace : IsSpace mm0 pool_base
mm0-IsSpace = record {
  owned = (refl, refl);
  apart = omega arith;
  tables = λ i lt t. absurd (ground (arith, t, mm0_untabled i lt));
  distinct = λ i j lt lj t tj ne. absurd (ground (arith, t, mm0_untabled i lt));
}

-- The third page is handed out.
pool_test :
    pool_allocate mm0
    ≡ some (
      (take_pool_page 0 (0, 2) mm0).0,
      (take_pool_page 0 (0, 2) mm0).1,
      (take_pool_page 0 (0, 2) mm0).2,
    )
unfolding pool_allocate search_pool find_page find_bit is_full
pool_test = refl

mm0-CanMap : CanMap mm0 pool_base 1
unfolding take_pool_page
mm0-CanMap = inr (refl, refl, _, _, _, pool_test, λ j. refl)

map_page-MapsAt_example :
    (t : MmState) × (map_page pool_base 0x40_0123 0x80_0000 3 mm0 ≡ some t)
    × MapsAt pool_base 0x40_0123 0x80_0000 3 mm0 t
    × (t.words pool_base 0 ≡ mm0.words pool_base 0)
    × IsSpace t pool_base
    × IsPool t
map_page-MapsAt_example =
    map_page-MapsAt pool_base 0x40_0123 0x80_0000 3 mm0 mm0-IsPool mm0-IsSpace (omega arith)
      (omega arith) refl mm0-CanMap

-- A page is mapped, read back by mm_translate, and taken away again.
abbrev translated : ℕ → Option MmState → Option (ℕ × ℕ)
translated a none = none
translated a (some s) = translate pool_base a s

map_test : translated 0x40_0123 (map_page pool_base 0x40_0000 0x80_0000 3 mm0) ≡ some (0x80_0123, 2)
unfolding map_page map_new map_into translate pool_allocate search_pool find_page find_bit is_full
    take_pool_page
map_test = refl

abbrev held0 : Held
held0 = record { pages = []; state = mm0 }

abbrev taken0 : ℕ × ℕ × MmState
taken0 = take_pool_page 0 (0, 2) mm0

abbrev held1 : Held
held1 = record { pages = taken0.0 ∷ []; state = taken0.2 }

free_test : pool_free taken0.0 taken0.2 ≡ some (release_page 0 taken0.0 taken0.2)
unfolding pool_free pool_free_from take_pool_page
free_test = refl

Reach-IsSound_example : Distinct held1.pages × All (IsHeld held1.state) held1.pages
Reach-IsSound_example =
    Reach-IsSound mm0 held1 mm0-IsPool (next here (allocates held0 _ _ _ pool_test))
