-- ===== src/Heap/Tests.antt =====
-- The heap at concrete inputs: tests, and the theorems at inputs that meet their conditions.
use ygg_kernel.Base.{
  List, Option, [], arith, false, has_flag, if◌then◌else◌, none, refl, some, true, ℕ, ◌+◌, ◌<◌,
  ◌==◌, ◌∷◌, ◌≡◌, ◌≢◌, ◌≤◌, ◌⊎◌,
}
use ygg_kernel.Heap.{
  Block, Heap, Memory, add_region, alloc, alloc_from, alloc_single, allocated, flg_used, free,
  free_from, free_single, free_slot, header, join_next, join_prev, magic, release, split_block,
  take_block, take_whole,
}
use ygg_kernel.Heap.Alloc.{
  Placed, alloc_single-fit, alloc_single-null, alloc_single-safe, split-prev,
}
use ygg_kernel.Heap.Chain.{Chain, Item, Rising, fit}
use ygg_kernel.Heap.FirstFit.{Fitted}
use ygg_kernel.Heap.Fit.{item_at}
use ygg_kernel.Heap.Free.{free_single_twice, live}
use ygg_kernel.Heap.Realloc.{realloc-size}
use ygg_kernel.Heap.Region.{carve-wraps, remove_region-blocks}
use ygg_kernel.Heap.Remove.{carve, intersect, remove_from, remove_region}
use ygg_kernel.Heap.Resize.{grow_part, realloc}
use ygg_kernel.Heap.Stats.{stat, stat_block, stat_chain, stat_from}

-- A block in use, a free one behind it, and a last one in use.
abbrev blocks : Memory
blocks p =
    if p == 0x1000
    then record { flags = live; size = 0x40; prev = 0; next = 0x1050 }
    else if p == 0x1050
    then record { flags = magic; size = 0x100; prev = 0x1000; next = 0x1160 }
    else if p == 0x1160
    then record { flags = live; size = 0x20; prev = 0x1050; next = 0x1190 }
    else if p == 0x1190
    then record { flags = magic; size = 0x50; prev = 0x1160; next = 0 }
    else record { flags = 0; size = 0; prev = 0; next = 0 }

abbrev heap : Heap
heap = record {
  mem = blocks;
  regions = 0x1000 ∷ 0 ∷ [];
  allocs = 2;
  frees = 0;
  alloc_bytes = 0x60;
  free_bytes = 0;
}

abbrev items : List Item
items =
    record { addr = 0x1000; size = 0x40; flags = live }
    ∷ record { addr = 0x1050; size = 0x100; flags = magic }
    ∷ record { addr = 0x1160; size = 0x20; flags = live }
    ∷ record { addr = 0x1190; size = 0x50; flags = magic }
    ∷ []

-- The pointer of a result.
abbrev pointer : Option (ℕ × Heap) → Option ℕ
pointer none = none
pointer (some (p, h)) = some p

alloc-heap : pointer (alloc 9 0x30 heap) ≡ some 0x1060
unfolding alloc alloc_from alloc_single allocated
alloc-heap = refl

alloc_none : pointer (alloc 9 0x300 heap) ≡ some 0
unfolding alloc alloc_from alloc_single allocated
alloc_none = refl

items-Rising : Rising 1 items
items-Rising = omega arith

blocks-Chain : Chain blocks 0x1000 items
blocks-Chain = omega arith

alloc_single-fit_example :
    (r : ℕ × Heap) × (alloc_single 5 0x1000 0x30 heap ≡ some r)
    × Fitted heap 0x1000 (fit 0x30 items) r
alloc_single-fit_example =
    alloc_single-fit 5 0x30 heap 0x1000 1 items (omega arith) items-Rising blocks-Chain
      (omega arith)

split_run : alloc_single 5 0x1000 0x30 heap ≡ some (0x1060, allocated 0x1050 0x30 heap)
unfolding alloc_single
split_run = refl

null_run : alloc_single 5 0x1000 0x300 heap ≡ some (0, heap)
unfolding alloc_single
null_run = refl

item_at-items : item_at 0x1160 items ≡ some (record { addr = 0x1160; size = 0x20; flags = live })
unfolding item_at
item_at-items = refl

alloc_single-safe_example :
    Placed 0x1000 1 0x30 items
      (allocated 0x1050 0x30 heap)
      0x1060
      0x1160
      (record { addr = 0x1160; size = 0x20; flags = live })
alloc_single-safe_example =
    alloc_single-safe 5 0x30 heap (allocated 0x1050 0x30 heap) 0x1000 1 0x1060 0x1160
      (record { addr = 0x1160; size = 0x20; flags = live }) items (omega arith) items-Rising
      blocks-Chain (omega arith) split_run item_at-items (omega arith)

alloc_single-null_example : (heap ≡ heap) × ((has_flag live flg_used ≡ true) ⊎ (0x20 < 0x300))
alloc_single-null_example =
    alloc_single-null 5 0x300 heap heap 0x1000 1 0 0x1160
      (record { addr = 0x1160; size = 0x20; flags = live }) items (omega arith) items-Rising
      blocks-Chain (omega arith) null_run item_at-items refl

split-prev_example :
    let g = allocated 0x1050 0x30 heap in
    let newb = (g.mem 0x1050).next in
    (newb ≢ 0x1050) × ((g.mem newb).next ≡ 0x1160) × ((g.mem 0x1160).prev ≡ 0x1050)
split-prev_example =
    split-prev 0x1050 0x30 0x1160 heap refl refl (omega arith) (omega arith) (omega arith)
      (omega arith) (omega arith)

free_single_twice_example :
    (g : Heap) × (free_single 0x1170 heap ≡ some g) × (free_single 0x1170 g ≡ none)
free_single_twice_example = free_single_twice 0x1170 heap refl

realloc_run :
    realloc 0x1010 0x60 heap
    ≡ some (0x1010, record heap { mem = grow_part 0x1000 0x60 0x20 blocks })
unfolding realloc
realloc_run = refl

realloc-size_example :
    (◌≡◌ {A = ℕ} 0x1010 0x1010)
    × (0x60 ≤ (grow_part 0x1000 0x60 0x20 blocks 0x1000).size)
    × ((grow_part 0x1000 0x60 0x20 blocks 0x1000).size < 0x60 + header)
    × ((blocks 0x1000).size < (grow_part 0x1000 0x60 0x20 blocks 0x1000).size
        → ((blocks 0x1000).next ≢ 0)
          × (has_flag (blocks (blocks 0x1000).next).flags flg_used ≡ false)
          × ((grow_part 0x1000 0x60 0x20 blocks 0x1000).size
              ≤ (blocks 0x1000).size + header + (blocks (blocks 0x1000).next).size))
realloc-size_example =
    realloc-size 0x1010 0x60 0x1010 heap (record heap { mem = grow_part 0x1000 0x60 0x20 blocks })
      (omega arith) (omega arith) (omega arith) realloc_run

-- A run that ends with a block in use inside a free one. The free block at 0x1050 is split, its two
-- parts are taken, the first part is freed, and then the block behind, whose `prev` still names the
-- first part: the join takes in the second part, which is in use.
abbrev swallowed : Option Heap → Option Block
swallowed none = none
swallowed (some h) = some (h.mem 0x1050)

overlap : ℕ → Option Heap → Option Heap
overlap p none = none
overlap p (some h) = free p h

abbrev split_twice : Heap
split_twice = allocated 0x1090 0xc0 (allocated 0x1050 0x30 heap)

free_swallows_used :
    swallowed (overlap 0x1170 (overlap 0x1060 (some split_twice)))
    ≡ some (record { flags = magic; size = 0x30 + 0xc0 + header; prev = 0x1000; next = 0x1160 })
unfolding overlap free free_from free_single release join_next join_prev allocated take_block
    take_whole split_block
free_swallows_used = refl

-- One free block of a region.
abbrev region : Memory
region p =
    if p == 0x1000
    then record { flags = magic; size = 0x1000; prev = 0; next = 0 }
    else record { flags = 0; size = 0; prev = 0; next = 0 }

abbrev one_block : Heap
one_block = record heap { mem = region; regions = 0x1000 ∷ 0 ∷ [] }

remove_region-blocks_example :
    (g : Heap) × (remove_region 0x1804 0xf4 one_block ≡ some g)
    × (let hole = (g.mem 0x1000).next in
        let rest = (g.mem hole).next in
        (0x1000 + header + (g.mem 0x1000).size ≡ hole)
        × (hole + header ≡ 0x1800)
        × ((g.mem hole).size ≡ 0x100)
        × (has_flag (g.mem hole).flags flg_used ≡ true)
        × (rest ≡ 0x1800 + 0x100)
        × (rest + header + (g.mem rest).size ≡ 0x1000 + 0x1000)
        × (has_flag (g.mem rest).flags flg_used ≡ false))
remove_region-blocks_example =
    remove_region-blocks 0x1000 0x1804 0xf4 [] one_block refl (omega arith) refl (omega arith)
      (omega arith) (omega arith)

carve-wraps_example : 0x1000 < (carve 0x1000 0x1800 0x900 region (0x1800 + 0x900)).size
carve-wraps_example =
    carve-wraps 0x1000 0x1800 0x900 region (omega arith) (omega arith) (omega arith) (omega arith)
      (omega arith)

-- An interval over the header of a region moves the region, and writes no header at the new place.
abbrev regions_of : Option Heap → Option (List ℕ)
regions_of none = none
regions_of (some h) = some h.regions

remove_moves :
    regions_of (remove_region 0x1000 0x100 (record heap { mem = region })) ≡ some (0x1110 ∷ 0 ∷ [])
unfolding remove_region remove_from intersect
remove_moves = refl

stat-heap :
    stat 9 heap ≡ some (record { free = 0x150; used = 0x60; total = 0x1f0; blocks = 4; frags = 1 })
unfolding stat stat_from stat_chain stat_block
stat-heap = refl

added : regions_of (add_region 0x2001 0x3000 heap) ≡ some (0x1000 ∷ 0x2008 ∷ [])
unfolding add_region free_slot
added = refl
