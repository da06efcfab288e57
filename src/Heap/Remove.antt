-- ===== src/Heap/Remove.antt =====
-- heap_remove_region of sys/heap.c: an interval is taken out of the free blocks.
use ygg_kernel.Base.{
  Bool, Option, add32, align_up, bit_or, false, get_or, if◌then◌else◌, ltb, none, not, set, some,
  sub32, suc, true, update, zero, ℕ, ◌%◌, ◌+◌, ◌-◌, ◌==◌,
}
use ygg_kernel.Heap.{
  Block, Heap, Memory, flg_exclude, flg_used, header, heap_max, magic, set_next, set_size,
}

-- region_get_intersect: whether the intervals meet, and where they do.
unfoldable pub intersect : ℕ → ℕ → ℕ → ℕ → Bool × ℕ × ℕ
intersect a sa b sb =
    if ltb b a
    then (
      ltb (sub32 a b) sb,
      a,
      (if ltb (sub32 sb (sub32 a b)) sa then sub32 sb (sub32 a b) else sa),
    )
    else (
      ltb (sub32 b a) sa,
      b,
      (if ltb (sub32 sa (sub32 b a)) sb then sub32 sa (sub32 b a) else sb),
    )

-- The excluded block, whose data starts at `start`, and the free block behind it.
unfoldable pub carve : ℕ → ℕ → ℕ → Memory → Memory
carve base start sz m =
    let end = add32 start sz in
    let hole = sub32 start header in
    let m1 = update m hole (record {
      flags = bit_or (bit_or flg_used flg_exclude) magic;
      size = sz;
      prev = base;
      next = end;
    }) in
    let rest : Block = record {
      flags = magic;
      size = sub32 (sub32 (m1 base).size (sub32 end base)) header;
      prev = hole;
      next = 0;
    } in
    let m2 = update m1 end rest in
    set_next base hole (set_size base (sub32 (sub32 hole base) header) m2)

-- The loop of heap_remove_region: `n` rounds from region `i` on. It goes on with a lower `start`
-- where it has carved a block out.
unfoldable pub remove_from : ℕ → ℕ → ℕ → ℕ → Bool → Heap → Bool × Heap
remove_from zero i start sz found h = (found, h)
remove_from (suc n) i start sz found h =
    let base = get_or h.regions i 0 in
    let skip = remove_from n (i + 1) start sz found h in
    let moved =
      remove_from n (i + 1) start sz true
        (record h { regions = set h.regions i (add32 (add32 start sz) header) }) in
    let carved =
      remove_from n (i + 1) (sub32 start header) sz true
        (record h { mem = carve base start sz h.mem }) in
    if base == 0
    then (found, h)
    else if not ((h.mem base).next == 0)
    then skip
    else if (intersect base (add32 header (h.mem base).size) start sz).0
    then (if ltb (sub32 start base) header then moved else carved)
    else skip

-- heap_remove_region; `none` is its panic.
unfoldable pub remove_region : ℕ → ℕ → Heap → Option Heap
remove_region start sz h =
    let (found, h') = remove_from heap_max 0 (start - start % 8) (align_up sz 16) false h in
    if found then some h' else none
