-- ===== src/Heap/Resize.antt =====
-- heap_realloc of sys/heap.c: a block shrinks or grows in place, or moves.
use ygg_kernel.Base.{
  Option, add32, bit_and, bit_xor, has_flag, if◌then◌else◌, leb, ltb, none, not, some, sub32, ℕ,
  ◌&&◌, ◌==◌, ◌^◌,
}
use ygg_kernel.Heap.{
  Heap, Memory, flg_used, header, heap_data, magic, set_flags, set_next, set_prev, set_size,
}

-- The last step of a shrinking heap_realloc: the new block takes in its next one, if that is free.
unfoldable pub join_new : ℕ → Memory → Memory
join_new newb m =
    if has_flag (m (m newb).next).flags flg_used
    then m
    else let next = (m newb).next in
      let m1 = set_size newb (add32 (m newb).size (add32 header (m next).size)) m in
      let m2 = set_next newb (m1 next).next m1 in
      let m3 = if (m2 next).next == 0 then m2 else set_prev (m2 next).next newb m2 in
      set_flags next (bit_xor (m3 next).flags magic) m3

-- The new block is linked between the shrunk one and its next one, if there is one.
unfoldable pub link_new : ℕ → ℕ → Memory → Memory
link_new it newb m =
    if (m it).next == 0
    then set_next newb 0 m
    else let m1 = set_next it newb (set_next newb (m it).next m) in
      join_new newb (if (m1 newb).next == 0 then m1 else set_prev (m1 newb).next newb m1)

-- The shrinking branch of heap_realloc, with `cut` bytes less.
unfoldable pub shrink : ℕ → ℕ → ℕ → Memory → Memory
shrink it count cut m =
    let newb = add32 (heap_data it) count in
    let m1 = set_size newb (sub32 cut header) m in
    let m2 = set_flags newb magic (set_prev newb it m1) in link_new it newb (set_size it count m2)

-- Expansion over the whole of the next block.
unfoldable pub grow_whole : ℕ → ℕ → Memory → Memory
grow_whole it count m =
    let next = (m it).next in
    let m1 = set_next it (m next).next m in
    let m2 = if (m1 it).next == 0 then m1 else set_prev (m1 it).next it m1 in
    set_size it count (set_flags next (bit_xor (m2 next).flags magic) m2)

-- Expansion by `diff` bytes over a part of the next block.
unfoldable pub grow_part : ℕ → ℕ → ℕ → Memory → Memory
grow_part it count diff m =
    let next = (m it).next in
    let newb = add32 (heap_data it) count in
    let m1 = set_prev newb it m in
    let m2 = set_next newb (m1 next).next m1 in
    let m3 = if (m2 newb).next == 0 then m2 else set_prev (m2 newb).next newb m2 in
    let m4 = set_next it newb m3 in
    let m5 = set_flags next (bit_xor (m4 next).flags magic) m4 in
    let m6 = set_size newb (sub32 (m5 next).size diff) m5 in
    set_flags newb magic (set_size it count m6)

-- heap_realloc: the pointer and the heap; `none` is a panic. `diff < 0` is the sign bit of the
-- 32-bit difference, and the comparisons with a size are unsigned.
unfoldable pub realloc : ℕ → ℕ → Heap → Option (ℕ × Heap)
realloc ptr count h =
    let it = sub32 ptr header in
    let m = h.mem in
    let diff = sub32 count (m it).size in
    let cut = sub32 0 diff in
    let next = (m it).next in
    if not (bit_and (m it).flags magic == magic)
    then none
    else if leb (2 ^ 31) diff
    then (if leb header cut
        then some (heap_data it, record h { mem = shrink it count cut m })
        else some (heap_data it, h))
    else if not (next == 0) && not (has_flag (m next).flags flg_used)
    then (if leb (m next).size diff && leb (sub32 diff header) (m next).size
        then some (heap_data it, record h { mem = grow_whole it count m })
        else if ltb diff (m next).size
        then some (heap_data it, record h { mem = grow_part it count diff m })
        else none)
    else none
