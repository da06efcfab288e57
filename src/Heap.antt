-- ===== src/Heap.antt =====
-- The kernel heap, sys/heap.c: regions of memory, each a doubly linked chain of blocks with a
-- 16-byte header before the data. A header is read and written as a whole at its address: the
-- model does not cover two headers that overlap in part. A loop along a chain takes fuel.
pub mod Split
pub mod Chain
pub mod FirstFit
pub mod Fit
pub mod Alloc
pub mod Free
pub mod Join
pub mod Realloc
pub mod Region
pub mod Resize
pub mod Remove
pub mod Stats
mod Tests
use ygg_kernel.Base.{
  List, Option, [], add32, align_up, bit_and, bit_or, bit_xor, has_flag, if◌then◌else◌, leb, ltb,
  none, not, replicate, set, some, sub32, suc, update, zero, ℕ, ◌&&◌, ◌+◌, ◌-◌, ◌==◌, ◌∷◌,
}

-- struct heap_block
pub record Block : Type 0 where
  pub flags : ℕ
  pub size : ℕ
  pub prev : ℕ
  pub next : ℕ

abbrev pub Memory : Type 0
Memory = ℕ → Block

-- The memory, s_heap_regions (HEAP_MAX pointers, null where no region is set) and the counters.
pub record Heap : Type 0 where
  pub mem : Memory
  pub regions : List ℕ
  pub allocs : ℕ
  pub frees : ℕ
  pub alloc_bytes : ℕ
  pub free_bytes : ℕ

-- HEAP_MAX, HEAP_MAGIC, HEAP_FLG_USED, HEAP_FLG_EXCLUDE and sizeof(struct heap_block)
abbrev pub heap_max : ℕ
heap_max = 16

abbrev pub magic : ℕ
magic = 0xDEAD_F00D

abbrev pub flg_used : ℕ
flg_used = 0x10

abbrev pub flg_exclude : ℕ
flg_exclude = 0x20

abbrev pub header : ℕ
header = 16

-- `~HEAP_MAGIC`
abbrev pub not_magic : ℕ
not_magic = 0xFFFF_FFFF - magic

-- HEAP_DATA
abbrev pub heap_data : ℕ → ℕ
heap_data b = add32 b header

-- Writes of one field.
abbrev pub set_flags : ℕ → ℕ → Memory → Memory
set_flags p v m = update m p (record (m p) { flags = v })

abbrev pub set_size : ℕ → ℕ → Memory → Memory
set_size p v m = update m p (record (m p) { size = v })

abbrev pub set_prev : ℕ → ℕ → Memory → Memory
set_prev p v m = update m p (record (m p) { prev = v })

abbrev pub set_next : ℕ → ℕ → Memory → Memory
set_next p v m = update m p (record (m p) { next = v })

-- heap_init
pub init : Heap → Heap
init h = record h { regions = replicate heap_max 0 }

-- The slot that a new region takes, `none` where all are set.
free_slot : List ℕ → ℕ → Option ℕ
free_slot [] i = none
free_slot (r ∷ rs) i = if r == 0 then some i else free_slot rs (i + 1)

-- heap_add_region; `none` is its panic.
pub add_region : ℕ → ℕ → Heap → Option Heap
add_region a b h =
    let base = align_up a 8 in
    let block : Block = record {
      flags = magic;
      size = sub32 (sub32 b base) header;
      prev = 0;
      next = 0;
    } in
    elim (free_slot h.regions 0) [
      | none ↦ none
      | some i ↦ some (record h { mem = update h.mem base block; regions = set h.regions i base })
    ]

-- Case 1 of heap_alloc_single: the whole block is taken.
pub take_whole : ℕ → ℕ → Memory → Memory
take_whole it count m = set_size it count (set_flags it (bit_or (m it).flags flg_used) m)

-- Case 2: a new block is made of the rest.
pub split_block : ℕ → ℕ → Memory → Memory
split_block it count m =
    let newb = add32 (heap_data it) count in
    let m1 = set_next newb (m it).next m in
    let m2 = set_prev newb it m1 in
    let m3 = set_next it newb m2 in
    let m4 = set_size newb (sub32 (sub32 (m3 it).size count) header) m3 in
    let m5 = set_size it count m4 in
    let m6 = set_flags it (bit_or (m5 it).flags flg_used) m5 in set_flags newb magic m6

pub take_block : ℕ → ℕ → Memory → Memory
take_block it count m =
    if leb count (m it).size && ltb (m it).size (add32 count header)
    then take_whole it count m
    else split_block it count m

-- The block is taken and the allocation counted.
pub allocated : ℕ → ℕ → Heap → Heap
allocated it count h = record h {
  mem = take_block it count h.mem;
  allocs = add32 h.allocs 1;
  alloc_bytes = add32 h.alloc_bytes count;
}

-- heap_alloc_single: the pointer (0 is NULL) and the heap; `none` means that the fuel ran out.
pub alloc_single : ℕ → ℕ → ℕ → Heap → Option (ℕ × Heap)
alloc_single zero it count h = none
alloc_single (suc k) it count h =
    let rest = alloc_single k (h.mem it).next count h in
    if it == 0
    then some (0, h)
    else if has_flag (h.mem it).flags flg_used
    then rest
    else if ltb (h.mem it).size count
    then rest
    else some (heap_data it, allocated it count h)

-- The loop of heap_alloc over the regions.
alloc_from : ℕ → List ℕ → ℕ → Heap → Option (ℕ × Heap)
alloc_from k [] count h = some (0, h)
alloc_from k (r ∷ rs) count h =
    let rest = alloc_from k rs count h in
    if r == 0 then some (0, h) else elim (alloc_single k r count h) [
      | none ↦ none
      | some (p, h') ↦ if p == 0 then rest else some (p, h')
    ]

-- heap_alloc
pub alloc : ℕ → ℕ → Heap → Option (ℕ × Heap)
alloc k count h = alloc_from k h.regions count h

-- The block takes in its next one, if that is free.
pub join_next : ℕ → Memory → Memory
join_next it m =
    let next = (m it).next in
    if not (next == 0) && not (has_flag (m next).flags flg_used)
    then (let m1 = set_size it (add32 (m it).size (add32 (m next).size header)) m in
        let m2 =
          if (m1 (m1 it).next).next == 0 then m1 else set_prev (m1 (m1 it).next).next it m1 in
        let m3 = set_flags (m2 it).next (bit_and (m2 (m2 it).next).flags not_magic) m2 in
        set_next it (m3 (m3 it).next).next m3)
    else m

-- The previous block takes in this one, if the previous one is free.
pub join_prev : ℕ → Memory → Memory
join_prev it m =
    let prev = (m it).prev in
    if not (prev == 0) && not (has_flag (m prev).flags flg_used)
    then (let m1 = set_size prev (add32 (m prev).size (add32 (m (m prev).next).size header)) m in
        let m2 = set_flags (m1 prev).next (bit_and (m1 (m1 prev).next).flags not_magic) m1 in
        let m3 = set_next prev (m2 (m2 prev).next).next m2 in
        if (m3 prev).next == 0 then m3 else set_prev (m3 prev).next prev m3)
    else m

-- The memory behind a successful heap_free_single.
pub release : ℕ → Memory → Memory
release it m = join_prev it (join_next it (set_flags it (bit_xor (m it).flags flg_used) m))

-- heap_free_single: the heap after result 0, `none` for result -1.
pub free_single : ℕ → Heap → Option Heap
free_single ptr h =
    let it = sub32 ptr header in
    if (bit_and (h.mem it).flags magic == magic) && has_flag (h.mem it).flags flg_used
    then some (record h {
      mem = release it h.mem;
      frees = add32 h.frees 1;
      free_bytes = add32 h.free_bytes (h.mem it).size;
    })
    else none

-- The loop of heap_free over the regions; `none` is a panic.
free_from : List ℕ → ℕ → Heap → Option Heap
free_from [] ptr h = none
free_from (r ∷ rs) ptr h =
    let rest = free_from rs ptr h in
    if r == 0
    then none
    else if ltb r ptr
    then elim (free_single ptr h) [ some h' ↦ some h' | none ↦ rest ]
    else rest

-- heap_free
pub free : ℕ → Heap → Option Heap
free ptr h = if ptr == 0 then some h else free_from h.regions ptr h
