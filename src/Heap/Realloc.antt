-- ===== src/Heap/Realloc.antt =====
-- heap_realloc, sys/heap.c.
use ygg_kernel.Base.{
  Bool-cases, add32, arith, false, has_flag, inl, inr, none, some, sub32, true, ℕ, ◌+◌, ◌<◌, ◌==◌,
  ◌^◌, ◌∙◌, ◌≡◌, ◌≢◌, ◌≤◌, ◌⊎◌,
}
use ygg_kernel.Heap.{Heap, Memory, flg_used, header, heap_data}
use ygg_kernel.Heap.Resize.{grow_part, grow_whole, join_new, link_new, realloc, shrink}

size-join_new : (it newb : ℕ) (m : Memory) → newb ≢ it → (join_new newb m it).size ≡ (m it).size
unfolding join_new
size-join_new it newb m apart = ground arith

size-link_new : (it newb : ℕ) (m : Memory) → newb ≢ it → (link_new it newb m it).size ≡ (m it).size
unfolding link_new
size-link_new it newb m apart = elim (Bool-cases ((m it).next == 0)) [
  | inl end ↦ rw end (ground arith)
  | inr on ↦ rw on (size-join_new it newb _ apart ∙ ground arith)
]

module _ (it count : ℕ) (m : Memory) (apart : add32 (heap_data it) count ≢ it) where
  size-shrink : (cut : ℕ) → (shrink it count cut m it).size ≡ count
  unfolding shrink
  size-shrink cut = size-link_new it _ _ apart ∙ ground arith

  size-grow_part : (diff : ℕ) → (grow_part it count diff m it).size ≡ count
  unfolding grow_part
  size-grow_part diff = ground arith

size-grow_whole : (it count : ℕ) (m : Memory) → (grow_whole it count m it).size ≡ count
unfolding grow_whole
size-grow_whole it count m = ground arith

-- Where heap_realloc returns, it returns the pointer it was given, and the block has room for the
-- wanted size and less than a header's size to spare. It has grown only over a free block behind
-- it, and not further than that block's end. The block's size and the wanted one are below 2 GiB.
pub realloc-size :
    (ptr count q : ℕ) (h g : Heap)
    → let it = sub32 ptr header in
      (h.mem it).size < 2 ^ 31
      → count < 2 ^ 31
      → ptr < 2 ^ 32
      → realloc ptr count h ≡ some (q, g)
      → (q ≡ ptr)
        × (count ≤ (g.mem it).size)
        × ((g.mem it).size < count + header)
        × ((h.mem it).size < (g.mem it).size
            → ((h.mem it).next ≢ 0)
              × (has_flag (h.mem (h.mem it).next).flags flg_used ≡ false)
              × ((g.mem it).size ≤ (h.mem it).size + header + (h.mem (h.mem it).next).size))
unfolding realloc
realloc-size ptr count q h g small small' bound run =
    let it = sub32 ptr header in
    let diff = sub32 count (h.mem it).size in
    let apart : add32 (heap_data it) count ≢ it = omega arith in
    let same : heap_data it ≡ ptr = omega arith in
    ground (
      arith,
      same,
      size-shrink it count h.mem apart (sub32 0 diff),
      size-grow_whole it count h.mem,
      size-grow_part it count h.mem apart diff,
    )

-- A block that cannot grow into a free block behind it makes heap_realloc panic, even where the
-- new size is the old one.
realloc-stuck :
    (ptr count : ℕ) (h : Heap)
    → let m = h.mem in
      let it = sub32 ptr header in
      (m it).size ≤ count
      → count < 2 ^ 31
      → ((m it).next ≡ 0) ⊎ (has_flag (m (m it).next).flags flg_used ≡ true)
      → realloc ptr count h ≡ none
unfolding realloc
realloc-stuck ptr count h le small blocked = ground arith
