-- ===== src/Heap/Free.antt =====
-- heap_free_single, sys/heap.c.
use ygg_kernel.Base.{add32, arith, none, some, sub32, ℕ, ◌+◌, ◌≡◌, ◌⊎◌}
use ygg_kernel.Heap.{
  Heap, Memory, flg_used, free_single, header, join_next, join_prev, magic, release,
}

-- The flags of a block that heap_alloc handed out.
abbrev pub live : ℕ
live = magic + flg_used

-- Joining with the next block leaves the flags of this one alone, or clears the magic.
join_next-flags :
    (it : ℕ) (m : Memory)
    → (m it).flags ≡ magic
    → ((join_next it m it).flags ≡ magic) ⊎ ((join_next it m it).flags ≡ 0)
unfolding join_next
join_next-flags it m h = ground arith

join_prev-flags :
    (it : ℕ) (m : Memory)
    → ((m it).flags ≡ magic) ⊎ ((m it).flags ≡ 0)
    → ((join_prev it m it).flags ≡ magic) ⊎ ((join_prev it m it).flags ≡ 0)
unfolding join_prev
join_prev-flags it m h = ground arith

release-flags :
    (it : ℕ) (m : Memory)
    → (m it).flags ≡ live
    → ((release it m it).flags ≡ magic) ⊎ ((release it m it).flags ≡ 0)
unfolding release
release-flags it m flags = join_prev-flags it _ (join_next-flags it _ (ground arith))

-- Freeing a block that heap_alloc handed out succeeds, and freeing it again is refused, whatever
-- its neighbours are and whichever of them it was joined with.
pub free_single_twice :
    (ptr : ℕ) (h : Heap)
    → (h.mem (sub32 ptr header)).flags ≡ live
    → (g : Heap) × (free_single ptr h ≡ some g) × (free_single ptr g ≡ none)
unfolding free_single
free_single_twice ptr h flags = (
  record h {
    mem = release (sub32 ptr header) h.mem;
    frees = add32 h.frees 1;
    free_bytes = add32 h.free_bytes (h.mem (sub32 ptr header)).size;
  },
  ground arith,
  ground (arith, release-flags (sub32 ptr header) h.mem flags),
)
