-- ===== src/Heap/Split.antt =====
-- What heap_alloc_single writes, field by field, sys/heap.c.
use ygg_kernel.Base.{add32, arith, bit_or, sub32, ℕ, ◌≡◌, ◌≢◌}
use ygg_kernel.Heap.{Memory, flg_used, header, heap_data, magic, split_block, take_whole}

module _ (it count : ℕ) (m : Memory) (apart : add32 (heap_data it) count ≢ it) where
  -- The block that a split takes.
  pub split_block-it : split_block it count m it ≡ record {
    flags = bit_or (m it).flags flg_used;
    size = count;
    prev = (m it).prev;
    next = add32 (heap_data it) count;
  }
  unfolding split_block
  split_block-it = ground arith

  -- The block that a split makes.
  pub split_block-newb : split_block it count m (add32 (heap_data it) count) ≡ record {
    flags = magic;
    size = sub32 (sub32 (m it).size count) header;
    prev = it;
    next = (m it).next;
  }
  unfolding split_block
  split_block-newb = ground arith

  -- Every other block is left as it was, also the one behind the new block, whose `prev` goes on
  -- to name the block that was split.
  pub split_block-other :
      (q : ℕ) → q ≢ it → q ≢ add32 (heap_data it) count → split_block it count m q ≡ m q
  unfolding split_block
  split_block-other q ne ne' = ground arith

pub take_whole-it :
    (it count : ℕ) (m : Memory)
    → take_whole it count m it
      ≡ record (m it) { flags = bit_or (m it).flags flg_used; size = count }
unfolding take_whole
take_whole-it it count m = ground arith

pub take_whole-other : (it count : ℕ) (m : Memory) (q : ℕ) → q ≢ it → take_whole it count m q ≡ m q
unfolding take_whole
take_whole-other it count m q ne = ground arith
