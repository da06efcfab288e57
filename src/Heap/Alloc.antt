-- ===== src/Heap/Alloc.antt =====
-- heap_alloc_single on a well-formed chain, sys/heap.c.
use ygg_kernel.Base.{
  Bool-cases, List, Option, add32, arith, false, has_flag, inl, inr, leb, length, ltb, none, refl,
  some, subst, sym, true, ℕ, ◌&&◌, ◌+◌, ◌-◌, ◌<◌, ◌^◌, ◌∙◌, ◌≡◌, ◌≢◌, ◌≤◌, ◌⊎◌,
}
use ygg_kernel.Heap.{Heap, alloc_single, allocated, flg_used, header, heap_data, take_block}
use ygg_kernel.Heap.Chain.{Chain, Item, Rising, fit}
use ygg_kernel.Heap.FirstFit.{Fitted, alloc_single-Fitted}
use ygg_kernel.Heap.Fit.{Taken, fit-Rising, fit-Taken, fit-item_at, fit-none, item_at}
use ygg_kernel.Heap.Split.{split_block-it, split_block-newb, split_block-other}

-- On a chain of blocks that rise and do not overlap, with more fuel than blocks, the search ends,
-- and its result is that of first fit on the list of blocks: NULL and no change where no block
-- fits, else the data of the block that first fit takes and a chain of the blocks it leaves.
pub alloc_single-fit :
    (k count : ℕ) (h : Heap) (p lo : ℕ) (bs : List Item)
    → 0 < lo
    → Rising lo bs
    → Chain h.mem p bs
    → length bs < k
    → (r : ℕ × Heap) × (alloc_single k p count h ≡ some r) × Fitted h p (fit count bs) r
alloc_single-fit k count h p lo bs pos r c fuel =
    let (s, run, f, same) = alloc_single-Fitted k count h p lo bs pos r c fuel in (s, run, f)

some-eq {ℓ} : {A : Type ℓ} {a b : A} → some a ≡ some b → a ≡ b
some-eq h = ground arith

-- A placed allocation: a chain of the blocks behind the call, which still rise without overlap;
-- the block of the pointer `q` was free and is in use; the block `b` at `x`, unless it was free,
-- is as it was.
pub record Placed (p lo count : ℕ) (bs : List Item) (g : Heap) (q x : ℕ) (b : Item) : Type 0 where
  pub items : List Item
  pub chain : Chain g.mem p items
  pub rising : Rising lo items
  pub placed : Taken count (q - header) bs items
  pub same : (has_flag b.flags flg_used ≡ false) ⊎ (item_at x items ≡ some b)

module _ (k count : ℕ) (h g : Heap) (p lo q x : ℕ) (b : Item) (bs : List Item) (pos : 0 < lo)
    (rising : Rising lo bs) (chain : Chain h.mem p bs) (fuel : length bs < k)
    (run : alloc_single k p count h ≡ some (q, g)) (at_x : item_at x bs ≡ some b) where
  outcome : Fitted h p (fit count bs) (q, g)
  outcome =
      let (s, run', f) = alloc_single-fit k count h p lo bs pos rising chain fuel in
      subst (Fitted h p (fit count bs)) (some-eq (sym run' ∙ run)) f

  -- A pointer that the search returns is the data of a block that was free and had room; behind
  -- the call the blocks still rise without overlap, this block is in use with the wanted size,
  -- and the block `b` at `x` was free or is as it was.
  pub alloc_single-safe : q ≢ 0 → Placed p lo count bs g q x b
  alloc_single-safe found = go (fit count bs) refl outcome
    where
      go :
          (o : Option (ℕ × List Item))
          → fit count bs ≡ o
          → Fitted h p o (q, g)
          → Placed p lo count bs g q x b
      go none e f = absurd (found (ground arith))
      go (some (a, cs)) e (at_q, chain') =
          let here : q - header ≡ a = omega arith in
          record {
            items = cs;
            chain = chain';
            rising = fit-Rising count lo bs cs a rising e;
            placed = rw here (fit-Taken count lo a bs cs rising e);
            same = elim (Bool-cases (has_flag b.flags flg_used)) [
              | inl used ↦ inr (fit-item_at count lo a x b bs cs rising e at_x used)
              | inr unused ↦ inl unused
            ];
          }

  -- NULL is returned only where every block is in use or too small, and then nothing is changed.
  pub alloc_single-null : q ≡ 0 → (g ≡ h) × ((has_flag b.flags flg_used ≡ true) ⊎ (b.size < count))
  alloc_single-null null = go (fit count bs) refl outcome
    where
      go :
          (o : Option (ℕ × List Item))
          → fit count bs ≡ o
          → Fitted h p o (q, g)
          → (g ≡ h) × ((has_flag b.flags flg_used ≡ true) ⊎ (b.size < count))
      go none e f = (ground arith, fit-none count x b bs e at_x)
      go (some (a, cs)) e (at_q, chain') = absurd (omega arith)

-- A split in front of another block `n` leaves the links of the chain inconsistent: the new block
-- is followed by `n`, whose `prev` still names the block that was split.
pub split-prev :
    (it count n : ℕ) (h : Heap)
    → (h.mem it).next ≡ n
    → (h.mem n).prev ≡ it
    → n ≢ it
    → it + header + count + header ≤ n
    → n < 2 ^ 32
    → count + header ≤ (h.mem it).size
    → (h.mem it).size < 2 ^ 32
    → let g = allocated it count h in
      let newb = (g.mem it).next in (newb ≢ it) × ((g.mem newb).next ≡ n) × ((g.mem n).prev ≡ it)
unfolding allocated take_block
split-prev it count n h next prev ne room small big small' =
    let apart : add32 (heap_data it) count ≢ it = omega arith in
    let test : (leb count (h.mem it).size && ltb (h.mem it).size (add32 count header)) ≡ false =
      ground arith in
    rw (test, split_block-it it count h.mem apart)
      (
        apart,
        rw (split_block-newb it count h.mem apart) next,
        rw (split_block-other it count h.mem apart n ne (omega arith)) prev,
      )
