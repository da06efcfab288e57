-- ===== src/Heap/FirstFit.antt =====
-- heap_alloc_single refines first fit, sys/heap.c.
use mathlib.Core.Path.{subst}
use ygg_kernel.Base.{
  Bool-cases, List, Option, [], add32, arith, bit_or, false, has_flag, if◌then◌else◌, inl, inr, leb,
  length, ltb, none, refl, some, suc, sym, take, true, zero, ℕ, ◌&&◌, ◌+◌, ◌-◌, ◌<◌, ◌||◌, ◌∙◌, ◌∷◌,
  ◌≡◌, ◌≢◌, ◌≤◌,
}
use ygg_kernel.Heap.{
  Heap, Memory, alloc_single, allocated, flg_used, header, heap_data, magic, split_block,
  take_block, take_whole,
}
use ygg_kernel.Heap.Chain.{Chain, Chain-frame, Item, Rising, fit, item_end, place}
use ygg_kernel.Heap.Split.{
  split_block-it, split_block-newb, split_block-other, take_whole-it, take_whole-other,
}

-- What the search leaves: NULL and nothing changed where no item fits; else the data of the item
-- that first fit takes, and a chain of the items that first fit leaves.
abbrev pub Fitted : Heap → ℕ → Option (ℕ × List Item) → ℕ × Heap → Type 0
Fitted h p none r = r ≡ (0, h)
Fitted h p (some (a, cs)) (q, g) = (q ≡ a + header) × Chain g.mem p cs

-- Below the search nothing is written.
abbrev pub SameBelow : ℕ → Memory → Memory → Type 0
SameBelow lo m n = (q : ℕ) → q < lo → n q ≡ m q

module _ (count : ℕ) (m : Memory) where
  take_whole-Chain :
      (p lo : ℕ) (b : Item) (bs : List Item)
      → Rising lo (b ∷ bs)
      → Chain m p (b ∷ bs)
      → Chain
          (take_whole p count m)
          p
          (record { addr = b.addr; size = count; flags = bit_or b.flags flg_used } ∷ bs)
  take_whole-Chain p lo b bs r (at_b, size, flags, rest) =
      let e = take_whole-it p count m in
      let rest' : Chain (take_whole p count m) (m p).next bs =
        Chain-frame m (take_whole p count m) (m p).next (item_end b) bs r.2
          (λ q le. take_whole-other p count m q (omega arith)) rest in
      (at_b, rw e refl, rw e (rw flags refl), rw e rest')

  split_block-Chain :
      (p lo : ℕ) (b : Item) (bs : List Item)
      → Rising lo (b ∷ bs)
      → count + header ≤ b.size
      → Chain m p (b ∷ bs)
      → Chain (split_block p count m) p (
          record { addr = b.addr; size = count; flags = bit_or b.flags flg_used }
          ∷ record { addr = b.addr + header + count; size = b.size - count - header; flags = magic }
          ∷ bs)
  split_block-Chain p lo b bs r big (at_b, size, flags, rest) =
      let apart : add32 (heap_data p) count ≢ p = omega arith in
      let e = split_block-it p count m apart in
      let f = split_block-newb p count m apart in
      let there : add32 (heap_data p) count ≡ b.addr + header + count = omega arith in
      let rest' : Chain (split_block p count m) (m p).next bs =
        Chain-frame m (split_block p count m) (m p).next (item_end b) bs r.2
          (λ q le. split_block-other p count m apart q (omega arith) (omega arith)) rest in
      (
        at_b,
        rw e refl,
        rw e (rw flags refl),
        rw e (there, rw f (omega arith), rw f refl, rw f rest'),
      )

  -- The test of case 1 on a block of a rising chain.
  take_block-eq :
      (p lo : ℕ) (b : Item) (bs : List Item)
      → Rising lo (b ∷ bs)
      → count ≤ b.size
      → Chain m p (b ∷ bs)
      → take_block p count m
        ≡ (if ltb b.size (count + header) then take_whole p count m else split_block p count m)
  unfolding take_block
  take_block-eq p lo b bs r big (at_b, size, flags, rest) = rw test
    where
      test :
          (leb count (m p).size && ltb (m p).size (add32 count header))
          ≡ ltb b.size (count + header)
      test = ground arith

  take_block-Chain :
      (p lo : ℕ) (b : Item) (bs : List Item)
      → Rising lo (b ∷ bs)
      → count ≤ b.size
      → Chain m p (b ∷ bs)
      → Chain (take_block p count m) p (place count b bs)
  take_block-Chain p lo b bs r big c =
      subst (λ n. Chain n p (place count b bs)) (sym (take_block-eq p lo b bs r big c))
        (elim (Bool-cases (ltb b.size (count + header))) [
          | inl whole ↦ rw whole (take_whole-Chain p lo b bs r c)
          | inr split ↦ rw split (split_block-Chain p lo b bs r (ground arith) c)
        ])

  take_block-SameBelow :
      (p lo : ℕ) (b : Item) (bs : List Item)
      → Rising lo (b ∷ bs)
      → count ≤ b.size
      → Chain m p (b ∷ bs)
      → SameBelow lo m (take_block p count m)
  unfolding take_block
  take_block-SameBelow p lo b bs r big (at_b, size, flags, rest) q lt =
      elim (Bool-cases (leb count (m p).size && ltb (m p).size (add32 count header))) [
        | inl whole ↦ rw whole (take_whole-other p count m q (omega arith))
        | inr split ↦
            rw split (split_block-other p count m (ground arith) q (omega arith) (ground arith))
      ]

-- An item that the search passes stays in front.
abbrev pub kept : Item → Option (ℕ × List Item) → Option (ℕ × List Item)
kept b none = none
kept b (some (a, cs)) = some (a, b ∷ cs)

Fitted-kept :
    (h : Heap) (p lo : ℕ) (b : Item) (bs : List Item) (o : Option (ℕ × List Item)) (r : ℕ × Heap)
    → Rising lo (b ∷ bs)
    → Chain h.mem p (b ∷ bs)
    → SameBelow (item_end b) h.mem r.1.mem
    → Fitted h (h.mem p).next o r
    → Fitted h p (kept b o) r
Fitted-kept h p lo b bs none r up c same f = f
Fitted-kept h p lo b bs (some (a, cs)) (q, g) up (at_b, size, flags, rest) same (at_a, chain) =
    let e : g.mem p ≡ h.mem p = same p (omega arith) in
    (at_a, (at_b, rw e size, rw e flags, rw e chain))

pub fit-pass :
    (count : ℕ) (b : Item) (bs : List Item)
    → (has_flag b.flags flg_used || ltb b.size count) ≡ true
    → fit count (b ∷ bs) ≡ kept b (fit count bs)
unfolding fit
fit-pass count b bs pass = ground arith

pub fit-take :
    (count : ℕ) (b : Item) (bs : List Item)
    → (has_flag b.flags flg_used || ltb b.size count) ≡ false
    → fit count (b ∷ bs) ≡ some (b.addr, place count b bs)
unfolding fit
fit-take count b bs pass = rw pass

module _ (k count : ℕ) (h : Heap) (p lo : ℕ) (b : Item) (bs : List Item) where
  alloc_single-pass :
      0 < lo
      → Rising lo (b ∷ bs)
      → Chain h.mem p (b ∷ bs)
      → (has_flag b.flags flg_used || ltb b.size count) ≡ true
      → alloc_single (suc k) p count h ≡ alloc_single k (h.mem p).next count h
  unfolding alloc_single
  alloc_single-pass pos r (at_b, size, flags, rest) pass = rw (flags, size) (ground arith)

  alloc_single-take :
      0 < lo
      → Rising lo (b ∷ bs)
      → Chain h.mem p (b ∷ bs)
      → (has_flag b.flags flg_used || ltb b.size count) ≡ false
      → alloc_single (suc k) p count h ≡ some (heap_data p, allocated p count h)
  unfolding alloc_single
  alloc_single-take pos r (at_b, size, flags, rest) pass = rw (flags, size) (ground arith)

pub alloc_single-Fitted :
    (k count : ℕ) (h : Heap) (p lo : ℕ) (bs : List Item)
    → 0 < lo
    → Rising lo bs
    → Chain h.mem p bs
    → length bs < k
    → (r : ℕ × Heap) × (alloc_single k p count h ≡ some r)
      × Fitted h p (fit count bs) r
      × SameBelow lo h.mem r.1.mem
unfolding allocated
alloc_single-Fitted zero count h p lo bs pos r c fuel = absurd (omega arith)
alloc_single-Fitted (suc k) count h p lo [] pos r c fuel =
    ((0, h), unfold alloc_single in ground arith, unfold fit in refl, λ q lt. refl)
alloc_single-Fitted (suc k) count h p lo (b ∷ bs) pos r c fuel =
    elim (Bool-cases (has_flag b.flags flg_used || ltb b.size count)) [
      | inl pass ↦
          let (s, run, f, same) =
            alloc_single-Fitted k count h (h.mem p).next (item_end b) bs (omega arith) r.2 c.3
              (omega arith) in
          (
            s,
            alloc_single-pass k count h p lo b bs pos r c pass ∙ run,
            rw (fit-pass count b bs pass) (Fitted-kept h p lo b bs (fit count bs) s r c same f),
            λ q lt. same q (omega arith),
          )
      | inr take ↦ (
        (heap_data p, allocated p count h),
        alloc_single-take k count h p lo b bs pos r c take,
        rw (fit-take count b bs take)
            ((omega arith, take_block-Chain count h.mem p lo b bs r (ground arith) c)),
        take_block-SameBelow count h.mem p lo b bs r (ground arith) c,
      )
    ]
