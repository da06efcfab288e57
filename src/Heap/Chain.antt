-- ===== src/Heap/Chain.antt =====
-- A chain of blocks as a list, and first fit on the list, sys/heap.c.
use ygg_kernel.Base.{
  List, Option, [], arith, bit_or, has_flag, if◌then◌else◌, ltb, none, some, ℕ, ◌+◌, ◌-◌, ◌<◌, ◌^◌,
  ◌||◌, ◌∷◌, ◌≡◌, ◌≤◌,
}
use ygg_kernel.Heap.{Memory, flg_used, header, magic}

-- A block: where its header is, the size of its data, and its flags.
pub record Item : Type 0 where
  pub addr : ℕ
  pub size : ℕ
  pub flags : ℕ

-- The address behind the data of a block.
abbrev pub item_end : Item → ℕ
item_end b = b.addr + header + b.size

-- The `next` pointers lead from `p` through the headers of the items to NULL.
abbrev pub Chain : Memory → ℕ → List Item → Type 0
Chain m p [] = p ≡ 0
Chain m p (b ∷ bs) =
    (p ≡ b.addr) × ((m p).size ≡ b.size) × ((m p).flags ≡ b.flags) × Chain m (m p).next bs

-- The items stand in rising order above `lo`, none reaches into the next, and all end below 2 ^ 32.
abbrev pub Rising : ℕ → List Item → Type 0
Rising lo [] = Unit {0}
Rising lo (b ∷ bs) = (lo ≤ b.addr) × (item_end b < 2 ^ 32) × Rising (item_end b) bs

-- The items that take the place of a free one that is big enough.
abbrev pub place : ℕ → Item → List Item → List Item
place count b bs =
    if ltb b.size (count + header)
    then record { addr = b.addr; size = count; flags = bit_or b.flags flg_used } ∷ bs
    else record { addr = b.addr; size = count; flags = bit_or b.flags flg_used }
      ∷ record { addr = b.addr + header + count; size = b.size - count - header; flags = magic }
      ∷ bs

-- First fit: the address of the item taken, and the items behind it.
unfoldable pub fit : ℕ → List Item → Option (ℕ × List Item)
fit count [] = none
fit count (b ∷ bs) =
    if has_flag b.flags flg_used || ltb b.size count
    then elim (fit count bs) [ none ↦ none | some (a, cs) ↦ some (a, b ∷ cs) ]
    else some (b.addr, place count b bs)

pub Rising-weaken : (lo lo' : ℕ) (bs : List Item) → lo' ≤ lo → Rising lo bs → Rising lo' bs
Rising-weaken lo lo' [] le r = tt
Rising-weaken lo lo' (b ∷ bs) le r = (omega arith, r.1, r.2)

-- A chain is seen by its own headers only.
pub Chain-frame :
    (m n : Memory) (p lo : ℕ) (bs : List Item)
    → Rising lo bs
    → ((q : ℕ) → lo ≤ q → n q ≡ m q)
    → Chain m p bs
    → Chain n p bs
Chain-frame m n p lo [] r same c = c
Chain-frame m n p lo (b ∷ bs) r same (at_b, size, flags, rest) =
    let e : n p ≡ m p = same p (omega arith) in
    (
      at_b,
      rw e size,
      rw e flags,
      rw e (Chain-frame m n (m p).next (item_end b) bs r.2 (λ q le. same q (omega arith)) rest),
    )
