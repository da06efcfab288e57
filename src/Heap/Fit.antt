-- ===== src/Heap/Fit.antt =====
-- First fit keeps the chain in order and touches one free item, sys/heap.c.
use ygg_kernel.Base.{
  Bool-cases, List, Option, [], arith, bit_or, dec_lt, false, has_flag, if◌then◌else◌, inl, inr,
  ltb, none, refl, some, sym, take, true, ℕ, ◌+◌, ◌<◌, ◌==◌, ◌||◌, ◌∙◌, ◌∷◌, ◌≡◌, ◌≢◌, ◌≤◌, ◌⊎◌,
}
use ygg_kernel.Heap.{flg_used, header}
use ygg_kernel.Heap.Chain.{Item, Rising, Rising-weaken, fit, item_end, place}
use ygg_kernel.Heap.FirstFit.{fit-pass, fit-take, kept}

-- The item whose header is at an address.
unfoldable pub item_at : ℕ → List Item → Option Item
item_at a [] = none
item_at a (b ∷ bs) = if b.addr == a then some b else item_at a bs

-- How first fit comes to its answer at a first item: it passes the item, or it takes it.
pub data FitStep (count : ℕ) (b : Item) (bs : List Item) (a : ℕ) (cs : List Item) : Type 0 where
  passed : (xs : List Item) → fit count bs ≡ some (a, xs) → cs ≡ b ∷ xs → FitStep count b bs a cs
  took :
      has_flag b.flags flg_used ≡ false
      → count ≤ b.size
      → a ≡ b.addr
      → cs ≡ place count b bs
      → FitStep count b bs a cs

kept-inv :
    (b : Item) (o : Option (ℕ × List Item)) (a : ℕ) (cs : List Item)
    → kept b o ≡ some (a, cs)
    → (xs : List Item) × (o ≡ some (a, xs)) × (cs ≡ b ∷ xs)
kept-inv b none a cs h = absurd (ground arith)
kept-inv b (some (x, xs)) a cs h = (xs, ground arith, ground arith)

fit-FitStep :
    (count : ℕ) (b : Item) (bs : List Item) (a : ℕ) (cs : List Item)
    → fit count (b ∷ bs) ≡ some (a, cs)
    → FitStep count b bs a cs
fit-FitStep count b bs a cs h = elim (Bool-cases (has_flag b.flags flg_used || ltb b.size count)) [
  | inl pass ↦
      let (xs, e, f) = kept-inv b (fit count bs) a cs (sym (fit-pass count b bs pass) ∙ h) in
      passed xs e f
  | inr take ↦
      let e : ◌≡◌ {A = Option (ℕ × List Item)} (some (b.addr, place count b bs)) (some (a, cs)) =
        sym (fit-take count b bs take) ∙ h in
      took (ground arith) (ground arith) (pair_eq e).0 (pair_eq e).1
]
  where
    pair_eq :
        ◌≡◌ {A = Option (ℕ × List Item)} (some (b.addr, place count b bs)) (some (a, cs))
        → (a ≡ b.addr) × (cs ≡ place count b bs)
    pair_eq e = (ground arith, ground arith)

fit-nil : (count a : ℕ) (cs : List Item) → fit count [] ≢ some (a, cs)
unfolding fit
fit-nil count a cs h = cc

Rising-place :
    (count lo : ℕ) (b : Item) (bs : List Item)
    → Rising lo (b ∷ bs)
    → count ≤ b.size
    → Rising lo (place count b bs)
Rising-place count lo b bs r big = elim (Bool-cases (ltb b.size (count + header))) [
  | inl whole ↦ rw whole (r.0, omega arith, Rising-weaken (item_end b) _ bs (omega arith) r.2)
  | inr split ↦
      let room : count + header ≤ b.size = ground arith in
      rw split (
        r.0,
        omega arith,
        (omega arith, omega arith, Rising-weaken (item_end b) _ bs (omega arith) r.2),
      )
]

-- First fit keeps the order.
pub fit-Rising :
    (count lo : ℕ) (bs cs : List Item) (a : ℕ)
    → Rising lo bs
    → fit count bs ≡ some (a, cs)
    → Rising lo cs
fit-Rising count lo [] cs a r h = absurd (fit-nil count a cs h)
fit-Rising count lo (b ∷ bs) cs a r h = elim (fit-FitStep count b bs a cs h) [
  | passed xs e f ↦ rw f (r.0, r.1, fit-Rising count (item_end b) bs xs a r.2 e)
  | took free big e f ↦ rw f (Rising-place count lo b bs r big)
]

fit-ge : (count lo a : ℕ) (bs cs : List Item) → Rising lo bs → fit count bs ≡ some (a, cs) → lo ≤ a
fit-ge count lo a [] cs r h = absurd (fit-nil count a cs h)
fit-ge count lo a (b ∷ bs) cs r h = elim (fit-FitStep count b bs a cs h) [
  | passed xs e f ↦ omega (arith, fit-ge count (item_end b) a bs xs r.2 e)
  | took free big e f ↦ omega arith
]

-- The flags of an item that first fit takes.
abbrev pub taken : ℕ → Item → Item
taken count b = record { addr = b.addr; size = count; flags = bit_or b.flags flg_used }

item_at-place :
    (count : ℕ) (b : Item) (bs : List Item)
    → item_at b.addr (place count b bs) ≡ some (taken count b)
unfolding item_at
item_at-place count b bs = ground arith

item_at-above : (a lo : ℕ) (bs : List Item) → Rising lo bs → a < lo → item_at a bs ≡ none
unfolding item_at
item_at-above a lo [] r lt = refl
item_at-above a lo (b ∷ bs) r lt = ground (arith, item_at-above a (item_end b) bs r.2)

item_at-place_other :
    (count a lo : ℕ) (b c : Item) (bs : List Item)
    → Rising lo (b ∷ bs)
    → count ≤ b.size
    → item_at a bs ≡ some c
    → item_at a (place count b bs) ≡ some c
unfolding item_at
item_at-place_other count a lo b c bs r big h = elim (dec_lt a (item_end b)) [
  | yes below ↦ absurd (ground (arith, item_at-above a (item_end b) bs r.2 below))
  | no above ↦ ground arith
]

-- What first fit takes: a free item with room, whose place a used item of the wanted size takes.
pub record Taken (count a : ℕ) (bs cs : List Item) : Type 0 where
  pub item : Item
  pub here : item_at a bs ≡ some item
  pub free : has_flag item.flags flg_used ≡ false
  pub room : count ≤ item.size
  pub there : item_at a cs ≡ some (taken count item)

module _ (count : ℕ) where
  Taken-kept :
      (a : ℕ) (b : Item) (bs cs : List Item)
      → b.addr ≢ a
      → Taken count a bs cs
      → Taken count a (b ∷ bs) (b ∷ cs)
  unfolding item_at
  Taken-kept a b bs cs ne t = record {
    item = t.item;
    here = ground (arith, t.here);
    free = t.free;
    room = t.room;
    there = ground (arith, t.there);
  }

  pub fit-Taken :
      (lo a : ℕ) (bs cs : List Item)
      → Rising lo bs
      → fit count bs ≡ some (a, cs)
      → Taken count a bs cs
  fit-Taken lo a [] cs r h = absurd (fit-nil count a cs h)
  fit-Taken lo a (b ∷ bs) cs r h = elim (fit-FitStep count b bs a cs h) [
    | passed xs e f ↦ rw f (
        Taken-kept a b bs xs (omega (arith, fit-ge count (item_end b) a bs xs r.2 e))
          (fit-Taken (item_end b) a bs xs r.2 e))
    | took free big e f ↦
        rw (f, e)
          (record {
            item = b;
            here = unfold item_at in ground arith;
            free = free;
            room = big;
            there = item_at-place count b bs;
          })
  ]

  pass_at :
      (x : ℕ) (b c : Item) (bs xs : List Item)
      → item_at x (b ∷ bs) ≡ some c
      → (item_at x bs ≡ some c → item_at x xs ≡ some c)
      → item_at x (b ∷ xs) ≡ some c
  unfolding item_at
  pass_at x b c bs xs h next = ground (arith, next)

  took_at :
      (x : ℕ) (b : Item) (bs : List Item) (c : Item)
      → item_at x (b ∷ bs) ≡ some c
      → (b ≡ c) ⊎ (item_at x bs ≡ some c)
  unfolding item_at
  took_at x b bs c h = elim (Bool-cases (b.addr == x)) [
    | inl here ↦ inl (ground arith)
    | inr on ↦ inr (ground arith)
  ]

  -- Items that are in use stay as they are.
  pub fit-item_at :
      (lo a x : ℕ) (b : Item) (bs cs : List Item)
      → Rising lo bs
      → fit count bs ≡ some (a, cs)
      → item_at x bs ≡ some b
      → has_flag b.flags flg_used ≡ true
      → item_at x cs ≡ some b
  fit-item_at lo a x c [] cs r h at_x used = absurd (fit-nil count a cs h)
  fit-item_at lo a x c (b ∷ bs) cs r h at_x used = elim (fit-FitStep count b bs a cs h) [
    | passed xs e f ↦
        rw f (
          pass_at x b c bs xs at_x (λ there. fit-item_at (item_end b) a x c bs xs r.2 e there used))
    | took free big e f ↦
        rw f (ground (arith, took_at x b bs c at_x, item_at-place_other count x lo b c bs r big))
  ]

-- First fit finds nothing only where each item is in use or too small.
pub fit-none :
    (count x : ℕ) (b : Item) (bs : List Item)
    → fit count bs ≡ none
    → item_at x bs ≡ some b
    → (has_flag b.flags flg_used ≡ true) ⊎ (b.size < count)
fit-none count x c [] h at_x = unfold item_at in absurd (ground arith)
fit-none count x c (b ∷ bs) h at_x =
    elim (Bool-cases (has_flag b.flags flg_used || ltb b.size count)) [
      | inr fits ↦ absurd (ground (arith, fit-take count b bs fits))
      | inl pass ↦ elim (took_at count x b bs c at_x) [
        | inl here ↦ rw (← here) (ground arith)
        | inr on ↦ fit-none count x c bs (kept-none _ (sym (fit-pass count b bs pass) ∙ h)) on
      ]
    ]
  where
    kept-none : (o : Option (ℕ × List Item)) → kept b o ≡ none → o ≡ none
    kept-none none h = refl
    kept-none (some p) h = cc
