-- ===== src/Heap/Region.antt =====
-- Regions of the heap, sys/heap.c: adding one, and excluding an interval from one.
use ygg_kernel.Base.{
  Bool, List, add32, align_up, ap, arith, false, get_or, has_flag, ltb, lt→ltb, refl, some, sub32,
  suc, true, ℕ, ◌%◌, ◌*◌, ◌+◌, ◌-◌, ◌<◌, ◌==◌, ◌^◌, ◌∙◌, ◌∷◌, ◌≡◌, ◌≢◌, ◌≤◌,
}
use ygg_kernel.Heap.{Heap, Memory, flg_used, header}
use ygg_kernel.Heap.Remove.{carve, intersect, remove_from, remove_region}

module _ (base start sz : ℕ) (m : Memory) where
  -- The blocks that carving leaves of a free block.
  carve-blocks :
      base + 2 * header ≤ start
      → start + sz + 2 * header ≤ base + header + (m base).size
      → base + header + (m base).size < 2 ^ 32
      → let g = carve base start sz m in
        let hole = (g base).next in
        let rest = (g hole).next in
        (base + header + (g base).size ≡ hole)
        × (hole + header ≡ start)
        × ((g hole).size ≡ sz)
        × (has_flag (g hole).flags flg_used ≡ true)
        × (rest ≡ start + sz)
        × (rest + header + (g rest).size ≡ base + (m base).size)
        × (has_flag (g rest).flags flg_used ≡ false)
  unfolding carve
  carve-blocks low high fits = ground arith

  -- On an interval that ends less than a header's size before the end of the block, or behind it,
  -- the size of the free block wraps: it is made larger than the block that it was cut from.
  pub carve-wraps :
      base + 2 * header ≤ start
      → 0 < sz
      → start + sz + header < 2 ^ 32
      → base + (m base).size < start + sz + header
      → start < base + (m base).size
      → let g = carve base start sz m in (m base).size < (g (start + sz)).size
  unfolding carve
  carve-wraps low pos fits near inside = ground arith

remove_from-end :
    (n i start sz : ℕ) (found : Bool) (h : Heap)
    → get_or h.regions i 0 ≡ 0
    → remove_from (suc n) i start sz found h ≡ (found, h)
unfolding remove_from
remove_from-end n i start sz found h e =
    let none_left : (get_or h.regions i 0 == 0) ≡ true = ground (arith, e) in rw none_left refl

remove_from-carve :
    (n i base start sz : ℕ) (found : Bool) (h : Heap)
    → get_or h.regions i 0 ≡ base
    → base ≢ 0
    → (h.mem base).next ≡ 0
    → (intersect base (add32 header (h.mem base).size) start sz).0 ≡ true
    → ltb (sub32 start base) header ≡ false
    → remove_from (suc n) i start sz found h
      ≡ remove_from n
          (i + 1)
          (sub32 start header)
          sz
          true
          (record h { mem = carve base start sz h.mem })
unfolding remove_from
remove_from-carve n i base start sz found h at there last meets room =
    let there' : (base == 0) ≡ false = ground (arith, there) in
    let last' : ((h.mem base).next == 0) ≡ true = ground (arith, last) in
    rw (at, there', last', meets, room) refl

remove_from-first :
    (n base start sz : ℕ) (rs : List ℕ) (h : Heap)
    → h.regions ≡ base ∷ 0 ∷ rs
    → base ≢ 0
    → (h.mem base).next ≡ 0
    → base + 2 * header ≤ start
    → start + sz + 2 * header ≤ base + header + (h.mem base).size
    → base + header + (h.mem base).size < 2 ^ 32
    → remove_from (suc (suc n)) 0 start sz false h
      ≡ (true, record h { mem = carve base start sz h.mem })
unfolding intersect
remove_from-first n base start sz rs h list there last low high fits =
    let first = ap (λ l. get_or l 0 0) list in
    let second = ap (λ l. get_or l 1 0) list in
    let above : ltb start base ≡ false = ground arith in
    let meets : ltb (sub32 start base) (add32 header (h.mem base).size) ≡ true =
      lt→ltb _ _ (omega arith) in
    let meets' : (intersect base (add32 header (h.mem base).size) start sz).0 ≡ true =
      rw above meets in
    let room : ltb (sub32 start base) header ≡ false = ground arith in
    remove_from-carve (suc n) 0 base start sz false h first there last meets' room
    ∙ remove_from-end n 1 (sub32 start header) sz true
        (record h { mem = carve base start sz h.mem }) second

-- heap_remove_region on a heap whose only region is one free block that ends inside the address
-- space, of an interval that, its start rounded down to 8 and its length up to 16, starts at least
-- the size of two headers behind the start of the block's header and ends at least the size of two
-- headers before the block's end. It returns, and the block ends at the header of an excluded block,
-- which has the rounded interval as its data, is in use, and is followed by a free block that ends
-- the size of one header before the end of the old one.
pub remove_region-blocks :
    (base start sz : ℕ) (rs : List ℕ) (h : Heap)
    → let at = start - start % 8 in
      let len = align_up sz 16 in
      h.regions ≡ base ∷ 0 ∷ rs
      → base ≢ 0
      → (h.mem base).next ≡ 0
      → base + 2 * header ≤ at
      → at + len + 2 * header ≤ base + header + (h.mem base).size
      → base + header + (h.mem base).size < 2 ^ 32
      → (g : Heap) × (remove_region start sz h ≡ some g)
        × (let hole = (g.mem base).next in
            let rest = (g.mem hole).next in
            (base + header + (g.mem base).size ≡ hole)
            × (hole + header ≡ at)
            × ((g.mem hole).size ≡ len)
            × (has_flag (g.mem hole).flags flg_used ≡ true)
            × (rest ≡ at + len)
            × (rest + header + (g.mem rest).size ≡ base + (h.mem base).size)
            × (has_flag (g.mem rest).flags flg_used ≡ false))
unfolding remove_region
remove_region-blocks base start sz rs h list there last low high fits =
    let at = start - start % 8 in
    let len = align_up sz 16 in
    let g : Heap = record h { mem = carve base at len h.mem } in
    let looped = remove_from-first 14 base at len rs h list there last low high fits in
    (g, rw looped refl, carve-blocks base at len h.mem low high fits)
