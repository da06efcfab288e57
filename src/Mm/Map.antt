-- ===== src/Mm/Map.antt =====
-- Mapping pages into an address space and translating addresses, arch/x86/mm/map.c. An address space
-- is known by the address of its directory; the last word of that is the address of a page with the
-- tables' addresses, whose lowest 12 bits count the entries in use.
pub mod Entry
pub mod Translate
pub mod Single
pub mod Keep
pub mod Page
use ygg_kernel.Base.{
  Bool, List, Option, [], has_flag, if◌then◌else◌, none, not, some, suc, zero, ℕ, ◌%◌, ◌&&◌, ◌+◌,
  ◌-◌, ◌/◌, ◌==◌, ◌^◌, ◌||◌, ◌∷◌,
}
use ygg_kernel.Mm.Phys.{alloc_physical_page, flg_ps, free_physical_page, naddr}
use ygg_kernel.Mm.Pool.{
  MmState, access, huge, map_huge_pages, or_low, poke, pool_allocate, pool_free, present,
}

abbrev pub flg_merge : ℕ
flg_merge = 2 ^ 29

abbrev pub flg_nophys : ℕ
flg_nophys = 2 ^ 30

-- `e & -0x1000` and `e & -0x400000`
abbrev pub page_base : ℕ → ℕ
page_base e = e - e % 2 ^ 12

abbrev pub huge_base : ℕ → ℕ
huge_base e = e - e % 2 ^ 22

abbrev pub pd_index : ℕ → ℕ
pd_index a = a / 2 ^ 22

abbrev pub pt_index : ℕ → ℕ
pt_index a = a / 2 ^ 12 % 1024

-- `table_info[pdi]` of the directory.
abbrev pub table_info : MmState → ℕ → ℕ → ℕ
table_info s pd i = s.words (s.words pd 1023) i

-- A table is there: its counter goes up and its entry is written.
unfoldable pub map_into : ℕ → ℕ → ℕ → ℕ → MmState → MmState
map_into pd a page flags s =
    let info = table_info s pd (pd_index a) in
    let s1 = poke (s.words pd 1023) (pd_index a) (info + 1) s in
    poke (page_base info) (pt_index a) (or_low page (access flags + 1)) s1

-- The test of a table's counter before it goes up.
abbrev pub countable : ℕ → Bool
countable info = not (info == 0) && not (info % 2 ^ 12 == 0xFFF)

-- A new table is taken from the pool and entered, and its entry is written.
unfoldable pub map_new : ℕ → ℕ → ℕ → ℕ → MmState → Option MmState
map_new pd a page flags s = elim (pool_allocate s) [
  | none ↦ none
  | some (pt, phys, t) ↦
      let t1 = poke (t.words pd 1023) (pd_index a) (or_low pt 1) t in
      let t2 = poke pd (pd_index a) (or_low phys 7) t1 in
      if pt == naddr then none else some (poke pt (pt_index a) (or_low page (access flags + 1)) t2)
]

-- One round of the last loop of mm_map_range_pages.
unfoldable pub map_page : ℕ → ℕ → ℕ → ℕ → MmState → Option MmState
map_page pd a page flags s =
    let e = s.words pd (pd_index a) in
    if huge e
    then none
    else if present e
    then (if countable (table_info s pd (pd_index a))
        then some (map_into pd a page flags s)
        else none)
    else map_new pd a page flags s

-- The last loop of mm_map_range_pages.
pub map_pages : ℕ → ℕ → List ℕ → ℕ → MmState → Option MmState
map_pages pd a [] flags s = some s
map_pages pd a (page ∷ pages) flags s = elim (map_page pd a page flags s) [
  | none ↦ none
  | some t ↦ map_pages pd ((a + 0x1000) % 2 ^ 32) pages flags t
]

-- mm_map_range_pages
unfoldable pub map_range_pages : ℕ → ℕ → List ℕ → ℕ → MmState → Option MmState
map_range_pages pd start pages flags s =
    if not (start % 2 ^ 12 == 0)
    then none
    else if has_flag flags flg_ps
    then map_huge_pages pd (start / 2 ^ 22) pages flags s
    else map_pages pd start pages flags s

-- The loop of mm_map_range_linear, `n` rounds with the step between pages.
unfoldable pub map_linear_from : ℕ → ℕ → ℕ → ℕ → ℕ → ℕ → MmState → Option MmState
map_linear_from zero step pd start pstart flags s = some s
map_linear_from (suc n) step pd start pstart flags s =
    elim (map_range_pages pd start (pstart ∷ []) flags s) [
      | none ↦ none
      | some t ↦
          map_linear_from n step pd ((start + step) % 2 ^ 32) ((pstart + step) % 2 ^ 32) flags t
    ]

-- mm_map_range_linear
unfoldable pub map_range_linear : ℕ → ℕ → ℕ → ℕ → ℕ → MmState → Option MmState
map_range_linear pd start pstart count flags s =
    if not (start % 2 ^ 12 == 0) || not (pstart % 2 ^ 12 == 0)
    then none
    else if has_flag flags flg_ps
    then map_linear_from count 0x40_0000 pd (huge_base start) pstart flags s
    else map_linear_from count 0x1000 pd (page_base start) pstart flags s

-- One round of mm_map_range: a page is taken first, whether the address has one already or not.
pub map_fresh : ℕ → ℕ → ℕ → MmState → Option MmState
map_fresh pd a flags s =
    let e = s.words pd (pd_index a) in
    let (page, phys) = alloc_physical_page 0 s.phys in
    let t = record s { phys = phys } in
    let info = table_info t pd (pd_index a) in
    if huge e
    then none
    else if not (present e)
    then map_new pd a page flags t
    else if not (countable info)
    then none
    else if not (present (t.words (page_base info) (pt_index a)))
    then some (map_into pd a page flags t)
    else if has_flag flags flg_merge
    then some t
    else none

-- The loop of mm_map_range.
pub map_range_from : ℕ → ℕ → ℕ → ℕ → MmState → Option MmState
map_range_from zero pd a flags s = some s
map_range_from (suc n) pd a flags s = elim (map_fresh pd a flags s) [
  | none ↦ none
  | some t ↦ map_range_from n pd ((a + 0x1000) % 2 ^ 32) flags t
]

-- mm_map_range
pub map_range : ℕ → ℕ → ℕ → ℕ → MmState → Option MmState
map_range pd start count flags s =
    if has_flag flags flg_ps || not (start % 2 ^ 12 == 0)
    then none
    else map_range_from count pd start flags s

-- mm_free_physical_page, unless MM_FLG_NOPHYS is given.
pub drop_page : ℕ → ℕ → ℕ → MmState → Option MmState
drop_page page ps flags s =
    if has_flag flags flg_nophys then some s else elim (free_physical_page page ps s.phys) [
      | none ↦ none
      | some phys ↦ some (record s { phys = phys })
    ]

-- The rounds of mm_umap_range with MM_FLG_PS, from entry `i` on.
pub umap_huge_from : ℕ → ℕ → ℕ → ℕ → MmState → Option MmState
umap_huge_from zero pd i flags s = some s
umap_huge_from (suc n) pd i flags s =
    let e = s.words pd i in
    let next : Option MmState = elim (drop_page (huge_base e) flg_ps flags s) [
      | none ↦ none
      | some t ↦ umap_huge_from n pd (i + 1) flags (poke pd i 0 t)
    ] in
    if present e || huge e then next else none

-- An entry is cleared and its table's counter goes down; a table without entries is given back.
pub clear_entry : ℕ → ℕ → MmState → Option MmState
clear_entry pd a s =
    let info = table_info s pd (pd_index a) in
    let pt = page_base info in
    let s1 = poke pt (pt_index a) 0 s in
    let s2 = poke (s.words pd 1023) (pd_index a) (info - 1) s1 in
    let s3 = poke (s.words pd 1023) (pd_index a) 0 (poke pd (pd_index a) 0 s2) in
    if (info - 1) % 2 ^ 12 == 0 then pool_free pt s3 else some s2

-- One round of mm_umap_range.
pub umap_page : ℕ → ℕ → ℕ → MmState → Option MmState
umap_page pd a flags s =
    let info = table_info s pd (pd_index a) in
    if not (present (s.words pd (pd_index a))) || (info == 0)
    then none
    else elim (drop_page (page_base (s.words (page_base info) (pt_index a))) 0 flags s) [
      | none ↦ none
      | some t ↦ if info % 2 ^ 12 == 0 then none else clear_entry pd a t
    ]

-- The loop of mm_umap_range.
pub umap_from : ℕ → ℕ → ℕ → ℕ → MmState → Option MmState
umap_from zero pd a flags s = some s
umap_from (suc n) pd a flags s = elim (umap_page pd a flags s) [
  | none ↦ none
  | some t ↦ umap_from n pd ((a + 0x1000) % 2 ^ 32) flags t
]

-- mm_umap_range: the state after it; its value is -1 whenever it returns.
pub umap_range : ℕ → ℕ → ℕ → ℕ → MmState → Option MmState
umap_range pd start count flags s =
    if not (start % 2 ^ 12 == 0)
    then none
    else if has_flag flags flg_ps
    then umap_huge_from count pd (start / 2 ^ 22) flags s
    else umap_from count pd start flags s

-- mm_translate: the address, MM_NADDR where nothing is mapped, and the flags.
unfoldable pub translate : ℕ → ℕ → MmState → Option (ℕ × ℕ)
translate pd a s =
    let e = s.words pd (pd_index a) in
    let info = table_info s pd (pd_index a) in
    let entry = s.words (page_base info) (pt_index a) in
    if not (present e)
    then some (naddr, 0)
    else if huge e
    then some (huge_base e + a % 2 ^ 22, access e + flg_ps)
    else if info == 0
    then none
    else if not (present entry)
    then some (naddr, 0)
    else some (page_base entry + a % 2 ^ 12, access entry)
