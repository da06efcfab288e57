-- ===== src/Mm/Space.antt =====
-- Making, freeing and cloning address spaces, arch/x86/mm/space.c and mm_init of arch/x86/mm/mm.c.
use ygg_kernel.Base.{
  List, Option, false, has_flag, if◌then◌else◌, leb, none, not, some, sub32, suc, update, zero, ℕ,
  ◌%◌, ◌&&◌, ◌+◌, ◌==◌, ◌^◌, ◌||◌,
}
use ygg_kernel.Mm.Map.{page_base, table_info}
use ygg_kernel.Mm.Phys.{MmapEntry, naddr, phys_init}
use ygg_kernel.Mm.Pool.{MmState, huge, or_low, poke, pool_allocate, pool_free, present}

abbrev pub flg_clone_kernel : ℕ
flg_clone_kernel = 1

abbrev pub flg_clone_user : ℕ
flg_clone_user = 2

-- `memsetl(page, 0, 1024)`
abbrev pub clear_page : ℕ → MmState → MmState
clear_page page s = record s { words = update s.words page (λ _. 0) }

-- The rest of mm_create_space, behind the allocation of the directory.
pub fill_space : ℕ → ℕ → MmState → Option MmState
fill_space space phys s = elim (pool_allocate (clear_page space s)) [
  | none ↦ none
  | some (info, _, t) ↦ some (poke space 1023 info (poke space 0 phys (clear_page info t)))
]

-- mm_create_space: the directory's virtual and physical address. An address of MM_NADDR gives NULL.
pub create_space : MmState → Option (ℕ × ℕ × MmState)
unfolding fill_space
create_space s = elim (pool_allocate s) [
  | none ↦ none
  | some (space, phys, t) ↦
      if space == naddr
      then some (0, phys, t)
      else elim (fill_space space phys t) [ none ↦ none | some u ↦ some (space, phys, u) ]
]

-- mm_destroy_space
pub destroy_space : ℕ → MmState → Option MmState
destroy_space pd s = elim (pool_free (s.words pd 1023) s) [ none ↦ none | some t ↦ pool_free pd t ]

-- `memsetl(&dst[1], 0, 1022)`
abbrev pub clear_entries : ℕ → MmState → MmState
clear_entries pd s = record s {
  words = update s.words pd (λ i. if leb 1 i && leb i 1022 then 0 else s.words pd i);
}

-- One table of the kernel's part: a new table with the same entries.
pub clone_table : ℕ → ℕ → ℕ → MmState → Option MmState
clone_table dst src i s =
    let info = table_info s src i in
    elim (pool_allocate s) [
      | none ↦ none
      | some (pt, phys, t) ↦
          let t1 = poke (t.words dst 1023) i (or_low pt (info % 2 ^ 12)) t in
          let t2 = poke dst i (or_low phys 7) t1 in
          if info == 0 || (pt == naddr)
          then none
          else some (record t2 { words = update t2.words pt (t2.words (page_base info)) })
    ]

-- One round of the loop of mm_space_clone.
pub clone_entry : ℕ → ℕ → ℕ → MmState → Option MmState
unfolding clone_table
clone_entry dst src i s =
    let e = s.words src i in
    if not (present e)
    then some s
    else if huge e
    then some (poke dst i e s)
    else clone_table dst src i s

-- The loop of mm_space_clone over `n` entries from entry `i` on.
pub clone_from : ℕ → ℕ → ℕ → ℕ → MmState → Option MmState
clone_from zero dst src i s = some s
clone_from (suc n) dst src i s = elim (clone_entry dst src i s) [
  | none ↦ none
  | some t ↦ clone_from n dst src (i + 1) t
]

-- mm_space_clone
pub space_clone : ℕ → ℕ → ℕ → MmState → Option MmState
space_clone dst src flags s =
    let s1 = clear_entries dst s in
    let s2 = clear_page (s1.words dst 1023) s1 in
    if has_flag flags flg_clone_kernel then clone_from 256 dst src 768 s2 else some s2

-- x86_mm_pool_init
abbrev pub pool_init : MmState → MmState
pool_init s = record s {
  pools = λ _. record { bitmap = λ _ _. false; index_last = 0; vaddr = 0; paddr = 0 };
}

-- mm_init, with the directory of the boot stage and the boot loader's memory map.
pub mm_init : ℕ → List MmapEntry → MmState → Option MmState
mm_init boot entries s = elim (phys_init s.phys entries) [
  | none ↦ none
  | some phys ↦ elim (pool_allocate (pool_init (record s { phys = phys; kernel = boot }))) [
    | none ↦ none
    | some (info, _, t) ↦
        if info == naddr
        then none
        else some (poke boot 0 (sub32 boot 0xC000_0000) (poke boot 1023 info (clear_page info t)))
  ]
]
