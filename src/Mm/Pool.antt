-- ===== src/Mm/Pool.antt =====
-- The pool of pages for paging structures, arch/x86/mm/space.c. A page that the kernel reads and
-- writes as 1024 words is known by its virtual address. `none` is a failed assertion, a panic, or a
-- search that runs on behind the bitmap.
pub mod Fresh
pub mod Reach
use ygg_kernel.Base.{
  Bool, List, Option, Word, [], bit_or, false, if◌then◌else◌, leb, ltb, none, not, some, suc, true,
  update, zero, ℕ, ◌%◌, ◌&&◌, ◌*◌, ◌+◌, ◌-◌, ◌/◌, ◌==◌, ◌^◌, ◌∷◌,
}
use ygg_kernel.Mm.Phys.{Phys, alloc_physical_page, find_page, flg_ps}

-- One entry of x86_page_pool; a `vaddr` of 0 marks one that is not set up.
pub record Pool : Type 0 where
  pub bitmap : ℕ → Word
  pub index_last : ℕ
  pub vaddr : ℕ
  pub paddr : ℕ

-- The words of the pages of paging structures, the bytes of physical memory, its allocator, the pools,
-- and mm_kernel.
pub record MmState : Type 0 where
  pub words : ℕ → ℕ → ℕ
  pub ram : ℕ → ℕ
  pub phys : Phys
  pub pools : ℕ → Pool
  pub kernel : ℕ

abbrev pub pool_count : ℕ
pool_count = 16

-- KERNEL_VIRT_BASE + (4 << 22)
abbrev pub pool_base : ℕ
pool_base = 0xC000_0000 + 4 * 2 ^ 22

-- `e & X86_MM_FLG_PR` and `e & X86_MM_FLG_PS`
abbrev pub present : ℕ → Bool
present e = e % 2 == 1

abbrev pub huge : ℕ → Bool
huge e = e / 128 % 2 == 1

-- `a | flags`, for flags below 2 ^ 12.
abbrev pub or_low : ℕ → ℕ → ℕ
or_low a flags = a - a % 2 ^ 12 + bit_or (a % 2 ^ 12) flags

-- `flags & (MM_FLG_WR | MM_FLG_US)`
abbrev pub access : ℕ → ℕ
access flags = flags / 2 % 4 * 2

-- `page[i] = v`
abbrev pub poke : ℕ → ℕ → ℕ → MmState → MmState
poke page i v s = record s { words = update s.words page (update (s.words page) i v) }

-- mm_map_range_pages with MM_FLG_PS, for the directory `pd` from entry `i` on.
unfoldable pub map_huge_pages : ℕ → ℕ → List ℕ → ℕ → MmState → Option MmState
map_huge_pages pd i [] flags s = some s
map_huge_pages pd i (page ∷ pages) flags s =
    let rest =
      map_huge_pages pd (i + 1) pages flags (poke pd i (or_low page (access flags + 0x81)) s) in
    if present (s.words pd i) then none else rest

-- The set-up of the pool `i` at the start of x86_page_pool_allocate.
pub open_pool : ℕ → MmState → Option MmState
unfolding map_huge_pages
open_pool i s =
    let (page, phys) = alloc_physical_page flg_ps s.phys in
    let base = (pool_base + i * 2 ^ 22) % 2 ^ 32 in
    map_huge_pages s.kernel (base / 2 ^ 22) (page ∷ []) (flg_ps + 2) (record s {
      phys = phys;
      pools =
          update s.pools i
            (record { bitmap = λ _ _. false; index_last = 0; vaddr = base; paddr = page });
    })

-- The bit `(j, k)` of the pool `i` is set; the results are the page's virtual and physical address.
unfoldable pub take_pool_page : ℕ → ℕ × ℕ → MmState → ℕ × ℕ × MmState
take_pool_page i (j, k) s =
    let p = s.pools i in
    (
      (p.vaddr + j * 2 ^ 17 + k * 2 ^ 12) % 2 ^ 32,
      (p.paddr + j * 2 ^ 17 + k * 2 ^ 12) % 2 ^ 32,
      record s {
        pools =
            update s.pools i (record p {
              bitmap = update p.bitmap j (update (p.bitmap j) k true);
              index_last = j;
            });
      },
    )

-- The first loop over the words of the first pool. Where every word from the last one on is full it
-- goes on behind the bitmap, so the later loops are not reached; what it finds in the memory there
-- is not modelled, and `none` stands for it: a theorem on a search that is `some` says nothing of it.
unfoldable pub search_pool : MmState → Option (ℕ × ℕ × MmState)
search_pool s =
    let p = s.pools 0 in
    elim (find_page (32 - p.index_last) p.index_last p.bitmap) [
      | none ↦ none
      | some found ↦ some (take_pool_page 0 found s)
    ]

-- x86_page_pool_allocate
unfoldable pub pool_allocate : MmState → Option (ℕ × ℕ × MmState)
pool_allocate s =
    if (s.pools 0).vaddr == 0
    then elim (open_pool 0 s) [ none ↦ none | some t ↦ search_pool t ]
    else search_pool s

-- Whether the pool has the address `a`.
abbrev pub in_pool : Pool → ℕ → Bool
in_pool p a = not (p.vaddr == 0) && leb p.vaddr a && ltb (a - p.vaddr) 0x40_0000

-- The bit of the page at `a`.
abbrev pub pool_bit : Pool → ℕ → Bool
pool_bit p a = p.bitmap ((a - p.vaddr) / 2 ^ 17) ((a - p.vaddr) / 2 ^ 12 % 32)

pub release_page : ℕ → ℕ → MmState → MmState
release_page i a s =
    let p = s.pools i in
    let j = (a - p.vaddr) / 2 ^ 17 in
    record s {
      pools = update s.pools i (record p {
        bitmap = update p.bitmap j (update (p.bitmap j) ((a - p.vaddr) / 2 ^ 12 % 32) false);
      });
    }

-- The loop of x86_page_pool_free, `n` pools from pool `i` on.
unfoldable pub pool_free_from : ℕ → ℕ → ℕ → MmState → Option MmState
pool_free_from zero i a s = none
pool_free_from (suc n) i a s =
    let rest = pool_free_from n (i + 1) a s in
    if in_pool (s.pools i) a
    then (if pool_bit (s.pools i) a then some (release_page i a s) else none)
    else rest

-- x86_page_pool_free
unfoldable pub pool_free : ℕ → MmState → Option MmState
pool_free a s = pool_free_from pool_count 0 a s
