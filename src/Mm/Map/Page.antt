-- ===== src/Mm/Map/Page.antt =====
-- A round of mm_map_range_pages maps one page and keeps all other addresses.
use ygg_kernel.Base.{
  arith, false, inl, inr, some, sym, true, ℕ, ◌%◌, ◌+◌, ◌<◌, ◌==◌, ◌^◌, ◌≡◌, ◌≤◌, ◌⊎◌,
}
use ygg_kernel.Mm.Map.{countable, map_into, map_new, map_page, pd_index, table_info}
use ygg_kernel.Mm.Map.Keep.{Mapped-IsSpace}
use ygg_kernel.Mm.Map.Single.{fresh-ne, map_into-Mapped, new_table, new_table-Mapped}
use ygg_kernel.Mm.Map.Translate.{IsSpace, Mapped-MapsAt, MapsAt, table_of, tabled}
use ygg_kernel.Mm.Phys.{naddr}
use ygg_kernel.Mm.Pool.{MmState, huge, in_pool, pool_allocate, pool_base, pool_bit, present}
use ygg_kernel.Mm.Pool.Fresh.{Fresh, InUse, IsPool, pool_allocate-Fresh}

map_into-IsPool :
    (pd a page flags : ℕ) (s : MmState) → IsPool s → IsPool (map_into pd a page flags s)
unfolding map_into
map_into-IsPool pd a page flags s p = record { base = p.base; aligned = p.aligned }

map_into-InUse :
    (pd a page flags : ℕ) (s : MmState) (x : ℕ) → InUse s x → InUse (map_into pd a page flags s) x
unfolding map_into
map_into-InUse pd a page flags s x h = h

map_into-IsSpace :
    (pd a page flags : ℕ) (s : MmState) (space : IsSpace s pd) (inside : pd_index a < 1023)
    (there : tabled s pd (pd_index a) ≡ true)
    → countable (table_info s pd (pd_index a)) ≡ true
    → IsSpace (map_into pd a page flags s) pd
map_into-IsSpace pd a page flags s space inside there room =
    let (nz, used, not_pd, not_ti) = space.tables (pd_index a) inside there in
    Mapped-IsSpace pd a page flags (table_of s pd (pd_index a)) s (map_into pd a page flags s) space
      (map_into-Mapped pd a page flags s space inside there room) (map_into-InUse pd a page flags s)
      (map_into-InUse pd a page flags s (table_of s pd (pd_index a)) used) not_pd not_ti inside
      (λ i lt ne tab. space.distinct i (pd_index a) lt inside tab there ne)

module _ (s : MmState) (pt phys : ℕ) (u : MmState) (fresh : Fresh s pt phys u)
    (pool : IsPool s) where
  Fresh-InUse : (x : ℕ) → InUse s x → InUse u x
  Fresh-InUse x h =
      let base = pool.base in
      let base' = fresh.pool.base in
      let lo : pool_base ≤ x = ground (arith, h, base) in
      let hi : x < pool_base + 2 ^ 22 = ground (arith, h, base) in
      let bit = fresh.bits x lo hi in
      let taken : pool_bit (u.pools 0) x ≡ true = ground (arith, bit, h) in
      let there : in_pool (u.pools 0) x ≡ true = ground (arith, base', lo, hi) in
      ground (arith, taken, there)

  Fresh-self : InUse u pt
  Fresh-self =
      let base' = fresh.pool.base in
      let (lo, hi) = fresh.range in
      let bit = fresh.bits pt lo hi in
      let taken : pool_bit (u.pools 0) pt ≡ true = ground (arith, bit) in
      let there : in_pool (u.pools 0) pt ≡ true = ground (arith, base', lo, hi) in
      ground (arith, taken, there)

module _ (pd a page flags : ℕ) (s : MmState) (space : IsSpace s pd) (inside : pd_index a < 1023)
    (pt phys : ℕ) (u : MmState) (fresh : Fresh s pt phys u)
    (clear : (j : ℕ) → present (s.words pt j) ≡ false)
    (unmapped : present (s.words pd (pd_index a)) ≡ false) (pool : IsPool s) where
  new_table-IsSpace :
      IsSpace (new_table pd a page flags s space inside pt phys u fresh clear unmapped) pd
  new_table-IsSpace =
      let ne = fresh-ne pd a page flags s space inside pt phys u fresh clear unmapped in
      Mapped-IsSpace pd a page flags pt s
        (new_table pd a page flags s space inside pt phys u fresh clear unmapped) space
        (new_table-Mapped pd a page flags s space inside pt phys u fresh clear unmapped)
        (Fresh-InUse s pt phys u fresh pool) (Fresh-self s pt phys u fresh pool)
        (λ e. ne pd space.owned.0 (sym e)) (λ e. ne (s.words pd 1023) space.owned.1 (sym e)) inside
        (λ i lt differ tab. ne (table_of s pd i) (space.tables i lt tab).1)

-- A page can be mapped at `a`: the table there has a counter that can go up, or there is none and
-- the pool gives a page for one on which no entry is marked present.
abbrev pub CanMap : MmState → ℕ → ℕ → Type 0
CanMap s pd i =
    ((tabled s pd i ≡ true) × (countable (table_info s pd i) ≡ true))
    ⊎ ((present (s.words pd i) ≡ false)
        × (huge (s.words pd i) ≡ false)
        × (pt : ℕ) × (phys : ℕ) × (u : MmState) × (pool_allocate s ≡ some (pt, phys, u))
        × ((j : ℕ) → present (s.words pt j) ≡ false))

-- In an address space whose paging structures are different pages of the pool, take an address `a`
-- whose entry of the directory is neither the first nor the last, and suppose that the table of `a`
-- is there with a counter that can go up, or that there is none and the page that the pool gives
-- for one holds no entry marked present, which the code does not see to itself. Mapping an aligned
-- page at `a` succeeds; then mm_translate gives this page, with the access rights asked for, at all
-- addresses of the page of `a`, and at every other one below the last directory entry what it gave
-- before; the directory's first word is the one it was; and the space and the pool stay well
-- formed.
pub map_page-MapsAt :
    (pd a page flags : ℕ) (s : MmState)
    → IsPool s
    → IsSpace s pd
    → 0 < pd_index a
    → pd_index a < 1023
    → page % 2 ^ 12 ≡ 0
    → CanMap s pd (pd_index a)
    → (t : MmState) × (map_page pd a page flags s ≡ some t)
      × MapsAt pd a page flags s t
      × (t.words pd 0 ≡ s.words pd 0)
      × IsSpace t pd
      × IsPool t
unfolding map_page map_new
map_page-MapsAt pd a page flags s pool space behind inside aligned (inl (there, room)) =
    let mapped = map_into-Mapped pd a page flags s space inside there room in
    let (nz, used, not_pd, not_ti) = space.tables (pd_index a) inside there in
    (
      map_into pd a page flags s,
      ground (arith, there, room),
      Mapped-MapsAt pd a page flags (table_of s pd (pd_index a)) s (map_into pd a page flags s)
          mapped aligned,
      mapped.dir_else 0 (λ e. omega (arith, behind, e)),
      map_into-IsSpace pd a page flags s space inside there room,
      map_into-IsPool pd a page flags s pool,
    )
map_page-MapsAt pd a page flags s pool space behind inside aligned
      (inr (gone, small, pt, phys, u, e, clear)) =
    let fresh = pool_allocate-Fresh s pool pt phys u e in
    let valid : (pt == naddr) ≡ false = ground (arith, fresh.range) in
    let t = new_table pd a page flags s space inside pt phys u fresh clear gone in
    let mapped = new_table-Mapped pd a page flags s space inside pt phys u fresh clear gone in
    (
      t,
      ground (arith, gone, small, e, valid),
      Mapped-MapsAt pd a page flags pt s t mapped aligned,
      mapped.dir_else 0 (λ e. omega (arith, behind, e)),
      new_table-IsSpace pd a page flags s space inside pt phys u fresh clear gone pool,
      record { base = fresh.pool.base; aligned = fresh.pool.aligned },
    )
