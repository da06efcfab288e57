-- ===== src/Mm/Pool/Fresh.antt =====
-- What x86_page_pool_allocate hands out.
use ygg_kernel.Base.{
  Option-cases, arith, false, if◌then◌else◌, inl, inr, refl, some, subst, true, ℕ, ℕ_discrete, ◌%◌,
  ◌&&◌, ◌*◌, ◌+◌, ◌-◌, ◌/◌, ◌<◌, ◌==◌, ◌^◌, ◌≡◌, ◌≢◌, ◌≤◌, ◌⊎◌,
}
use ygg_kernel.Mm.Phys.{find_page}
use ygg_kernel.Mm.Phys.Search.{find_page-clear}
use ygg_kernel.Mm.Pool.{
  MmState, in_pool, pool_allocate, pool_base, pool_bit, search_pool, take_pool_page,
}

-- The page at `a` is in use in the pool.
abbrev pub InUse : MmState → ℕ → Type 0
InUse s a = (in_pool (s.pools 0) a && pool_bit (s.pools 0) a) ≡ true

-- The first pool is set up as x86_page_pool_allocate does it.
pub record IsPool (s : MmState) : Type 0 where
  pub base : (s.pools 0).vaddr ≡ pool_base
  pub aligned : (s.pools 0).paddr % 2 ^ 12 ≡ 0

-- A page that the pool hands out: it was free, it is aligned, and nothing but its bit is changed.
pub record Fresh (s : MmState) (pt phys : ℕ) (u : MmState) : Type 0 where
  pub free : pool_bit (s.pools 0) pt ≡ false
  pub page : (pt % 2 ^ 12 ≡ 0) × (phys % 2 ^ 12 ≡ 0)
  pub range : (pool_base ≤ pt) × (pt < pool_base + 2 ^ 22)
  pub kept : u ≡ record s { pools = u.pools }
  pub bits :
      (a : ℕ)
      → pool_base ≤ a
      → a < pool_base + 2 ^ 22
      → pool_bit (u.pools 0) a
        ≡ (if a / 2 ^ 12 == pt / 2 ^ 12 then true else pool_bit (s.pools 0) a)
  pub pool : IsPool u

module _ (s : MmState) (p : IsPool s) where
  take_pool_page-Fresh :
      (j k : ℕ)
      → j < 32
      → k < 32
      → (s.pools 0).bitmap j k ≡ false
      → let r = take_pool_page 0 (j, k) s in Fresh s r.0 r.1 r.2
  unfolding take_pool_page
  take_pool_page-Fresh j k lj lk clear =
      let base = p.base in
      let aligned = p.aligned in
      let at : ((s.pools 0).vaddr + j * 2 ^ 17 + k * 2 ^ 12) % 2 ^ 32
          ≡ pool_base + j * 2 ^ 17 + k * 2 ^ 12 =
        omega arith in
      record {
        free =
            (let v = ((s.pools 0).vaddr + j * 2 ^ 17 + k * 2 ^ 12) % 2 ^ 32 in
              let word : (v - (s.pools 0).vaddr) / 2 ^ 17 ≡ j = omega arith in
              let bit : (v - (s.pools 0).vaddr) / 2 ^ 12 % 32 ≡ k = omega arith in
              ground (arith, word, bit, clear));
        page = (omega arith, omega arith);
        range = (omega arith, omega arith);
        kept = refl;
        bits = λ a lo hi.
            (let v = ((s.pools 0).vaddr + j * 2 ^ 17 + k * 2 ^ 12) % 2 ^ 32 in
              elim (ℕ_discrete (a / 2 ^ 12) (v / 2 ^ 12)) [
                | yes same ↦
                    let word : (a - (s.pools 0).vaddr) / 2 ^ 17 ≡ j = omega arith in
                    let bit : (a - (s.pools 0).vaddr) / 2 ^ 12 % 32 ≡ k = omega arith in
                    ground (arith, same, word, bit)
                | no other ↦
                    let differ : ((a - (s.pools 0).vaddr) / 2 ^ 17 ≢ j)
                        ⊎ ((a - (s.pools 0).vaddr) / 2 ^ 12 % 32 ≢ k) =
                      elim (ℕ_discrete ((a - (s.pools 0).vaddr) / 2 ^ 17) j) [
                        | no ne ↦ inl ne
                        | yes word ↦ inr (λ bit. other (omega arith))
                      ] in
                    ground (arith, other, differ)
              ]);
        pool = record { base = base; aligned = aligned };
      }

  -- A page that x86_page_pool_allocate returns was free, and its bit is the only one that is set.
  pub pool_allocate-Fresh :
      (pt phys : ℕ) (u : MmState) → pool_allocate s ≡ some (pt, phys, u) → Fresh s pt phys u
  unfolding pool_allocate search_pool
  pool_allocate-Fresh pt phys u e =
      let set_up : ((s.pools 0).vaddr == 0) ≡ false = ground (arith, p.base) in
      elim (Option-cases
        (find_page (32 - (s.pools 0).index_last) (s.pools 0).index_last (s.pools 0).bitmap)) [
          | inl full ↦ absurd (ground (arith, set_up, full))
          | inr ((j, k), found) ↦
              let (lo, hi, bit, clear) =
                find_page-clear (32 - (s.pools 0).index_last) (s.pools 0).index_last j k
                  (s.pools 0).bitmap found in
              let taken : take_pool_page 0 (j, k) s ≡ (pt, phys, u) =
                ground (arith, set_up, found) in
              subst (λ r. Fresh s r.0 r.1 r.2) taken
                (take_pool_page-Fresh j k (omega arith) bit clear)
        ]
