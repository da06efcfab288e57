-- ===== src/Mm/Map/Keep.antt =====
-- Mapping a page keeps an address space well formed, so that pages can be mapped one after the other.
use ygg_kernel.Base.{ap, arith, subst, sym, true, ℕ, ℕ_discrete, ◌<◌, ◌∙◌, ◌≡◌, ◌≢◌}
use ygg_kernel.Mm.Map.{page_base, pd_index, table_info}
use ygg_kernel.Mm.Map.Translate.{IsSpace, Mapped, table_of, tabled}
use ygg_kernel.Mm.Pool.{MmState}
use ygg_kernel.Mm.Pool.Fresh.{InUse}

module _ (pd a page flags pt : ℕ) (s t : MmState) (space : IsSpace s pd)
    (m : Mapped pd a page flags pt s t) (kept : (x : ℕ) → InUse s x → InUse t x)
    (pt_used : InUse t pt) (not_pd : pt ≢ pd) (not_ti : pt ≢ s.words pd 1023)
    (inside : pd_index a < 1023)
    (new : (i : ℕ) → i < 1023 → i ≢ pd_index a → tabled s pd i ≡ true → table_of s pd i ≢ pt) where
  top : t.words pd 1023 ≡ s.words pd 1023
  top = m.dir_else 1023 (omega arith)

  tabled_else : (i : ℕ) → i ≢ pd_index a → tabled t pd i ≡ true → tabled s pd i ≡ true
  tabled_else i ne h = rw (← m.dir_else i ne) h

  table_else : (i : ℕ) → i < 1023 → i ≢ pd_index a → table_of t pd i ≡ table_of s pd i
  table_else i lt ne = ap page_base (m.info_else i ne lt)

  table_at : (i : ℕ) → i ≡ pd_index a → table_of t pd i ≡ pt
  table_at i same = ap (table_of t pd) same ∙ m.table_here

  Mapped-distinct :
      (i j : ℕ)
      → i < 1023
      → j < 1023
      → tabled t pd i ≡ true
      → tabled t pd j ≡ true
      → i ≢ j
      → table_of t pd i ≢ table_of t pd j
  Mapped-distinct i j li lj hi hj ne e = elim (ℕ_discrete i (pd_index a)) [
    | yes si ↦ elim (ℕ_discrete j (pd_index a)) [
      | yes sj ↦ ne (si ∙ sym sj)
      | no nj ↦ new j lj nj (tabled_else j nj hj) (sym (table_else j lj nj) ∙ sym e ∙ table_at i si)
    ]
    | no ni ↦ elim (ℕ_discrete j (pd_index a)) [
      | yes sj ↦ new i li ni (tabled_else i ni hi) (sym (table_else i li ni) ∙ e ∙ table_at j sj)
      | no nj ↦
          space.distinct i j li lj (tabled_else i ni hi) (tabled_else j nj hj) ne
            (sym (table_else i li ni) ∙ e ∙ table_else j lj nj)
    ]
  ]

  Mapped-tables :
      (i : ℕ)
      → i < 1023
      → tabled t pd i ≡ true
      → (table_info t pd i ≢ 0)
        × InUse t (table_of t pd i)
        × (table_of t pd i ≢ pd)
        × (table_of t pd i ≢ t.words pd 1023)
  Mapped-tables i lt h = elim (ℕ_discrete i (pd_index a)) [
    | yes same ↦
        let at = table_at i same in
        (
          λ e. m.info_here (sym (ap (table_info t pd) same) ∙ e),
          subst (InUse t) (sym at) pt_used,
          λ e. not_pd (sym at ∙ e),
          λ e. not_ti (sym at ∙ e ∙ top),
        )
    | no ne ↦
        let (nz, used, npd, nti) = space.tables i lt (tabled_else i ne h) in
        rw (m.info_else i ne lt, top) (nz, kept (table_of s pd i) used, npd, nti)
  ]

  pub Mapped-IsSpace : IsSpace t pd
  Mapped-IsSpace = record {
    owned = (kept pd space.owned.0, rw top (kept (s.words pd 1023) space.owned.1));
    apart = rw top space.apart;
    tables = Mapped-tables;
    distinct = Mapped-distinct;
  }
