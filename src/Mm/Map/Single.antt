-- ===== src/Mm/Map/Single.antt =====
-- Mapping one page, map_page, keeps all other addresses: the round of mm_map_range_pages.
use ygg_kernel.Base.{
  ap, arith, false, if◌then◌else◌, subst, sym, true, ℕ, ◌%◌, ◌+◌, ◌<◌, ◌==◌, ◌^◌, ◌∙◌, ◌≡◌, ◌≢◌,
}
use ygg_kernel.Mm.Map.{countable, map_into, page_base, pd_index, pt_index, table_info, translate}
use ygg_kernel.Mm.Map.Entry.{or_low-add}
use ygg_kernel.Mm.Map.Translate.{IsSpace, Mapped, page_result, table_of, tabled, translate-same}
use ygg_kernel.Mm.Pool.{MmState, access, huge, or_low, poke, present}
use ygg_kernel.Mm.Pool.Fresh.{Fresh, InUse}

-- What the round writes: a word of the directory, one of the page of tables, and one of the table,
-- which held `old` before.
record Written (pd a entry pt e info : ℕ) (old : ℕ → ℕ) (s t : MmState) : Type 0 where
  dir : (i : ℕ) → t.words pd i ≡ (if pd_index a == i then e else s.words pd i)
  infos :
      (i : ℕ)
      → t.words (s.words pd 1023) i
        ≡ (if pd_index a == i then info else s.words (s.words pd 1023) i)
  entries : (j : ℕ) → t.words pt j ≡ (if pt_index a == j then entry else old j)
  others : (x j : ℕ) → x ≢ pd → x ≢ s.words pd 1023 → x ≢ pt → t.words x j ≡ s.words x j
  leads : (present e ≡ true) × (huge e ≡ false) × (info ≢ 0) × (page_base info ≡ pt)

module _ (pd a page flags pt e info : ℕ) (old : ℕ → ℕ) (s t : MmState) (space : IsSpace s pd)
    (inside : pd_index a < 1023)
    (w : Written pd a (or_low page (access flags + 1)) pt e info old s t) where
  info_of : (i : ℕ) → table_info t pd i ≡ (if pd_index a == i then info else table_info s pd i)
  info_of i =
      let top : t.words pd 1023 ≡ s.words pd 1023 = ground (arith, w.dir 1023) in
      ap (λ p. t.words p i) top ∙ w.infos i

  Written-Mapped :
      ((i : ℕ) → i < 1023 → i ≢ pd_index a → tabled s pd i ≡ true → table_of s pd i ≢ pt)
      → ((b : ℕ)
          → pd_index b ≡ pd_index a
          → pt_index b ≢ pt_index a
          → page_result (old (pt_index b)) b ≡ translate pd b s)
      → Mapped pd a page flags pt s t
  Written-Mapped apart before = record {
    here = ground (arith, w.dir (pd_index a), w.leads);
    info_here = ground (arith, info_of (pd_index a), w.leads);
    table_here = ground (arith, info_of (pd_index a), w.leads);
    entry_here = ground (arith, w.entries (pt_index a));
    dir_else = λ i ne. ground (arith, w.dir i, ne);
    info_else = λ i ne lt. ground (arith, info_of i, ne);
    table_else = λ i j ne lt tab.
        let (nz, used, not_pd, not_ti) = space.tables i lt tab in
        w.others (table_of s pd i) j not_pd not_ti (apart i lt ne tab);
    entry_else = λ b same ne.
        let kept : t.words pt (pt_index b) ≡ old (pt_index b) =
          ground (arith, w.entries (pt_index b), ne) in
        rw kept (before b same ne);
  }

module _ (pd a page flags : ℕ) (s : MmState) (space : IsSpace s pd) (inside : pd_index a < 1023)
    (t : tabled s pd (pd_index a) ≡ true)
    (c : countable (table_info s pd (pd_index a)) ≡ true) where
  map_into-Written :
      Written pd a
        (or_low page (access flags + 1))
        (table_of s pd (pd_index a))
        (s.words pd (pd_index a))
        (table_info s pd (pd_index a) + 1)
        (s.words (table_of s pd (pd_index a)))
        s
        (map_into pd a page flags s)
  unfolding map_into
  map_into-Written =
      let (nz, used, not_pd, not_ti) = space.tables (pd_index a) inside t in
      let apart = space.apart in
      let full : table_info s pd (pd_index a) % 2 ^ 12 ≢ 0xFFF = ground (arith, c) in
      record {
        dir = λ i. ground (arith, apart, not_pd, not_ti);
        infos = λ i. ground (arith, apart, not_pd, not_ti);
        entries = λ j. ground (arith, apart, not_pd, not_ti);
        others = λ x j npd nti npt. ground (arith, npd, nti, npt);
        leads = (ground (arith, t), ground (arith, t), omega arith, omega (arith, full));
      }

  pub map_into-Mapped :
      Mapped pd a page flags (table_of s pd (pd_index a)) s (map_into pd a page flags s)
  map_into-Mapped =
      Written-Mapped pd a page flags (table_of s pd (pd_index a)) (s.words pd (pd_index a))
        (table_info s pd (pd_index a) + 1) (s.words (table_of s pd (pd_index a))) s
        (map_into pd a page flags s) space inside map_into-Written
        (λ i lt ne tab. space.distinct i (pd_index a) lt inside tab t ne)
        (λ b same ne.
          sym (translate-same pd b (pd_index a) s same t (space.tables (pd_index a) inside t).0))

module _ (pd a page flags : ℕ) (s : MmState) (space : IsSpace s pd) (inside : pd_index a < 1023)
    (pt phys : ℕ) (u : MmState) (fresh : Fresh s pt phys u)
    (clear : (j : ℕ) → present (s.words pt j) ≡ false)
    (unmapped : present (s.words pd (pd_index a)) ≡ false) where
  -- What map_new leaves behind an allocation.
  abbrev pub new_table : MmState
  new_table =
      let t1 = poke (u.words pd 1023) (pd_index a) (or_low pt 1) u in
      let t2 = poke pd (pd_index a) (or_low phys 7) t1 in
      poke pt (pt_index a) (or_low page (access flags + 1)) t2

  pub fresh-ne : (x : ℕ) → InUse s x → x ≢ pt
  fresh-ne x used e = ground (arith, subst (InUse s) e used, fresh.free)

  new_table-Written :
      Written pd a
        (or_low page (access flags + 1))
        pt
        (or_low phys 7)
        (or_low pt 1)
        (s.words pt)
        s
        new_table
  new_table-Written =
      let words : u.words ≡ s.words = ap (λ v. v.words) fresh.kept in
      let apart = space.apart in
      let not_pd = fresh-ne pd space.owned.0 in
      let not_ti = fresh-ne (s.words pd 1023) space.owned.1 in
      let info = or_low-add pt 1 fresh.page.0 (omega arith) in
      let entry = or_low-add phys 7 fresh.page.1 (omega arith) in
      record {
        dir = λ i. rw words (ground (arith, apart, not_pd, not_ti));
        infos = λ i. rw words (ground (arith, apart, not_pd, not_ti));
        entries = λ j. rw words (ground (arith, apart, not_pd, not_ti));
        others = λ x j npd nti npt. rw words (ground (arith, npd, nti, npt));
        leads = (
          ground (arith, entry, fresh.page),
          ground (arith, entry, fresh.page),
          omega (arith, info),
          omega (arith, info, fresh.page),
        );
      }

  pub new_table-Mapped : Mapped pd a page flags pt s new_table
  unfolding translate
  new_table-Mapped =
      Written-Mapped pd a page flags pt (or_low phys 7) (or_low pt 1) (s.words pt) s new_table space
        inside new_table-Written
        (λ i lt ne tab. fresh-ne (table_of s pd i) (space.tables i lt tab).1)
        (λ b same ne.
          let gone : present (s.words pd (pd_index b)) ≡ false =
            subst (λ i. present (s.words pd i) ≡ false) (sym same) unmapped in
          ground (arith, gone, clear (pt_index b)))
