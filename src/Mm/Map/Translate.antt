-- ===== src/Mm/Map/Translate.antt =====
-- What mm_translate gives behind mm_map_range_pages.
use ygg_kernel.Base.{
  Bool, Bool-cases, Option, ap, arith, false, if◌then◌else◌, inl, inr, not, refl, some, subst, sym,
  true, ℕ, ℕ_discrete, ◌%◌, ◌&&◌, ◌+◌, ◌/◌, ◌<◌, ◌==◌, ◌^◌, ◌∙◌, ◌≡◌, ◌≢◌,
}
use ygg_kernel.Mm.Map.{page_base, pd_index, pt_index, table_info, translate}
use ygg_kernel.Mm.Map.Entry.{Reads, or_low-Reads}
use ygg_kernel.Mm.Phys.{naddr}
use ygg_kernel.Mm.Pool.{MmState, access, huge, or_low, present}
use ygg_kernel.Mm.Pool.Fresh.{InUse}

-- Entry `i` of the directory leads to a table.
abbrev pub tabled : MmState → ℕ → ℕ → Bool
tabled s pd i = present (s.words pd i) && not (huge (s.words pd i))

abbrev pub table_of : MmState → ℕ → ℕ → ℕ
table_of s pd i = page_base (table_info s pd i)

-- An address space whose paging structures are different pages of the pool, all in use.
pub record IsSpace (s : MmState) (pd : ℕ) : Type 0 where
  pub owned : InUse s pd × InUse s (s.words pd 1023)
  pub apart : s.words pd 1023 ≢ pd
  pub tables :
      (i : ℕ)
      → i < 1023
      → tabled s pd i ≡ true
      → (table_info s pd i ≢ 0)
        × InUse s (table_of s pd i)
        × (table_of s pd i ≢ pd)
        × (table_of s pd i ≢ s.words pd 1023)
  pub distinct :
      (i j : ℕ)
      → i < 1023
      → j < 1023
      → tabled s pd i ≡ true
      → tabled s pd j ≡ true
      → i ≢ j
      → table_of s pd i ≢ table_of s pd j

-- What the entry of a table gives.
abbrev pub page_result : ℕ → ℕ → Option (ℕ × ℕ)
page_result entry a =
    if present entry then some (page_base entry + a % 2 ^ 12, access entry) else some (naddr, 0)

translate-table :
    (pd a : ℕ) (s : MmState)
    → tabled s pd (pd_index a) ≡ true
    → table_info s pd (pd_index a) ≢ 0
    → translate pd a s ≡ page_result (s.words (table_of s pd (pd_index a)) (pt_index a)) a
unfolding translate
translate-table pd a s t nz = ground arith

pub translate-same :
    (pd b i : ℕ) (s : MmState)
    → pd_index b ≡ i
    → tabled s pd i ≡ true
    → table_info s pd i ≢ 0
    → translate pd b s ≡ page_result (s.words (table_of s pd i) (pt_index b)) b
translate-same pd b i s e t nz =
    subst
      (λ i.
        tabled s pd i ≡ true
        → table_info s pd i ≢ 0
        → translate pd b s ≡ page_result (s.words (table_of s pd i) (pt_index b)) b)
      e (translate-table pd b s) t nz

-- Two states in which the structures that an address goes through are the same.
translate-frame :
    (pd b : ℕ) (s t : MmState)
    → t.words pd (pd_index b) ≡ s.words pd (pd_index b)
    → table_info t pd (pd_index b) ≡ table_info s pd (pd_index b)
    → (tabled s pd (pd_index b) ≡ true
        → t.words (table_of s pd (pd_index b)) (pt_index b)
          ≡ s.words (table_of s pd (pd_index b)) (pt_index b))
    → translate pd b t ≡ translate pd b s
unfolding translate
translate-frame pd b s t e f g = elim (Bool-cases (tabled s pd (pd_index b))) [
  | inl there ↦ let h = g there in rw (e, f) (ground (arith, h, there))
  | inr not_there ↦ rw (e, f) (ground (arith, not_there))
]

-- The result of mapping `page` at `a`: this page at its addresses, and elsewhere what was there.
abbrev pub MapsAt : ℕ → ℕ → ℕ → ℕ → MmState → MmState → Type 0
MapsAt pd a page flags s t =
    (b : ℕ)
    → pd_index b < 1023
    → translate pd b t ≡ (
        if b / 2 ^ 12 == a / 2 ^ 12
        then some (page + b % 2 ^ 12, access flags)
        else translate pd b s)

page_result-Reads :
    (entry page flags b : ℕ)
    → Reads entry page flags
    → page_result entry b ≡ some (page + b % 2 ^ 12, access flags)
page_result-Reads entry page flags b r = rw (r.is_present, r.base, r.rights) refl

-- How the structures of a space change where `page` is mapped at `a` in the table `pt`.
pub record Mapped (pd a page flags pt : ℕ) (s t : MmState) : Type 0 where
  pub here : tabled t pd (pd_index a) ≡ true
  pub info_here : table_info t pd (pd_index a) ≢ 0
  pub table_here : table_of t pd (pd_index a) ≡ pt
  pub entry_here : t.words pt (pt_index a) ≡ or_low page (access flags + 1)
  pub dir_else : (i : ℕ) → i ≢ pd_index a → t.words pd i ≡ s.words pd i
  pub info_else : (i : ℕ) → i ≢ pd_index a → i < 1023 → table_info t pd i ≡ table_info s pd i
  pub table_else :
      (i j : ℕ)
      → i ≢ pd_index a
      → i < 1023
      → tabled s pd i ≡ true
      → t.words (table_of s pd i) j ≡ s.words (table_of s pd i) j
  pub entry_else :
      (b : ℕ)
      → pd_index b ≡ pd_index a
      → pt_index b ≢ pt_index a
      → page_result (t.words pt (pt_index b)) b ≡ translate pd b s

module _ (pd a page flags pt : ℕ) (s t : MmState) (m : Mapped pd a page flags pt s t) where
  Mapped-here :
      (b : ℕ) → pd_index b ≡ pd_index a → translate pd b t ≡ page_result (t.words pt (pt_index b)) b
  Mapped-here b e =
      translate-same pd b (pd_index a) t e m.here m.info_here
      ∙ ap (λ p. page_result (t.words p (pt_index b)) b) m.table_here

  pub Mapped-MapsAt : page % 2 ^ 12 ≡ 0 → MapsAt pd a page flags s t
  Mapped-MapsAt aligned b below = elim (ℕ_discrete (pd_index b) (pd_index a)) [
    | no other ↦
        let apart : (b / 2 ^ 12 == a / 2 ^ 12) ≡ false = ground (arith, other) in
        rw apart (
          translate-frame pd b s t (m.dir_else (pd_index b) other)
            (m.info_else (pd_index b) other below)
            (λ tab. m.table_else (pd_index b) (pt_index b) other below tab))
    | yes same ↦ elim (ℕ_discrete (pt_index b) (pt_index a)) [
      | no other ↦
          let apart : (b / 2 ^ 12 == a / 2 ^ 12) ≡ false = ground (arith, other) in
          rw apart (Mapped-here b same ∙ m.entry_else b same other)
      | yes equal ↦
          let one : (b / 2 ^ 12 == a / 2 ^ 12) ≡ true = ground (arith, same, equal) in
          rw one (
            Mapped-here b same
            ∙ ap (λ j. page_result (t.words pt j) b) equal
            ∙ page_result-Reads (t.words pt (pt_index a)) page flags b (
                subst (λ e. Reads e page flags) (sym m.entry_here)
                  (or_low-Reads page flags aligned)))
    ]
  ]
