-- ===== src/Heap/Stats.antt =====
-- heap_stat of sys/heap.c.
use ygg_kernel.Base.{
  List, Option, [], add32, has_flag, if◌then◌else◌, none, some, suc, zero, ℕ, ◌%◌, ◌*◌, ◌+◌, ◌==◌,
  ◌^◌, ◌∷◌,
}
use ygg_kernel.Heap.{Block, Heap, Memory, flg_exclude, flg_used, header}

-- struct heap_stat, without the copies of the counters.
pub record Stat : Type 0 where
  pub free : ℕ
  pub used : ℕ
  pub total : ℕ
  pub blocks : ℕ
  pub frags : ℕ

-- One round of the inner loop of heap_stat.
unfoldable pub stat_block : Block → Stat → Stat
stat_block b st =
    let counted = record st { blocks = add32 st.blocks 1 } in
    if has_flag b.flags flg_used
    then (if has_flag b.flags flg_exclude
        then counted
        else record counted { used = add32 st.used b.size })
    else record counted { free = add32 st.free b.size }

-- The inner loop of heap_stat; `none` means that the fuel ran out.
unfoldable pub stat_chain : ℕ → ℕ → Memory → Stat → Option Stat
stat_chain zero it m st = none
stat_chain (suc k) it m st =
    let rest = stat_chain k (m it).next m (stat_block (m it) st) in
    if it == 0 then some st else rest

unfoldable pub stat_from : ℕ → List ℕ → Memory → Stat → Option Stat
stat_from k [] m st = some st
stat_from k (r ∷ rs) m st =
    if r == 0 then some st else elim (stat_chain k r m (record st { frags = add32 st.frags 1 })) [
      | none ↦ none
      | some st' ↦ stat_from k rs m st'
    ]

-- heap_stat
unfoldable pub stat : ℕ → Heap → Option Stat
stat k h =
    elim (stat_from k h.regions h.mem
      (record { free = 0; used = 0; total = 0; blocks = 0; frags = 0 })) [
        | none ↦ none
        | some st ↦ some (record st { total = (st.used + st.free + st.blocks * header) % 2 ^ 32 })
      ]
