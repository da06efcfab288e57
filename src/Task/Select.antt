-- ===== src/Task/Select.antt =====
-- The choice of the next task, the second loop of x86_task_switch, as a search of a list.
use ygg_kernel.Base.{
  Bool-cases, List, Option-cases, [], arith, false, if◌then◌else◌, inl, inr, some, suc, zero, ℕ,
  ℕ_discrete, ◌∷◌, ◌≡◌, ◌≢◌,
}
use ygg_kernel.Task.{Sched, Task, blocked, choose, select, successor}

-- The tasks behind `a` are those at the addresses of the list, up to NULL.
unfoldable pub Links : (ℕ → Task) → ℕ → List ℕ → Type 0
Links mem a [] = (mem a).next ≡ 0
Links mem a (b ∷ l) = ((mem a).next ≡ b) × ((b ≢ 0) × Links mem b l)

-- No address of the list is `a`.
unfoldable pub Without : ℕ → List ℕ → Type 0
Without a [] = Unit
Without a (b ∷ l) = (b ≢ a) × Without a l

-- The first address of the list whose task is not blocked, or `top`.
unfoldable pub first_ready : (ℕ → Task) → ℕ → List ℕ → ℕ
first_ready mem top [] = top
first_ready mem top (b ∷ l) =
    let rest = first_ready mem top l in if blocked (mem b) then rest else b

select-ready :
    (k : ℕ) (mem : ℕ → Task) (top from a b : ℕ)
    → select k mem top from a ≡ some b
    → b ≢ from
    → blocked (mem b) ≡ false
unfolding select
select-ready zero mem top from a b e ne = absurd (ground arith)
select-ready (suc k) mem top from a b e ne =
    let ih = select-ready k mem top from (successor mem top a) b in
    elim (Bool-cases (blocked (mem (successor mem top a)))) [
      | inl stuck ↦ elim (ℕ_discrete (successor mem top a) from) [
        | yes same ↦ ground (arith, stuck, same, ne)
        | no other ↦ ih (ground (arith, stuck, other)) ne
      ]
      | inr free_to_run ↦ ground (arith, free_to_run)
    ]

-- The task that the scheduler chooses is not blocked, or is the idle task.
choose-ready :
    (k : ℕ) (s : Sched) (b : ℕ) → choose k s ≡ some b → b ≢ s.idle → blocked (s.task_at b) ≡ false
unfolding choose
choose-ready k s b e ne = elim (Option-cases (select k s.task_at s.first s.current s.current)) [
  | inl nothing ↦ absurd (ground (arith, nothing))
  | inr (c, found) ↦ elim (ℕ_discrete c s.current) [
    | yes same ↦ elim (Bool-cases (blocked (s.task_at c))) [
      | inl stuck ↦ absurd (ground (arith, found, same, stuck, ne))
      | inr idle_or_free ↦ ground (arith, found, same, idle_or_free)
    ]
    | no other ↦
        let ready = select-ready k s.task_at s.first s.current s.current c found other in
        ground (arith, found, other, ready)
  ]
]
