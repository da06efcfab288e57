-- ===== src/Task.antt =====
-- The scheduler, arch/x86/task/task.c and sys/task.c. A pointer to a task is its address, 0 for NULL,
-- and the store gives the task at every address; what task_destroy frees stays readable, as the
-- source reads `t->next` behind it.
pub mod Select
pub mod Refresh
pub mod Reap
pub mod Switch
pub mod Round
pub mod Tests
use ygg_kernel.Base.{
  Bool, List, Option, bit_or, false, has_flag, if◌then◌else◌, leb, none, not, some, suc, update,
  zero, ℕ, ◌%◌, ◌&&◌, ◌*◌, ◌+◌, ◌-◌, ◌/◌, ◌==◌, ◌^◌, ◌||◌, ◌∷◌,
}

-- struct x86_task, with the fields of its control block that the scheduler uses. `status` is the
-- word that the source reads from the task's stack, `has_ctl` whether the control block is there.
pub record Task : Type 0 where
  pub flag : ℕ
  pub wait_type : ℕ
  pub has_ctl : Bool
  pub pid : ℕ
  pub sleep_deadline : ℕ
  pub pending_signal : ℕ
  pub next : ℕ

abbrev pub flg_running : ℕ
flg_running = 1

abbrev pub flg_stop : ℕ
flg_stop = 2

abbrev pub flg_wait : ℕ
flg_wait = 4

abbrev pub flg_busy : ℕ
flg_busy = 8

abbrev pub wait_sleep : ℕ
wait_sleep = 1

abbrev pub wait_pid : ℕ
wait_pid = 2

-- The scheduler's variables; `destroyed` has the addresses given to task_destroy, newest first.
pub record Sched : Type 0 where
  pub task_at : ℕ → Task
  pub first : ℕ
  pub last : ℕ
  pub current : ℕ
  pub idle : ℕ
  pub last_pid : ℕ
  pub entry : Bool
  pub destroyed : List ℕ

-- `flag &= ~bit` and `flag |= bit`, of a flag that is one bit.
unfoldable pub clear_flag : ℕ → Task → Task
clear_flag bit t = if has_flag t.flag bit then record t { flag = t.flag - bit } else t

unfoldable pub set_flag : ℕ → Task → Task
set_flag bit t = record t { flag = bit_or t.flag bit }

unfoldable pub write : ℕ → Task → Sched → Sched
write a t s = record s { task_at = update s.task_at a t }

-- task_busy and task_nobusy
unfoldable pub task_busy : ℕ → Sched → Sched
unfolding write set_flag
task_busy a s = write a (set_flag flg_busy (s.task_at a)) s

unfoldable pub task_nobusy : ℕ → Sched → Sched
unfolding write clear_flag
task_nobusy a s = write a (clear_flag flg_busy (s.task_at a)) s

-- The loop of task_by_pid from `a` on, on fuel that exceeds the tasks' number.
by_pid_from : ℕ → (ℕ → Task) → ℕ → ℕ → ℕ
by_pid_from zero mem n a = 0
by_pid_from (suc k) mem n a =
    let rest = by_pid_from k mem n (mem a).next in
    if a == 0
    then 0
    else if (mem a).has_ctl
    then (if (mem a).pid == n then a else rest)
    else if n == 0
    then a
    else rest

-- task_by_pid
unfoldable pub task_by_pid : ℕ → Sched → ℕ → ℕ
unfolding by_pid_from
task_by_pid fuel s n = by_pid_from fuel s.task_at n s.first

-- task_enable
unfoldable pub task_enable : ℕ → Sched → Sched
unfolding write
task_enable a s =
    let n = s.last_pid + 1 in
    let s1 = write a (record (s.task_at a) { pid = n; flag = 0 }) s in
    let s2 = write s1.last (record (s1.task_at s1.last) { next = a }) s1 in
    record s2 { last = a; last_pid = n }

-- What the first loop of x86_task_switch does to a task that waits, at the time `now`; `found` is
-- task_by_pid.
unfoldable pub wake : ℕ → (ℕ → ℕ) → Task → Task
unfolding clear_flag
wake now found t =
    if not (has_flag t.flag flg_wait)
    then t
    else if t.wait_type == wait_sleep
    then (if leb t.sleep_deadline now then clear_flag flg_wait t else t)
    else if t.wait_type == wait_pid && (found (t.sleep_deadline % 2 ^ 32) == 0)
    then clear_flag flg_wait (record t { sleep_deadline = 0 })
    else t

-- A stopped task `a` behind `prev` is taken out and destroyed; `none` is the failed assertion or the
-- panic for the root process.
pub reap : ℕ → ℕ → Sched → Option Sched
unfolding write
reap prev a s =
    let s1 = write prev (record (s.task_at prev) { next = (s.task_at a).next }) s in
    if prev == 0 || (s.task_at a).pid == 1
    then none
    else some
        (record s1 { last = if a == s.last then prev else s.last; destroyed = a ∷ s.destroyed })

-- One round of the first loop: the new state and the new `tp`.
pub visit : ℕ → ℕ → ℕ → ℕ → Sched → Option (Sched × ℕ)
visit fuel now prev a s =
    if a == s.idle
    then some (s, a)
    else if has_flag (s.task_at a).flag flg_stop
    then elim (reap prev a s) [ none ↦ none | some s' ↦ some (s', prev) ]
    else some (write a (wake now (task_by_pid fuel s) (s.task_at a)) s, a)

-- The first loop from the task `a` on.
pub refresh : ℕ → ℕ → ℕ → ℕ → Sched → Option Sched
refresh zero now prev a s = none
refresh (suc k) now prev a s =
    let next_round : Option Sched = elim (visit (suc k) now prev a s) [
      | none ↦ none
      | some (s', prev') ↦ refresh k now prev' (s'.task_at a).next s'
    ] in
    if a == 0 then some s else next_round

-- `flag & TASK_FLG_WAIT` or `flag & TASK_FLG_BUSY`
unfoldable pub blocked : Task → Bool
blocked t = has_flag t.flag flg_wait || has_flag t.flag flg_busy

-- The task behind `a`, round to the first.
abbrev pub successor : (ℕ → Task) → ℕ → ℕ → ℕ
successor mem top a = if (mem a).next == 0 then top else (mem a).next

-- The second loop of x86_task_switch: the task at which it stops, of those behind `a`; `from` is the
-- task that was current. `none` is the end of the fuel.
unfoldable pub select : ℕ → (ℕ → Task) → ℕ → ℕ → ℕ → Option ℕ
unfolding blocked
select zero mem top from a = none
select (suc k) mem top from a =
    let b = successor mem top a in
    let rest = select k mem top from b in
    if blocked (mem b) then (if b == from then some b else rest) else some b

-- The task that x86_task_switch makes current.
unfoldable pub choose : ℕ → Sched → Option ℕ
unfolding select blocked
choose fuel s = elim (select fuel s.task_at s.first s.current s.current) [
  | none ↦ none
  | some b ↦ some (if b == s.current && blocked (s.task_at b) then s.idle else b)
]

-- x86_task_switch at the time `now`, on fuel that exceeds the number of tasks.
unfoldable pub task_switch : ℕ → ℕ → Sched → Option Sched
unfolding write clear_flag set_flag choose select blocked refresh visit reap wake by_pid_from
    task_by_pid
task_switch fuel now s =
    if s.entry then some (record s { entry = false }) else elim (refresh fuel now 0 s.first s) [
      | none ↦ none
      | some s1 ↦
          let s2 = write s1.current (clear_flag flg_running (s1.task_at s1.current)) s1 in
          elim (choose fuel s2) [
            | none ↦ none
            | some b ↦
                some (record (write b (set_flag flg_running (s2.task_at b)) s2) { current = b })
          ]
    ]

-- task_set_sleep, with SYSTICK_DES_RES as `res`.
unfoldable pub task_set_sleep : ℕ → ℕ → ℕ → ℕ → Task → Task
task_set_sleep res now sec nsec t = record t {
  sleep_deadline = (sec * res + nsec * (1000000 / res) + now) % 2 ^ 64;
}
