-- ===== src/Task/Round.antt =====
-- x86_task_switch serves the tasks in turn.
use ygg_kernel.Base.{List, update, ℕ, ◌∷◌, ◌≡◌, ◌≤◌}
use ygg_kernel.Task.{Sched, Task, clear_flag, flg_running, set_flag, write}
use ygg_kernel.Task.Reap.{Ready}
use ygg_kernel.Task.Refresh.{Different, alive}
use ygg_kernel.Task.Select.{Links, Without, first_ready}
use ygg_kernel.Task.Switch.{behind_in}

-- The scheduler with the idle task first and the tasks `l` behind it, one of which is current and
-- goes on; the idle task is never waiting or busy.
pub record IsSched (s : Sched) (l : List ℕ) : Type 0 where
  pub first : s.first ≡ s.idle
  pub ready : Ready s s.idle l
  pub calm : (s.task_at s.idle).flag ≤ 1
  pub current : ¬ Without s.current (s.idle ∷ alive s.task_at l)

-- The task that is current stops running: the state in which the next one is chosen.
abbrev pub paused : Sched → Sched
paused t = record t {
  task_at = update t.task_at t.current (clear_flag flg_running (t.task_at t.current));
}

-- The list when the next task is chosen.
record Line (t : Sched) (l : List ℕ) (idle current : ℕ) : Type 0 where
  links : Links t.task_at idle l
  different : Different (idle ∷ l)
  inside : ¬ Without current (idle ∷ l)
  first : t.first ≡ idle
  calm : (t.task_at idle).flag ≤ 1

-- The choice that is meant.
abbrev turn : Sched → List ℕ → ℕ → ℕ → ℕ
turn t l idle current = first_ready t.task_at idle (behind_in current (idle ∷ l))

module _ (t : Sched) (l : List ℕ) (h : Line t l t.idle t.current) where
  abbrev back : List ℕ
  back = behind_in t.current (t.idle ∷ l)

-- The state in which x86_task_switch leaves the scheduler, the task `b` current.
abbrev pub resumed : ℕ → Sched → Sched
resumed b t = record (write b (set_flag flg_running ((paused t).task_at b)) (paused t)) {
  current = b;
}
