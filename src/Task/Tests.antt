-- ===== src/Task/Tests.antt =====
-- The scheduler at concrete inputs: the idle task at 16, and tasks at 32 and 48.
use ygg_kernel.Base.{
  List, Option, [], false, if◌then◌else◌, none, not, refl, some, ℕ, ◌==◌, ◌∷◌, ◌≡◌,
}
use ygg_kernel.Task.{
  Sched, Task, blocked, by_pid_from, choose, clear_flag, flg_stop, flg_wait, reap, refresh, select,
  set_flag, task_by_pid, task_switch, visit, wait_sleep, wake, write,
}

abbrev made : ℕ → ℕ → ℕ → Task
made flag pid next = record {
  flag = flag;
  wait_type = wait_sleep;
  has_ctl = not (pid == 0);
  pid = pid;
  sleep_deadline = 100;
  pending_signal = 0;
  next = next;
}

abbrev three : ℕ → Task
three a = if a == 16 then made 1 0 32 else if a == 32 then made flg_wait 1 48 else made 0 2 0

abbrev sched : Sched
sched = record {
  task_at = three;
  first = 16;
  last = 48;
  current = 16;
  idle = 16;
  last_pid = 2;
  entry = false;
  destroyed = [];
}

chosen : choose 4 sched ≡ some 48
unfolding choose select blocked
chosen = refl

abbrev running : Option Sched → Option ℕ
running none = none
running (some s) = some s.current

-- Before its deadline the first task sleeps on, and the second one runs; after it, the first runs.
switch_tests :
    (running (task_switch 4 5 sched) ≡ some 48) × (running (task_switch 4 100 sched) ≡ some 32)
unfolding task_switch choose select blocked refresh visit reap write wake clear_flag set_flag
    by_pid_from task_by_pid
switch_tests = (refl, refl)

by_pid_test :
    (task_by_pid 4 sched 2 ≡ 48) × (task_by_pid 4 sched 0 ≡ 16) × (task_by_pid 4 sched 7 ≡ 0)
unfolding task_by_pid by_pid_from
by_pid_test = (refl, refl, refl)

-- The first task stopped, the idle task current.
abbrev ended : ℕ → Task
ended a = if a == 16 then made 1 0 32 else if a == 32 then made flg_stop 5 48 else made 0 2 0

abbrev ending : Sched
ending = record sched { task_at = ended }

-- The stopped task is destroyed, and the one behind it runs.
abbrev outcome : Option Sched → Option (ℕ × List ℕ)
outcome none = none
outcome (some s) = some (s.current, s.destroyed)

ending_test : outcome (task_switch 4 7 ending) ≡ some (48, 32 ∷ [])
unfolding task_switch choose select blocked refresh visit reap write wake clear_flag set_flag
    by_pid_from task_by_pid
ending_test = refl
