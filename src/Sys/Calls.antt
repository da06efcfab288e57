-- ===== src/Sys/Calls.antt =====
-- The system calls on tasks, and x86_syscall, which calls all of them.
use ygg_kernel.Base.{
  List, Option, get_or, if◌then◌else◌, ltb, none, not, some, ℕ, ◌&&◌, ◌*◌, ◌+◌, ◌-◌, ◌==◌, ◌^◌,
  ◌||◌,
}
use ygg_kernel.Sys.{Ops, Sys, path_size}
use ygg_kernel.Task.{
  Task, flg_stop, flg_wait, set_flag, task_by_pid, task_set_sleep, task_switch, wait_pid,
  wait_sleep, write,
}
use ygg_kernel.Vfs.{minus_one}

-- What the calls use of the creation of tasks and of signals, and the time: the number of ticks, and
-- SYSTICK_DES_RES.
pub record TaskOps (F M : Type 0) : Type 0 where
  pub task_fork : Sys F M → Option (ℕ × Sys F M)
  pub task_execve : ℕ → List ℕ → ℕ → ℕ → Sys F M → Option (ℕ × Sys F M)
  pub task_fexecve : List ℕ → ℕ → ℕ → Sys F M → Option (ℕ × Sys F M)
  pub enter_signal : ℕ → Sys F M → Option (Sys F M)
  pub exit_signal : ℕ → Sys F M → Option (Sys F M)
  pub set_handler : ℕ → ℕ → Sys F M → Option (Sys F M)
  pub time : ℕ
  pub resolution : ℕ

-- The registers of a call.
pub record Regs : Type 0 where
  pub eax : ℕ
  pub ebx : ℕ
  pub ecx : ℕ
  pub edx : ℕ

-- The little-endian 32-bit word at byte `i`.
unfoldable pub word_at : List ℕ → ℕ → ℕ
word_at l i =
    get_or l i 0
    + get_or l (i + 1) 0 * 2 ^ 8
    + get_or l (i + 2) 0 * 2 ^ 16
    + get_or l (i + 3) 0 * 2 ^ 24

-- The little-endian 64-bit word at byte `i`.
unfoldable pub long_at : List ℕ → ℕ → ℕ
unfolding word_at
long_at l i = word_at l i + word_at l (i + 4) * 2 ^ 32

abbrev pub timespec_size : ℕ
timespec_size = 16

module _ {F M : Type 0} (ops : Ops F M) (tasks : TaskOps F M) (fuel : ℕ) where
  abbrev current_task : Sys F M → Task
  current_task s = s.sched.task_at s.sched.current

  abbrev set_current : Task → Sys F M → Sys F M
  set_current t s = record s { sched = write s.sched.current t s.sched }

  -- x86_task_switch, called from a system call.
  unfoldable pub switch_away : Sys F M → Option (Sys F M)
  switch_away s = elim (task_switch fuel tasks.time s.sched) [
    | none ↦ none
    | some sched ↦ some (record s { sched = sched })
  ]

  -- sys_exit
  unfoldable pub sys_exit : Sys F M → Sys F M
  unfolding set_flag
  sys_exit s = set_current (set_flag flg_stop (current_task s)) s

  -- sys_fork: the identifier of the new task, whose address is the result of task_fork.
  unfoldable pub sys_fork : Sys F M → Option (ℕ × Sys F M)
  sys_fork s = elim (tasks.task_fork s) [
    | none ↦ none
    | some (task, s1) ↦ some (if task == 0 then minus_one else (s1.sched.task_at task).pid, s1)
  ]

  -- sys_waitpid; `pid` is a signed number that is widened to 64 bits.
  unfoldable pub sys_waitpid : ℕ → ℕ → Sys F M → Option (ℕ × Sys F M)
  unfolding switch_away
  sys_waitpid pid wstatus s =
      let wide = if ltb pid (2 ^ 31) then pid else 2 ^ 64 - 2 ^ 32 + pid in
      let t = record (current_task s) {
        flag = flg_wait;
        wait_type = wait_pid;
        sleep_deadline = wide;
      } in
      let switched : Option (ℕ × Sys F M) = elim (switch_away (set_current t s)) [
        | none ↦ none
        | some s1 ↦ some (0, s1)
      ] in
      if wstatus == 0 then switched else none

  -- sys_execve
  unfoldable pub sys_execve : ℕ → ℕ → ℕ → Sys F M → Option (ℕ × Sys F M)
  sys_execve path argp envp s =
      let called : Option (ℕ × Sys F M) =
        elim (ops.strncpy_user_to_kernel path path_size s.memory) [
          | none ↦ none
          | some (text, memory) ↦
              tasks.task_execve s.sched.current text argp envp (record s { memory = memory })
        ] in
      if argp == 0 || (envp == 0) then called else none

  -- sys_fexecve
  unfoldable pub sys_fexecve : ℕ → ℕ → ℕ → Sys F M → Option (ℕ × Sys F M)
  sys_fexecve path argp envp s =
      let called : Option (ℕ × Sys F M) =
        elim (ops.strncpy_user_to_kernel path path_size s.memory) [
          | none ↦ none
          | some (text, memory) ↦
              elim (tasks.task_fexecve text argp envp (record s { memory = memory })) [
                | none ↦ none
                | some (task, s1) ↦ some (if task == 0 then minus_one else 0, s1)
              ]
        ] in
      if argp == 0 || (envp == 0) then called else none

  -- The part of sys_nanosleep behind the copy of the time span.
  unfoldable pub sleep_for : ℕ → ℕ → Sys F M → Option (ℕ × Sys F M)
  unfolding switch_away set_flag task_set_sleep
  sleep_for sec nsec s =
      let t = task_set_sleep tasks.resolution tasks.time sec nsec (current_task s) in
      let t1 = record (set_flag flg_wait t) { wait_type = wait_sleep } in
      let switched : Option (ℕ × Sys F M) = elim (switch_away (set_current t1 s)) [
        | none ↦ none
        | some s1 ↦ some (0, s1)
      ] in
      if sec == 0 && (nsec == 0) then some (0, s) else switched

  -- sys_nanosleep
  unfoldable pub sys_nanosleep : ℕ → Sys F M → Option (ℕ × Sys F M)
  unfolding sleep_for long_at word_at
  sys_nanosleep ts s = elim (ops.user_to_kernel ts timespec_size s.memory) [
    | none ↦ none
    | some (bytes, memory) ↦
        sleep_for (long_at bytes 0) (long_at bytes 8) (record s { memory = memory })
  ]

  -- sys_kill
  unfoldable pub sys_kill : ℕ → ℕ → Sys F M → Option (ℕ × Sys F M)
  unfolding task_by_pid
  sys_kill pid sig s =
      let a = task_by_pid fuel s.sched pid in
      let t = record (s.sched.task_at a) { pending_signal = sig } in
      let signalled : Option (ℕ × Sys F M) =
        elim (tasks.enter_signal a (record s { sched = write a t s.sched })) [
          | none ↦ none
          | some s1 ↦ some (0, s1)
        ] in
      if pid == 0
      then none
      else if a == 0
      then some (minus_one, s)
      else if not (s.sched.task_at a).has_ctl
      then none
      else signalled

  -- sys_signal
  unfoldable pub sys_signal : ℕ → ℕ → Sys F M → Option (ℕ × Sys F M)
  sys_signal signum handler s =
      let done : Option (ℕ × Sys F M) = elim (tasks.set_handler s.sched.current handler s) [
        | none ↦ none
        | some s1 ↦ some (0, s1)
      ] in
      if not (signum == 0) || not (current_task s).has_ctl then none else done

  -- sys_sigreturn
  unfoldable pub sys_sigreturn : Sys F M → Option (ℕ × Sys F M)
  sys_sigreturn s =
      let t = record (current_task s) { pending_signal = 0 } in
      let done : Option (ℕ × Sys F M) = elim (tasks.exit_signal s.sched.current (set_current t s)) [
        | none ↦ none
        | some s1 ↦ some (0, s1)
      ] in
      if not (current_task s).has_ctl || ((current_task s).pending_signal == 0) then none else done
