-- ===== src/Proc/Signals.antt =====
-- Entering and leaving the handler of a signal, x86_task_enter_signal and x86_task_exit_signal of
-- arch/x86/task/task.c.
use ygg_kernel.Base.{
  Bool, Option, false, has_flag, if◌then◌else◌, none, not, some, sub32, true, ℕ, ◌&&◌, ◌-◌, ◌==◌,
  ◌^◌, ◌||◌, ◌≡◌, ◌≢◌,
}
use ygg_kernel.Proc.{Context, Kernel, Process, no_regs, set_context_at, set_process, stack_size}
use ygg_kernel.Task.{Task, clear_flag, flg_wait, write}

-- The end of a sleep or wait that a signal breaks off: it returns -1.
unfoldable pub break_wait : ℕ → Kernel → Kernel
break_wait a s =
    let t = s.sched.task_at a in
    let at = (s.process_at a).esp0 in
    let c = s.context_at at in
    let failed = record c { gp = record (c.gp) { eax = 2 ^ 32 - 1 } } in
    if has_flag t.flag flg_wait
    then set_context_at at failed (record s { sched = write a (clear_flag flg_wait t) s.sched })
    else s

-- The context in which the handler of process `p` starts.
abbrev pub handler_context : ℕ → ℕ → Process → Context
handler_context signal cr3 p = record {
  segs = 0x23;
  cr3 = cr3;
  gp = record no_regs { edx = signal };
  iret = record { eip = p.sigeip; cs = 0x1B; eflags = 0x248; esp = p.sigesp; ss = 0x23 };
}

-- x86_task_enter_signal; `none` is the failed assertion, and the Boolean says whether there is a
-- handler.
unfoldable pub enter_signal : ℕ → Kernel → Option (Bool × Kernel)
enter_signal a s =
    let t = s.sched.task_at a in
    let p = s.process_at a in
    let broken = break_wait a s in
    let base = sub32 p.ebp0 stack_size in
    let handler = handler_context t.pending_signal (broken.context_at base).cr3 p in
    if a == 0 || not t.has_ctl
    then none
    else if not (p.sigctx == 0) && not (p.sigeip == 0)
    then some (
      true,
      set_process a (record p { esp0 = p.sigctx }) (set_context_at p.sigctx handler broken),
    )
    else some (false, s)

-- x86_task_exit_signal
unfoldable pub exit_signal : ℕ → Kernel → Option Kernel
exit_signal a s =
    let p = s.process_at a in
    if a == 0 || not (s.sched.task_at a).has_ctl || p.sigctx == 0
    then none
    else some (set_process a (record p { esp0 = sub32 p.ebp0 stack_size }) s)

-- A task with a handler, that runs on its own stack, apart from its signal context.
abbrev pub CanHandle : ℕ → Kernel → Type 0
CanHandle a s =
    (a ≢ 0)
    × ((s.sched.task_at a).has_ctl ≡ true)
    × ((s.process_at a).sigctx ≢ 0)
    × ((s.process_at a).sigeip ≢ 0)
    × ((s.process_at a).esp0 ≡ sub32 (s.process_at a).ebp0 stack_size)
    × ((s.process_at a).sigctx ≢ (s.process_at a).esp0)

-- A context that goes on with -1 as the result of its call.
abbrev pub failed_call : Context → Context
failed_call c = record c { gp = record (c.gp) { eax = 2 ^ 32 - 1 } }
