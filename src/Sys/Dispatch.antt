-- ===== src/Sys/Dispatch.antt =====
-- x86_syscall, which calls the function that a system call's number selects.
use ygg_kernel.Base.{Option, if◌then◌else◌, none, some, ℕ, ◌==◌}
use ygg_kernel.Sys.{Ops, Sys}
use ygg_kernel.Sys.Calls.{
  Regs, TaskOps, switch_away, sys_execve, sys_exit, sys_fexecve, sys_fork, sys_kill, sys_nanosleep,
  sys_signal, sys_sigreturn, sys_waitpid,
}
use ygg_kernel.Sys.Files.{sys_close, sys_open, sys_read, sys_write}
use ygg_kernel.Task.{task_busy}
use ygg_kernel.Vfs.{read_async}

abbrev pub nr_exit : ℕ
nr_exit = 0x01

abbrev pub nr_fork : ℕ
nr_fork = 0x02

abbrev pub nr_read : ℕ
nr_read = 0x03

abbrev pub nr_write : ℕ
nr_write = 0x04

abbrev pub nr_open : ℕ
nr_open = 0x05

abbrev pub nr_close : ℕ
nr_close = 0x06

abbrev pub nr_waitpid : ℕ
nr_waitpid = 0x07

abbrev pub nr_execve : ℕ
nr_execve = 0x0B

abbrev pub nr_fexecve : ℕ
nr_fexecve = 0x11

abbrev pub nr_getpid : ℕ
nr_getpid = 0x14

abbrev pub nr_kill : ℕ
nr_kill = 0x25

abbrev pub nr_nanosleep : ℕ
nr_nanosleep = 0xA2

abbrev pub nr_signal : ℕ
nr_signal = 0x30

abbrev pub nr_sigreturn : ℕ
nr_sigreturn = 0x77

module _ {F M : Type 0} (ops : Ops F M) (tasks : TaskOps F M) (fuel : ℕ) where
  -- The value for the register eax where the call sets it, and the state.
  abbrev pub Answer : Type 0
  Answer = Option (Option ℕ × Sys F M)

  abbrev answer : Option (ℕ × Sys F M) → Answer
  answer none = none
  answer (some (v, s)) = some (some v, s)

  abbrev silent : Option (Sys F M) → Answer
  silent none = none
  silent (some s) = some (none, s)

  -- SYSCALL_NR_EXIT
  unfoldable pub call_exit : Sys F M → Answer
  unfolding sys_exit switch_away
  call_exit s = silent (switch_away ops tasks fuel (sys_exit ops tasks fuel s))

  -- SYSCALL_NR_READ: a read that waits for an interrupt makes the task busy.
  unfoldable pub call_read : Regs → Sys F M → Answer
  unfolding sys_read switch_away task_busy
  call_read r s = elim (sys_read ops r.ebx r.ecx r.edx s) [
    | none ↦ none
    | some (res, s1) ↦
        let waiting = silent (
          switch_away ops tasks fuel (record s1 { sched = task_busy s1.sched.current s1.sched })) in
        if res == read_async then waiting else some (some res, s1)
  ]

  -- SYSCALL_NR_CLOSE, whose result is not handed over.
  unfoldable pub call_close : Regs → Sys F M → Answer
  unfolding sys_close
  call_close r s = some (none, (sys_close ops r.ebx s).1)

  -- SYSCALL_NR_GETPID
  unfoldable pub call_getpid : Sys F M → Answer
  call_getpid s =
      let t = s.sched.task_at s.sched.current in if t.has_ctl then some (some t.pid, s) else none

  -- x86_syscall; an unknown number is a panic.
  unfoldable pub syscall : Regs → Sys F M → Answer
  unfolding call_exit call_read call_close call_getpid
  syscall r s =
      if r.eax == nr_exit
      then call_exit s
      else if r.eax == nr_fork
      then answer (sys_fork ops tasks fuel s)
      else if r.eax == nr_open
      then answer (sys_open ops r.ebx r.ecx r.edx s)
      else if r.eax == nr_close
      then call_close r s
      else if r.eax == nr_read
      then call_read r s
      else if r.eax == nr_write
      then answer (sys_write ops r.ebx r.ecx r.edx s)
      else if r.eax == nr_waitpid
      then answer (sys_waitpid ops tasks fuel r.ebx r.ecx s)
      else if r.eax == nr_execve
      then answer (sys_execve ops tasks fuel r.ebx r.ecx r.edx s)
      else if r.eax == nr_fexecve
      then answer (sys_fexecve ops tasks fuel r.ebx r.ecx r.edx s)
      else if r.eax == nr_getpid
      then call_getpid s
      else if r.eax == nr_nanosleep
      then answer (sys_nanosleep ops tasks fuel r.ebx s)
      else if r.eax == nr_kill
      then answer (sys_kill ops tasks fuel r.ebx r.ecx s)
      else if r.eax == nr_signal
      then answer (sys_signal ops tasks fuel r.ebx r.ecx s)
      else if r.eax == nr_sigreturn
      then answer (sys_sigreturn ops tasks fuel s)
      else none
