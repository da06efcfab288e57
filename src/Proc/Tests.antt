-- ===== src/Proc/Tests.antt =====
-- A parent at 32 on its own stack, and instances of the theorems on processes.
use ygg_kernel.Base.{[], arith, false, refl, some, true, ◌+◌, ◌-◌, ◌^◌, ◌≡◌}
use ygg_kernel.Mm.Pool.{MmState}
use ygg_kernel.Proc.{Kernel, Process, no_context}
use ygg_kernel.Proc.Child.{CanFork, child_context, fork_task-child}
use ygg_kernel.Proc.Fork.{fork_task}
use ygg_kernel.Proc.Signals.{break_wait}
use ygg_kernel.Task.{Task}

abbrev mm0 : MmState
mm0 = record {
  words = λ page i. 0;
  ram = λ b. 0;
  phys = record { bitmap = λ i j. false; alloc_last = 0; page_count = 0 };
  pools = λ i. record { bitmap = λ k j. false; index_last = 0; vaddr = 0; paddr = 0 };
  kernel = 0;
}

-- A task that waits, with signal 6 pending.
abbrev waiting : Task
waiting = record {
  flag = 4;
  wait_type = 1;
  has_ctl = true;
  pid = 1;
  sleep_deadline = 100;
  pending_signal = 6;
  next = 0;
}

abbrev parent : Process
parent = record {
  esp0 = 0x1000;
  ebp0 = 0x104C;
  esp3_bottom = 0x80000000;
  esp3_size = 4;
  sigeip = 0x400000;
  sigesp = 0x500000;
  pd = 0x3000;
  sigctx = 0x2000;
  fds = λ i. 0;
}

abbrev kernel0 : Kernel
kernel0 = record {
  sched = record {
    task_at = λ a. waiting;
    first = 16;
    last = 32;
    current = 32;
    idle = 16;
    last_pid = 1;
    entry = false;
    destroyed = [];
  };
  mm = mm0;
  process_at = λ a. parent;
  context_at = λ a. record no_context { cr3 = 0x7000 };
  file_task = λ f. 0;
  freed = [];
  closed = [];
}

kernel0-CanFork : CanFork 48 0x6000 0x8000 0x9000 32 kernel0
kernel0-CanFork =
    (omega arith, omega arith, omega arith, omega arith, omega arith, omega arith, omega arith)

-- The wait that the signal broke off.
broken_wait : ((break_wait 32 kernel0).context_at 0x1000).gp.eax ≡ 2 ^ 32 - 1
unfolding break_wait
broken_wait = refl

fork_task-child_example :
    (u : Kernel) × (fork_task 48 0x6000 0x8000 0x9000 32 0x5000 0xA000 kernel0 ≡ some u)
    × ((u.process_at 48).esp0 ≡ 0x6000)
    × ((u.process_at 48).pd ≡ 0x5000)
    × ((u.process_at 48).fds 0 ≡ 0x8000)
    × ((u.process_at 48).fds 1 ≡ 0x9000)
    × (u.context_at 0x6000 ≡ child_context 0xA000 (record no_context { cr3 = 0x7000 }))
    × (u.context_at 0x1000 ≡ record no_context { cr3 = 0x7000 })
    × (u.process_at 32 ≡ parent)
    × (u.sched.last ≡ 48)
    × ((u.sched.task_at 48).pid ≡ 1 + 1)
    × ((u.sched.task_at 48).flag ≡ 0)
    × ((u.sched.task_at 32).next ≡ 48)
fork_task-child_example =
    fork_task-child 48 0x6000 0x8000 0x9000 32 0x5000 0xA000 kernel0 kernel0-CanFork
