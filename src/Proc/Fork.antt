-- ===== src/Proc/Fork.antt =====
-- Making and destroying processes: arch/x86/task/fork.c, and task_create, task_destroy and
-- x86_task_init of arch/x86/task/task.c. Which page directory the processor uses is not part of the
-- model, nor are the assertions on it.
use ygg_kernel.Base.{
  List, Option, add32, false, if◌then◌else◌, none, some, suc, true, update, zero, ℕ, ◌+◌, ◌-◌, ◌==◌,
  ◌^◌, ◌||◌, ◌∷◌,
}
use ygg_kernel.Mm.Fork.{space_fork}
use ygg_kernel.Mm.Phys.{naddr}
use ygg_kernel.Mm.Pool.{MmState}
use ygg_kernel.Mm.Space.{create_space, destroy_space, flg_clone_kernel, flg_clone_user, space_clone}
use ygg_kernel.Proc.{
  Kernel, flg_idle, flg_noesp3, no_regs, set_context, set_context_at, set_process, stack_size,
}
use ygg_kernel.Sys.Elf.{Elf, elf_load}
use ygg_kernel.Task.{task_enable, write}

-- -ENOENT
abbrev pub minus_enoent : ℕ
minus_enoent = 2 ^ 32 - 2

-- task_create, at the address `a`. Only the first word, esp0, is cleared of the task, and the whole
-- control block.
unfoldable pub task_create : ℕ → Kernel → Kernel
task_create a s =
    let t = s.sched.task_at a in
    let task = record t {
      has_ctl = true;
      pid = 0;
      sleep_deadline = 0;
      pending_signal = 0;
      next = 0;
    } in
    let p = record (s.process_at a) { esp0 = 0; sigctx = 0; fds = λ i. 0 } in
    set_process a p (record s { sched = write a task s.sched })

-- The two opened files of the terminal, as descriptors 0 and 1; 0 is NULL.
unfoldable pub open_terminal : ℕ → ℕ → ℕ → Kernel → Option Kernel
open_terminal wr rd a s =
    let p = s.process_at a in
    let fds = update (update p.fds 0 wr) 1 rd in
    if wr == 0 || rd == 0
    then none
    else some (
        set_process a (record p { fds = fds })
          (record s { file_task = update (update s.file_task wr a) rd a }))

-- task_fork, behind the copy of the address space: the new task at `a`, its stack at `ctx`, the
-- files of the terminal, the space and its physical address.
unfoldable pub fork_task : ℕ → ℕ → ℕ → ℕ → ℕ → ℕ → ℕ → Kernel → Option Kernel
fork_task a ctx wr rd src pd phys s =
    let created = task_create a s in
    let p = created.process_at a in
    let from = (s.process_at src).esp0 in
    let dst = record p {
      pd = pd;
      esp0 = ctx;
      ebp0 = add32 ctx stack_size;
      esp3_bottom = 0x80000000;
      esp3_size = 4;
    } in
    if from == 0 || ctx == 0
    then none
    else elim (open_terminal wr rd a (set_process a dst created)) [
      | none ↦ none
      | some t ↦
          let c = t.context_at from in
          let copy = record c { gp = record (c.gp) { eax = 0 }; cr3 = phys } in
          let u = set_context_at ctx copy t in some (record u { sched = task_enable a u.sched })
    ]

-- task_fork
unfoldable pub task_fork : ℕ → ℕ → ℕ → ℕ → ℕ → Kernel → Option Kernel
task_fork a ctx wr rd src s =
    let src_pd = (s.process_at src).pd in
    let made : Option (ℕ × ℕ × MmState) = if src_pd == 0 then none else create_space s.mm in
    elim made [
      | none ↦ none
      | some (pd, phys, mm) ↦
          if pd == 0
          then none
          else elim (space_fork pd src_pd (flg_clone_kernel + flg_clone_user) mm) [
            | none ↦ none
            | some mm' ↦ fork_task a ctx wr rd src pd phys (record s { mm = mm' })
          ]
    ]

-- task_execve, of the program that vfs_getm found; the value that is returned.
unfoldable pub task_execve : ℕ → ℕ → Option Elf → ℕ → Kernel → Option (ℕ × Kernel)
task_execve stack sig file a s =
    let p = s.process_at a in
    if p.esp0 == 0 || p.pd == 0 then none else elim file [
      | none ↦ some (minus_enoent, s)
      | some program ↦ elim (elf_load p.pd program s.mm) [
        | none ↦ none
        | some (entry, mm) ↦
            let c = record (s.context_at p.esp0) { gp = no_regs } in
            let cleared = set_context_at p.esp0 c (record s { mm = mm }) in
            if entry == naddr then none else elim (set_context stack sig entry 0 0 a cleared) [
              | none ↦ none
              | some t ↦ some (0, t)
            ]
      ]
    ]

-- task_fexecve, behind the loading of the program.
unfoldable pub start_task : ℕ → ℕ → ℕ → ℕ → ℕ → ℕ → ℕ → Kernel → Option Kernel
start_task stack sig wr rd a pd entry s =
    let created = task_create a s in
    let p = record (created.process_at a) { pd = pd; esp3_bottom = 0; esp3_size = 4 } in
    elim (open_terminal wr rd a (set_process a p created)) [
      | none ↦ none
      | some t ↦ elim (set_context stack sig entry 0 0 a t) [
        | none ↦ none
        | some u ↦ some (record u { sched = task_enable a u.sched })
      ]
    ]

-- task_fexecve
unfoldable pub task_fexecve : ℕ → ℕ → ℕ → ℕ → Option Elf → ℕ → Kernel → Option Kernel
task_fexecve stack sig wr rd none a s = none
task_fexecve stack sig wr rd (some program) a s = elim (create_space s.mm) [
  | none ↦ none
  | some (pd, phys, mm) ↦
      let cloned : Option MmState =
        if pd == 0 then none else space_clone pd mm.kernel flg_clone_kernel mm in
      elim cloned [
        | none ↦ none
        | some mm1 ↦ elim (elf_load pd program mm1) [
          | none ↦ none
          | some (entry, mm2) ↦
              if entry == naddr
              then none
              else start_task stack sig wr rd a pd entry (record s { mm = mm2 })
        ]
      ]
]

-- The descriptors that task_destroy closes, from `i` on.
unfoldable pub close_files : ℕ → ℕ → (ℕ → ℕ) → List ℕ → List ℕ
close_files zero i fds closed = closed
close_files (suc n) i fds closed =
    close_files n (i + 1) fds (if fds i == 0 then closed else fds i ∷ closed)

-- task_destroy; the control block is freed with the task, under the same address.
unfoldable pub task_destroy : ℕ → Kernel → Option Kernel
task_destroy a s =
    let p = s.process_at a in
    elim (destroy_space p.pd s.mm) [
      | none ↦ none
      | some mm ↦ some (record s {
        mm = mm;
        closed = close_files 4 0 p.fds s.closed;
        freed = a ∷ p.esp0 ∷ s.freed;
      })
    ]

-- x86_task_init, with the idle task at `a`, its stack at `stack` and its function.
unfoldable pub task_init : ℕ → ℕ → ℕ → Kernel → Option Kernel
task_init a stack function s =
    let t = record (s.sched.task_at a) { flag = 0; has_ctl = false; next = 0 } in
    let p = record (s.process_at a) {
      ebp0 = add32 stack stack_size;
      esp0 = stack;
      esp3_size = 0;
      esp3_bottom = 0;
      pd = s.mm.kernel;
    } in
    elim (set_context 0 0 function 0 (flg_idle + flg_noesp3) a
      (set_process a p (record s { sched = write a t s.sched }))) [
        | none ↦ none
        | some u ↦
            some
              (record u { sched = record (u.sched) { current = a; first = a; last = a; idle = a } })
      ]
