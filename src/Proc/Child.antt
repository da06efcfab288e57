-- ===== src/Proc/Child.antt =====
-- What task_fork makes of a process: the child beside its parent, arch/x86/task/fork.c.
use ygg_kernel.Base.{
  add32, ap, arith, false, refl, some, update, update-eq, update-ne, ℕ, ◌+◌, ◌==◌, ◌∙◌, ◌≡◌, ◌≢◌,
}
use ygg_kernel.Proc.{Context, Kernel, Process, set_context_at, set_process, stack_size}
use ygg_kernel.Proc.Fork.{fork_task, open_terminal, task_create}
use ygg_kernel.Task.{Sched, Task, task_enable, write}

-- The context of a child, from its parent's.
abbrev pub child_context : ℕ → Context → Context
child_context phys c = record c { gp = record (c.gp) { eax = 0 }; cr3 = phys }

task_enable-last :
    (a : ℕ) (s : Sched)
    → s.last ≢ a
    → ((task_enable a s).last ≡ a)
      × (((task_enable a s).task_at a).pid ≡ s.last_pid + 1)
      × (((task_enable a s).task_at a).flag ≡ 0)
      × (((task_enable a s).task_at s.last).next ≡ a)
unfolding task_enable write
task_enable-last a s h =
    let t : Task = record (s.task_at a) { pid = s.last_pid + 1; flag = 0 } in
    let first = update s.task_at a t in
    let linked : Task = record (first s.last) { next = a } in
    let at : update first s.last linked a ≡ t =
      update-ne first s.last linked a h ∙ update-eq s.task_at a t in
    (
      refl,
      ap (λ (u : Task). u.pid) at,
      ap (λ (u : Task). u.flag) at,
      ap (λ (u : Task). u.next) (update-eq first s.last linked),
    )

-- Where the parent runs, and what heap_alloc and vfs_open have returned for its child.
abbrev pub CanFork : ℕ → ℕ → ℕ → ℕ → ℕ → Kernel → Type 0
CanFork a ctx wr rd src s =
    ((s.process_at src).esp0 ≢ 0)
    × (ctx ≢ 0)
    × (wr ≢ 0)
    × (rd ≢ 0)
    × (a ≢ src)
    × (ctx ≢ (s.process_at src).esp0)
    × (s.sched.last ≢ a)

-- When its memory and its files are there and apart from the parent's, the child that task_fork
-- makes starts where its parent is, with all of its registers but eax, which is 0, in the new
-- address space and with its own kernel stack and the two terminal files; the parent and its
-- context are unchanged; and the child becomes the last task of the scheduler, ready to run, with
-- the next identifier.
pub fork_task-child :
    (a ctx wr rd src pd phys : ℕ) (s : Kernel)
    → CanFork a ctx wr rd src s
    → (u : Kernel) × (fork_task a ctx wr rd src pd phys s ≡ some u)
      × ((u.process_at a).esp0 ≡ ctx)
      × ((u.process_at a).pd ≡ pd)
      × ((u.process_at a).fds 0 ≡ wr)
      × ((u.process_at a).fds 1 ≡ rd)
      × (u.context_at ctx ≡ child_context phys (s.context_at (s.process_at src).esp0))
      × (u.context_at (s.process_at src).esp0 ≡ s.context_at (s.process_at src).esp0)
      × (u.process_at src ≡ s.process_at src)
      × (u.sched.last ≡ a)
      × ((u.sched.task_at a).pid ≡ s.sched.last_pid + 1)
      × ((u.sched.task_at a).flag ≡ 0)
      × ((u.sched.task_at s.sched.last).next ≡ a)
unfolding fork_task open_terminal task_create write
fork_task-child a ctx wr rd src pd phys s (h_from, h_ctx, h_wr, h_rd, h_src, h_at, h_last) =
    let from = (s.process_at src).esp0 in
    let there : (from == 0) ≡ false = ground (arith, h_from) in
    let stack : (ctx == 0) ≡ false = ground (arith, h_ctx) in
    let out : (wr == 0) ≡ false = ground (arith, h_wr) in
    let into : (rd == 0) ≡ false = ground (arith, h_rd) in
    let created = task_create a s in
    let p : Process = record (s.process_at a) { esp0 = 0; sigctx = 0; fds = λ i. 0 } in
    let dst : Process = record (created.process_at a) {
      pd = pd;
      esp0 = ctx;
      ebp0 = add32 ctx stack_size;
      esp3_bottom = 0x80000000;
      esp3_size = 4;
    } in
    let mid = set_process a dst created in
    let q : Process = record (mid.process_at a) {
      fds = update (update (mid.process_at a).fds 0 wr) 1 rd;
    } in
    let t : Kernel =
      set_process a q (record mid { file_task = update (update mid.file_task wr a) rd a }) in
    let copy = child_context phys (s.context_at from) in
    let u = set_context_at ctx copy t in
    let end : Kernel = record u { sched = task_enable a u.sched } in
    let run : fork_task a ctx wr rd src pd phys s ≡ some end = rw (there, stack, out, into) refl in
    let own : end.process_at a ≡ q = update-eq mid.process_at a q in
    let placed : mid.process_at a ≡ dst = update-eq created.process_at a dst in
    let enabled = task_enable-last a u.sched h_last in
    let first = update (mid.process_at a).fds 0 wr in
    (
      end,
      run,
      ap (λ (x : Process). x.esp0) own ∙ ap (λ (x : Process). x.esp0) placed,
      ap (λ (x : Process). x.pd) own ∙ ap (λ (x : Process). x.pd) placed,
      ap (λ (x : Process). x.fds 0) own ∙ refl,
      ap (λ (x : Process). x.fds 1) own ∙ update-eq first 1 rd,
      update-eq t.context_at ctx copy,
      update-ne t.context_at ctx copy from h_at,
      update-ne mid.process_at a q src h_src
          ∙ update-ne created.process_at a dst src h_src
          ∙ update-ne s.process_at a p src h_src,
      enabled.0,
      enabled.1,
      enabled.2,
      enabled.3,
    )
