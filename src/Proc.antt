-- ===== src/Proc.antt =====
-- Processes: the register images and stacks of tasks, arch/x86/task/task.c, and signals. The
-- scheduler's part of a task is that of Task, its address space that of Mm. Addresses that
-- heap_alloc returns are handed over by the caller; a failed assertion is `none`.
use ygg_kernel.Base.{
  List, Option, [], add32, has_flag, if◌then◌else◌, none, some, sub32, update, ℕ, ◌%◌, ◌*◌, ◌++◌,
  ◌+◌, ◌/◌, ◌==◌, ◌^◌, ◌∷◌,
}
use ygg_kernel.Mm.Map.{map_range, translate}
use ygg_kernel.Mm.Phys.{naddr}
use ygg_kernel.Mm.Pool.{MmState}
use ygg_kernel.Mm.Space.{create_space, flg_clone_kernel, space_clone}
use ygg_kernel.Mm.User.{kernel_to_user}
use ygg_kernel.Task.{Sched}
pub mod Fork
pub mod Child
pub mod Signals
pub mod Tests

-- x86_gp_regs_t
pub record GpRegs : Type 0 where
  pub edi : ℕ
  pub esi : ℕ
  pub ebp : ℕ
  pub oesp : ℕ
  pub ebx : ℕ
  pub edx : ℕ
  pub ecx : ℕ
  pub eax : ℕ

-- x86_iret_regs_t
pub record IretRegs : Type 0 where
  pub eip : ℕ
  pub cs : ℕ
  pub eflags : ℕ
  pub esp : ℕ
  pub ss : ℕ

-- struct x86_task_context; the four segment registers are always set together.
pub record Context : Type 0 where
  pub segs : ℕ
  pub cr3 : ℕ
  pub gp : GpRegs
  pub iret : IretRegs

abbrev pub no_regs : GpRegs
no_regs = record { edi = 0; esi = 0; ebp = 0; oesp = 0; ebx = 0; edx = 0; ecx = 0; eax = 0 }

abbrev pub no_context : Context
no_context = record {
  segs = 0;
  cr3 = 0;
  gp = no_regs;
  iret = record { eip = 0; cs = 0; eflags = 0; esp = 0; ss = 0 };
}

-- The fields of struct x86_task and of its control block that Task does not have.
pub record Process : Type 0 where
  pub esp0 : ℕ
  pub ebp0 : ℕ
  pub esp3_bottom : ℕ
  pub esp3_size : ℕ
  pub sigeip : ℕ
  pub sigesp : ℕ
  pub pd : ℕ
  pub sigctx : ℕ
  pub fds : ℕ → ℕ

-- Processes and contexts by address, the field `task` of files, and what was given to heap_free and
-- to vfs_close, newest first.
pub record Kernel : Type 0 where
  pub sched : Sched
  pub mm : MmState
  pub process_at : ℕ → Process
  pub context_at : ℕ → Context
  pub file_task : ℕ → ℕ
  pub freed : List ℕ
  pub closed : List ℕ

abbrev pub set_process : ℕ → Process → Kernel → Kernel
set_process a p s = record s { process_at = update s.process_at a p }

abbrev pub set_context_at : ℕ → Context → Kernel → Kernel
set_context_at a c s = record s { context_at = update s.context_at a c }

-- Bytes of a context and its stack.
abbrev pub stack_size : ℕ
stack_size = 19 * 4

abbrev pub flg_idle : ℕ
flg_idle = 2

abbrev pub flg_nogp : ℕ
flg_nogp = 4

abbrev pub flg_noent : ℕ
flg_noent = 8

abbrev pub flg_noesp3 : ℕ
flg_noesp3 = 16

abbrev pub flg_nosigctx : ℕ
flg_nosigctx = 32

-- MM_FLG_US | MM_FLG_WR
abbrev pub stack_access : ℕ
stack_access = 6

-- A `uint32_t` as its bytes.
abbrev pub word_bytes : ℕ → List ℕ
word_bytes n = n % 2 ^ 8 ∷ n / 2 ^ 8 % 2 ^ 8 ∷ n / 2 ^ 16 % 2 ^ 8 ∷ n / 2 ^ 24 % 2 ^ 8 ∷ []

-- x86_task_set_context, the kernel stack, at `stack`. The assertion on the end of the stack does
-- not see that heap_alloc returned NULL.
unfoldable pub kernel_stack : ℕ → ℕ → Kernel → Option Kernel
kernel_stack stack a s =
    let p = record (s.process_at a) { sigesp = 0; sigeip = 0 } in
    let top = add32 stack stack_size in
    let fresh = record p { ebp0 = top; esp0 = sub32 top stack_size } in
    if p.esp0 == 0
    then (if top == 0
        then none
        else some (set_process a fresh (set_context_at fresh.esp0 no_context s)))
    else some (set_process a p s)

-- x86_task_set_context, the context of signal handlers, at `sig`.
unfoldable pub signal_stack : ℕ → ℕ → ℕ → Kernel → Option Kernel
signal_stack sig flags a s =
    if has_flag flags (flg_nosigctx + flg_idle)
    then some s
    else if sig == 0
    then none
    else some (set_process a (record (s.process_at a) { sigctx = sig }) s)

-- x86_task_set_context, a new address space.
unfoldable pub new_space : ℕ → Kernel → Option Kernel
new_space a s = elim (create_space s.mm) [
  | none ↦ none
  | some (pd, phys, mm) ↦ elim (space_clone pd mm.kernel flg_clone_kernel mm) [
    | none ↦ none
    | some mm' ↦
        let p = record (s.process_at a) { pd = pd } in
        let c = record (s.context_at p.esp0) { cr3 = phys } in
        some (set_process a p (set_context_at p.esp0 c (record s { mm = mm' })))
  ]
]

-- x86_task_set_context, an address space that is there.
unfoldable pub old_space : ℕ → Kernel → Option Kernel
old_space a s =
    let p = s.process_at a in
    let c = s.context_at p.esp0 in
    elim (translate s.mm.kernel p.pd s.mm) [
      | none ↦ none
      | some (phys, access) ↦
          if phys == naddr
          then none
          else some (if c.cr3 == 0 then set_context_at p.esp0 (record c { cr3 = phys }) s else s)
    ]

unfoldable pub with_space : ℕ → Kernel → Option Kernel
with_space a s = if (s.process_at a).pd == 0 then new_space a s else old_space a s

-- x86_task_set_context, general registers and entry.
unfoldable pub set_entry : ℕ → ℕ → Context → Context
set_entry entry flags c =
    let cleared = if has_flag flags flg_nogp then c else record c { gp = no_regs } in
    let cs = if has_flag flags flg_idle then 0x08 else 0x1B in
    let entered =
      if has_flag flags flg_noent
      then cleared
      else record cleared { iret = record (cleared.iret) { cs = cs; eip = entry } } in
    record entered { iret = record (entered.iret) { eflags = 0x248 } }

-- x86_task_set_context, the user stack: eight words below its end stands the argument.
unfoldable pub user_stack : ℕ → ℕ → Kernel → Option Kernel
user_stack arg a s =
    let p = s.process_at a in
    let size = if p.esp3_size == 0 then 8 else p.esp3_size in
    let made =
      if p.esp3_bottom == 0 then record p { esp3_bottom = 0x80000000; esp3_size = size } else p in
    let mapped : Option MmState =
      if p.esp3_bottom == 0 then map_range p.pd 0x80000000 size stack_access s.mm else some s.mm in
    elim mapped [
      | none ↦ none
      | some mm ↦
          let esp3 = sub32 (add32 made.esp3_bottom (made.esp3_size * 0x1000)) 32 in
          elim (kernel_to_user p.pd esp3 (word_bytes arg ++ word_bytes 0x12345678) 8 mm) [
            | none ↦ none
            | some mm' ↦
                let c = s.context_at p.esp0 in
                let iret = record (c.iret) { ss = 0x23; esp = esp3 } in
                some (
                  set_process a made
                    (set_context_at p.esp0 (record c { iret = iret }) (record s { mm = mm' })))
          ]
    ]

-- x86_task_set_context, from the registers on.
unfoldable pub fill_context : ℕ → ℕ → ℕ → ℕ → Kernel → Option Kernel
fill_context entry arg flags a s =
    let at = (s.process_at a).esp0 in
    let entered = set_context_at at (set_entry entry flags (s.context_at at)) s in
    let stacked : Option Kernel =
      if has_flag flags (flg_noesp3 + flg_idle) then some entered else user_stack arg a entered in
    let selector = if has_flag flags flg_idle then 0x10 else 0x23 in
    elim stacked [
      | none ↦ none
      | some t ↦ some (set_context_at at (record (t.context_at at) { segs = selector }) t)
    ]

-- x86_task_set_context
unfoldable pub set_context : ℕ → ℕ → ℕ → ℕ → ℕ → ℕ → Kernel → Option Kernel
set_context stack sig entry arg flags a s = elim (kernel_stack stack a s) [
  | none ↦ none
  | some s1 ↦ elim (signal_stack sig flags a s1) [
    | none ↦ none
    | some s2 ↦ elim (with_space a s2) [ none ↦ none | some s3 ↦ fill_context entry arg flags a s3 ]
  ]
]
