-- ===== src/Dev/Procfs.antt =====
-- src/dev/procfs.c: the nodes are linked by addresses; the directory lists the tasks, then the nodes.
pub mod Reads
use ygg_kernel.Base.{
  Bool, List, Option, [], drop, false, if◌then◌else◌, ltb, none, not, some, suc, take, true, update,
  zero, ℕ, ◌%◌, ◌+◌, ◌-◌, ◌/◌, ◌==◌, ◌^◌, ◌||◌, ◌∷◌,
}
use ygg_kernel.Dev.{Descriptor}
use ygg_kernel.Format.{debug_ds}
use ygg_kernel.Initrd.Directory.{Dirent, dt_dir, dt_reg}
use ygg_kernel.Task.{Sched}
use ygg_kernel.Text.{byte, strcmp, strcpy}
use ygg_kernel.Vfs.{minus_one}

-- struct procfs_node, with get_int
pub record ProcNode : Type 0 where
  pub next : ℕ
  pub name : List ℕ
  pub flags : ℕ
  pub node_data : ℕ
  pub get_int : ℕ → ℕ

pub record Procfs : Type 0 where
  pub node_at : ℕ → ProcNode
  pub node_first : ℕ
  pub node_last : ℕ

-- PROCFS_DIR_ROOT_PIDS, PROCFS_DIR_ROOT_NODES and PROCFS_DIR_ROOT_END
abbrev pub root_pids : ℕ
root_pids = 0

abbrev pub root_nodes : ℕ
root_nodes = 1

abbrev pub root_end : ℕ
root_end = 2

-- The loop over the path in procfs_open: the path has digits only, up to a slash.
unfoldable pub is_pid_path : List ℕ → Bool
is_pid_path [] = true
is_pid_path (c ∷ path) =
    let rest = is_pid_path path in
    if c == 0
    then true
    else if c == b'/'
    then true
    else if ltb c b'0' || ltb b'9' c
    then false
    else rest

-- procfs_opendir; below the root each lookup ends with -1.
unfoldable pub procfs_opendir : Sched → Descriptor → List ℕ → ℕ × Descriptor
procfs_opendir s dir path =
    if byte path == 0
    then (0, record dir { pos0 = root_pids; pos1 = s.first })
    else (minus_one, dir)

-- procfs_readdir among the tasks.
unfoldable pub read_pid : Procfs → Sched → Descriptor → Dirent → ℕ × Descriptor × Dirent
read_pid p s dir ent =
    let t = s.task_at dir.pos1 in
    let name = if t.has_ctl then debug_ds t.pid false false else b'0' ∷ [] in
    let dir1 =
      if not (t.next == 0)
      then record dir { pos1 = t.next }
      else if not (p.node_first == 0)
      then record dir { pos0 = root_nodes; pos1 = p.node_first }
      else record dir { pos0 = root_end } in
    (0, dir1, record { d_name = strcpy ent.d_name name; d_type = dt_dir })

-- procfs_readdir among the nodes.
unfoldable pub read_node : Procfs → Descriptor → Dirent → ℕ × Descriptor × Dirent
read_node p dir ent =
    let node = p.node_at dir.pos1 in
    let dir1 =
      if not (node.next == 0)
      then record dir { pos1 = node.next }
      else record dir { pos1 = 0; pos0 = root_end } in
    (0, dir1, record { d_name = strcpy ent.d_name node.name; d_type = dt_reg })

-- procfs_readdir; `none` is the failed assertion.
unfoldable pub procfs_readdir :
    Procfs → Sched → Descriptor → Dirent → Option (ℕ × Descriptor × Dirent)
unfolding read_pid read_node
procfs_readdir p s dir ent =
    if dir.pos0 == root_pids
    then (if dir.pos1 == 0 then none else some (read_pid p s dir ent))
    else if dir.pos0 == root_nodes
    then (if dir.pos1 == 0 then none else some (read_node p dir ent))
    else some (minus_one, dir, ent)

-- The loop of procfs_open, on fuel that exceeds the number of nodes.
unfoldable pub procfs_open_from : ℕ → Procfs → ℕ → Descriptor → List ℕ → ℕ × Descriptor
procfs_open_from zero p a f path = (minus_one, f)
procfs_open_from (suc k) p a f path =
    let node = p.node_at a in
    let rest = procfs_open_from k p node.next f path in
    if a == 0
    then (minus_one, f)
    else if strcmp node.name path == 0
    then (0, record f { fs_priv = a; pos0 = 0; pos1 = node.flags % 256 + 2 ^ 31 })
    else rest

-- procfs_open
unfoldable pub procfs_open : ℕ → Procfs → Descriptor → List ℕ → ℕ × Descriptor
unfolding procfs_open_from is_pid_path
procfs_open fuel p f path =
    if is_pid_path path then (minus_one, f) else procfs_open_from fuel p p.node_first f path

-- The four bytes of an int in memory.
unfoldable pub int_bytes : ℕ → List ℕ
int_bytes r = r % 256 ∷ r / 2 ^ 8 % 256 ∷ r / 2 ^ 16 % 256 ∷ r / 2 ^ 24 % 256 ∷ []

-- procfs_read of at most `lim` bytes: the bytes are those that are copied to the buffer. `none` is the
-- failed assertion, or a copy from behind the int.
unfoldable pub procfs_read : Procfs → Descriptor → ℕ → Option (ℕ × List ℕ × Descriptor)
unfolding int_bytes
procfs_read p f lim =
    let left = f.pos1 % 256 in
    let cnt = if ltb lim left then lim else left in
    let node = p.node_at f.fs_priv in
    if f.fs_priv == 0
    then none
    else if not (f.pos1 / 2 ^ 31 % 2 == 1)
    then some (minus_one, [], f)
    else if cnt == 0
    then some (minus_one, [], f)
    else if not (node.flags % 256 == 4)
    then some (minus_one, [], f)
    else if ltb 4 (f.pos0 + cnt)
    then none
    else some (
      cnt,
      take cnt (drop f.pos0 (int_bytes (node.get_int node.node_data))),
      record f { pos1 = f.pos1 - cnt; pos0 = f.pos0 + cnt },
    )

-- procfs_add_int, with the node that heap_alloc has given at `a`, or 0, to which nothing can be written.
unfoldable pub procfs_add_int : ℕ → List ℕ → (ℕ → ℕ) → ℕ → Procfs → Option Procfs
procfs_add_int a name get v p =
    let node : ProcNode = record {
      next = 0;
      name = strcpy (p.node_at a).name name;
      flags = 4;
      node_data = v;
      get_int = get;
    } in
    let p1 = record p { node_at = update p.node_at a node } in
    let p2 = record p1 {
      node_at = update p1.node_at p.node_last (record (p1.node_at p.node_last) { next = a });
    } in
    if a == 0
    then none
    else some (
        if p.node_last == 0
        then record p1 { node_first = a; node_last = a }
        else record p2 { node_last = a })

-- procfs_init, with the node at `a`.
unfoldable pub procfs_init : ℕ → Procfs → Option Procfs
unfolding procfs_add_int
procfs_init a p =
    procfs_add_int a (b't' ∷ b'e' ∷ b's' ∷ b't' ∷ []) (λ _. 1234) 0
      (record p { node_first = 0; node_last = 0 })
