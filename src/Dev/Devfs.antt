-- ===== src/Dev/Devfs.antt =====
-- src/dev/devfs.c: the nodes are linked by addresses, and the store gives the node at every address.
pub mod Nodes
pub mod Add
pub mod Listing
use ygg_kernel.Base.{
  List, Option, [], has_flag, if◌then◌else◌, none, not, some, suc, update, zero, ℕ, ◌&&◌, ◌==◌, ◌∷◌,
}
use ygg_kernel.Dev.{Descriptor, Device, dev_init, dev_open, flg_chr, pseudo_setup}
use ygg_kernel.Initrd.Directory.{Dirent}
use ygg_kernel.Text.{byte, strcmp, strcpy}
use ygg_kernel.Vfs.{minus_one}

-- struct devfs_node
pub record Node : Type 0 where
  pub dev : ℕ
  pub dev_param : ℕ
  pub name : List ℕ
  pub next : ℕ

-- struct devfs without its table of operations, and the devices.
pub record Devfs : Type 0 where
  pub node_at : ℕ → Node
  pub nodes : ℕ
  pub last : ℕ
  pub devices : ℕ → Device

abbrev pub fact_blkdev : ℕ
fact_blkdev = 2

abbrev pub dt_chr : ℕ
dt_chr = 2

abbrev pub dt_blk : ℕ
dt_blk = 6

-- The loop of devfs_open from the node at `a` on, on fuel that exceeds the number of nodes.
unfoldable pub devfs_open_from : ℕ → Devfs → ℕ → Descriptor → List ℕ → ℕ → Option (ℕ × Descriptor)
unfolding dev_open
devfs_open_from zero d a f path flags = none
devfs_open_from (suc k) d a f path flags =
    let node = d.node_at a in
    let rest = devfs_open_from k d node.next f path flags in
    if a == 0
    then some (minus_one, f)
    else if strcmp node.name path == 0
    then dev_open d.devices node.dev f flags
    else rest

-- devfs_open
unfoldable pub devfs_open : ℕ → Devfs → Descriptor → List ℕ → ℕ → Option (ℕ × Descriptor)
unfolding devfs_open_from
devfs_open fuel d f path flags = devfs_open_from fuel d d.nodes f path flags

-- The loop of devfs_fact for VFS_FACT_BLKDEV: the block device of that name.
unfoldable pub blkdev_from : ℕ → Devfs → ℕ → List ℕ → Option ℕ
blkdev_from zero d a path = none
blkdev_from (suc k) d a path =
    let node = d.node_at a in
    let rest = blkdev_from k d node.next path in
    if a == 0
    then none
    else if not (has_flag (d.devices node.dev).flags flg_chr) && (strcmp node.name path == 0)
    then some node.dev
    else rest

-- devfs_fact: the result, and the device that is stored for the caller.
unfoldable pub devfs_fact : ℕ → Devfs → List ℕ → ℕ → ℕ × Option ℕ
unfolding blkdev_from
devfs_fact fuel d path act =
    if act == fact_blkdev
    then elim (blkdev_from fuel d d.nodes path) [
      | none ↦ (minus_one, none)
      | some dev ↦ (0, some dev)
    ]
    else (minus_one, none)

-- devfs_opendir
unfoldable pub devfs_opendir : Devfs → Descriptor → List ℕ → ℕ × Descriptor
devfs_opendir d dir path =
    if byte path == 0 then (0, record dir { dev_priv = d.nodes }) else (minus_one, dir)

-- devfs_readdir into the entry `ent`; `none` is the failed assertion.
unfoldable pub devfs_readdir : Devfs → Descriptor → Dirent → Option (ℕ × Descriptor × Dirent)
devfs_readdir d dir ent =
    let node = d.node_at dir.dev_priv in
    let type = if has_flag (d.devices node.dev).flags flg_chr then dt_chr else dt_blk in
    if dir.dev_priv == 0
    then some (minus_one, dir, ent)
    else if node.dev == 0
    then none
    else some (
      0,
      record dir { dev_priv = node.next },
      record { d_name = strcpy ent.d_name node.name; d_type = type },
    )

-- devfs_init, with the devices of dev_pseudo_setup at `dev_null` and `dev_zero`.
unfoldable pub devfs_init : ℕ → ℕ → Devfs → Devfs
unfolding pseudo_setup dev_init
devfs_init dev_null dev_zero d = record d {
  nodes = 0;
  last = 0;
  devices = pseudo_setup dev_null dev_zero d.devices;
}

-- devfs_add, with the node that heap_alloc has given at `a`.
unfoldable pub devfs_add : ℕ → ℕ → List ℕ → ℕ → Devfs → Option Devfs
devfs_add a dev p param d =
    let node : Node = record {
      dev = dev;
      dev_param = param;
      name = strcpy (d.node_at a).name p;
      next = 0;
    } in
    let d1 = record d { node_at = update d.node_at a node } in
    let d2 = record d1 {
      node_at = update d1.node_at d.last (record (d1.node_at d.last) { next = a });
    } in
    if a == 0
    then none
    else some (if d.last == 0 then record d1 { nodes = a; last = a } else record d2 { last = a })

-- Calls of devfs_add in turn, each with the address, the device and the name.
unfoldable pub add_all : List (ℕ × ℕ × List ℕ) → Devfs → Option Devfs
unfolding devfs_add
add_all [] d = some d
add_all ((a, dev, p) ∷ more) d = elim (devfs_add a dev p 0 d) [
  | none ↦ none
  | some d1 ↦ add_all more d1
]

-- devfs_populate, with the addresses that heap_alloc gives and those of the devices.
unfoldable pub devfs_populate :
    (addresses : ℕ → ℕ) (initrd dev_null dev_zero tty ser : ℕ) → Devfs → Option Devfs
unfolding add_all devfs_add
devfs_populate addresses initrd dev_null dev_zero tty ser d =
    let others =
      (addresses 1, dev_null, b'n' ∷ b'u' ∷ b'l' ∷ b'l' ∷ [])
      ∷ (addresses 2, dev_zero, b'z' ∷ b'e' ∷ b'r' ∷ b'o' ∷ [])
      ∷ (addresses 3, tty, b't' ∷ b't' ∷ b'y' ∷ b'0' ∷ [])
      ∷ (addresses 4, ser, b't' ∷ b't' ∷ b'y' ∷ b'S' ∷ b'0' ∷ [])
      ∷ [] in
    if initrd == 0
    then add_all others d
    else add_all ((addresses 0, initrd, b'r' ∷ b'a' ∷ b'm' ∷ b'0' ∷ []) ∷ others) d
