-- ===== src/Vfs/Tests.antt =====
-- The virtual file system and the terminals at concrete inputs.
use ygg_kernel.Base.{
  List, Option, [], arith, false, length, none, refl, some, true, ℕ, ◌+◌, ◌<◌, ◌∷◌, ◌≡◌,
}
use ygg_kernel.Mm.Phys.{naddr}
use ygg_kernel.Text.{strchr, strchrnul, strcmp, strlen, strncmp}
use ygg_kernel.Vfs.{
  File, Mount, ReaderOps, copy_result, read_async, send_read_res, vfs_gets, vfs_read, wake_reader,
}
use ygg_kernel.Vfs.Directory.{FsOps, ask_fact, found_mount, vfs_getm, vfs_opendir}
use ygg_kernel.Vfs.Lines.{behind_line, line, next_char, vfs_gets-line}
use ygg_kernel.Vfs.Mounts.{Distinct, Short, WellFormed, vfs_mount-WellFormed}
use ygg_kernel.Vfs.Reads.{Done, copy_all, locked, over, read-type, type_all}
use ygg_kernel.Vfs.Table.{
  advance, better, components_match, lookup_file, lookup_from, match_from, mounted, vfs_mount,
}
use ygg_kernel.Vfs.Terminal.{Tty, tty_driver, tty_read}

abbrev input : List ℕ
input = b'i' ∷ b'n' ∷ b'\n' ∷ b'x' ∷ []

input_fits : length (line (b'i' ∷ b'n' ∷ b'\n' ∷ b'x' ∷ [])) + 1 < 128
unfolding line
input_fits = omega arith

vfs_gets-line_example :
    vfs_gets next_char 128 (b'i' ∷ b'n' ∷ b'\n' ∷ b'x' ∷ [])
    ≡ (some (line input), behind_line input)
vfs_gets-line_example = vfs_gets-line 128 b'i' (b'n' ∷ b'\n' ∷ b'x' ∷ []) input_fits (omega arith)

abbrev dev_path : List ℕ
dev_path = b'/' ∷ b'd' ∷ []

abbrev at_root : Mount
at_root = record { fs = 1; srcdev = none; src = []; dst = b'/' ∷ [] }

at_root-WellFormed : WellFormed (at_root ∷ [])
unfolding WellFormed Distinct Short mounted strlen
at_root-WellFormed = ((refl, tt), (omega arith, tt), omega arith)

dev_path_fits : strlen dev_path < 256
unfolding strlen
dev_path_fits = omega arith

abbrev no_device : List ℕ → Option ℕ
no_device s = none

vfs_mount-WellFormed_example :
    WellFormed (vfs_mount no_device none none dev_path 2 (at_root ∷ [])).1
vfs_mount-WellFormed_example =
    vfs_mount-WellFormed no_device none none dev_path 2 (at_root ∷ []) at_root-WellFormed
      dev_path_fits

abbrev closed : File
closed = record {
  flags = 9;
  task = 5;
  op_buf = false;
  op_res = 0;
  op_len = 0;
  op_type = 0;
  received = [];
}

abbrev idle : Tty
idle = record { ttyparam = 0; pending = false; file = closed; serial = []; console = [] }

-- The copies to the user are logged, and the task that wakes up.
abbrev task_ops : ReaderOps (List (ℕ × ℕ × List ℕ))
task_ops = record {
  to_user = λ task at bytes s. some ((task, at, bytes) ∷ s);
  nobusy = λ task s. (task, 0, []) ∷ s;
}

read-type_example :
    (waiting done : Tty) × (tty_read idle (locked closed 2) ≡ some (read_async, waiting))
    × (vfs_read none (some (tty_driver idle)) closed 2 ≡ some (read_async, waiting.file))
    × (type_all task_ops (b'o' ∷ b'k' ∷ []) waiting []
        ≡ over task_ops 5 done (copy_all task_ops 5 0 (b'o' ∷ b'k' ∷ []) []))
    × Done done (b'o' ∷ b'k' ∷ [])
read-type_example =
    read-type task_ops [] idle closed (b'o' ∷ b'k' ∷ []) refl refl refl refl (omega arith)
      (omega arith)

copied_test :
    over task_ops 5 idle (copy_all task_ops 5 0 (b'o' ∷ b'k' ∷ []) [])
    ≡ some (idle, (5, 0, []) ∷ (5, 1, b'k' ∷ []) ∷ (5, 0, b'o' ∷ []) ∷ [])
unfolding over copy_all copy_result wake_reader
copied_test = refl

-- A mount point of two components is cut off wrongly: the rest of `/a/b/c` is `b/c`.
abbrev nested : Mount
nested = record { fs = 1; srcdev = none; src = []; dst = b'/' ∷ b'a' ∷ b'/' ∷ b'b' ∷ [] }

lookup_tests :
    (lookup_file (at_root ∷ []) (b'/' ∷ b'e' ∷ b't' ∷ b'c' ∷ [])
      ≡ some (some (0, some (b'e' ∷ b't' ∷ b'c' ∷ []))))
    × (lookup_file (nested ∷ []) (b'/' ∷ b'a' ∷ b'/' ∷ b'b' ∷ b'/' ∷ b'c' ∷ [])
        ≡ some (some (0, some (b'b' ∷ b'/' ∷ b'c' ∷ []))))
unfolding lookup_file lookup_from better advance components_match match_from strcmp strncmp strchr
    strchrnul strlen
lookup_tests = (refl, refl)

-- A path that goes on with a slash behind the mount point: the comparison runs on behind the ends.
overrun_test :
    lookup_file
      (record { fs = 1; srcdev = none; src = []; dst = dev_path } ∷ [])
      (b'/' ∷ b'd' ∷ b'/' ∷ [])
    ≡ none
unfolding lookup_file lookup_from better advance components_match match_from strcmp strncmp strchr
    strchrnul strlen
overrun_test = refl

-- Results longer than what is left of the buffer go behind its end.
send_test :
    send_read_res task_ops
      (record closed { op_buf = true; op_res = 1; op_len = 2; received = 1 ∷ [] })
      (2 ∷ 3 ∷ [])
      2
      []
    ≡ some (
      0,
      record closed { op_buf = true; op_res = 3; op_len = 2; received = 1 ∷ 2 ∷ 3 ∷ [] },
      (5, 1, 2 ∷ 3 ∷ []) ∷ [],
    )
unfolding send_read_res copy_result
send_test = refl

-- A file system in memory at address 0x500 that has every path, and no directories.
abbrev memory_ops : FsOps ℕ
memory_ops = record {
  fact = some (λ m rel kind at. (0, at));
  opendir = none;
  readdir = none;
  closedir = none;
  close = none;
}

vfs_getm_tests :
    (vfs_getm (λ i. memory_ops) (at_root ∷ []) (b'/' ∷ b'a' ∷ []) 0x500 ≡ some 0x500)
    × (vfs_getm (λ i. memory_ops) [] (b'/' ∷ b'a' ∷ []) 0x500 ≡ some naddr)
    × (vfs_opendir
          (λ i. memory_ops)
          (record { dir_path = []; dir_flags = 0; dir_dev = none; dir_fs = 0 })
          (at_root ∷ [])
          (b'/' ∷ [])
          0x500
        ≡ none)
unfolding vfs_getm vfs_opendir found_mount ask_fact lookup_file lookup_from better advance
    components_match match_from strcmp strncmp strchr strchrnul strlen
vfs_getm_tests = (refl, refl, refl)
