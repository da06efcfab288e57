-- ===== src/Dev/Tests.antt =====
-- Devices and their file systems at concrete inputs: nodes at 16 and 32, devices at 1 and 2.
use ygg_kernel.Base.{
  List, [], arith, if◌then◌else◌, none, refl, replicate, some, take, ℕ, ◌*◌, ◌++◌, ◌+◌, ◌<◌, ◌==◌,
  ◌^◌, ◌∷◌, ◌≡◌,
}
use ygg_kernel.Dev.{Descriptor, Device, dev_init, dev_open, set_type}
use ygg_kernel.Dev.Devfs.{
  Devfs, Node, devfs_add, devfs_open, devfs_open_from, devfs_opendir, dt_blk,
}
use ygg_kernel.Dev.Devfs.Add.{devfs_add-entries}
use ygg_kernel.Dev.Devfs.Listing.{CanShow, devfs_opendir-shown, read_all, shown}
use ygg_kernel.Dev.Devfs.Nodes.{
  Chain, IsDevfs, devfs_open-first_dev, entries, first_dev, open_found,
}
use ygg_kernel.Dev.Procfs.{Procfs, int_bytes, is_pid_path, procfs_open, procfs_open_from}
use ygg_kernel.Dev.Procfs.Reads.{procfs_open-value, read_pieces, value}
use ygg_kernel.Initrd.Directory.{Dirent}
use ygg_kernel.Task.Refresh.{Different, last_of}
use ygg_kernel.Task.Select.{Without}
use ygg_kernel.Text.{strcmp, strlen, strncmp}
use ygg_kernel.Text.Compare.{text}
use ygg_kernel.Vfs.{minus_one}

abbrev name_null : List ℕ
name_null = b'n' ∷ b'u' ∷ b'l' ∷ b'l' ∷ 0 ∷ []

abbrev name_tty : List ℕ
name_tty = b't' ∷ b't' ∷ b'y' ∷ b'0' ∷ 0 ∷ []

abbrev nodes0 : ℕ → Node
nodes0 a =
    if a == 16
    then record { dev = 1; dev_param = 0; name = name_null; next = 0 }
    else record { dev = 0; dev_param = 0; name = replicate 8 0; next = 0 }

abbrev devices0 : ℕ → Device
devices0 a = if a == 2 then dev_init 7 else dev_init 6

abbrev devfs0 : Devfs
devfs0 = record { node_at = nodes0; nodes = 16; last = 16; devices = devices0 }

abbrev file0 : Descriptor
file0 = record { flags = 3; dev = 0; dev_priv = 0; fs_priv = 0; pos0 = 0; pos1 = 0 }

abbrev ent0 : Dirent
ent0 = record { d_name = replicate 8 0; d_type = 0 }

devfs0-IsDevfs : IsDevfs devfs0 (16 ∷ [])
unfolding Chain Different Without last_of
devfs0-IsDevfs = record { chain = (refl, (omega arith, refl)); last = refl; different = (tt, tt) }

devfs_open-first_dev_example :
    devfs_open 2 devfs0 file0 name_null 1
    ≡ open_found devfs0 file0 name_null 1 (first_dev (entries nodes0 (16 ∷ [])) name_null)
devfs_open-first_dev_example =
    devfs_open-first_dev devfs0 file0 name_null 1 2 (16 ∷ []) devfs0-IsDevfs (omega arith)

tty_room : strlen name_tty < 8
unfolding strlen
tty_room = omega arith

tty_away : Without 32 (16 ∷ [])
unfolding Without
tty_away = (omega arith, tt)

devfs_add-entries_example :
    (e : Devfs) × (devfs_add 32 2 name_tty 0 devfs0 ≡ some e)
    × IsDevfs e (16 ∷ 32 ∷ [])
    × (entries e.node_at (16 ∷ 32 ∷ []) ≡ entries nodes0 (16 ∷ []) ++ ((text name_tty, 2) ∷ []))
    × (e.devices ≡ devices0)
devfs_add-entries_example =
    devfs_add-entries 32 2 name_tty 0 devfs0 (16 ∷ []) devfs0-IsDevfs (omega arith) tty_away
      tty_room

null_shows : CanShow devfs0 8 (16 ∷ [])
unfolding CanShow strlen
null_shows = (omega arith, omega arith, tt)

devfs_opendir-shown_example :
    read_all 2 devfs0 (devfs_opendir devfs0 file0 []).1 ent0 ≡ some (shown devfs0 (16 ∷ []))
devfs_opendir-shown_example =
    devfs_opendir-shown devfs0 file0 ent0 2 (16 ∷ []) devfs0-IsDevfs null_shows (omega arith)

shown_test : shown devfs0 (16 ∷ []) ≡ (b'n' ∷ b'u' ∷ b'l' ∷ b'l' ∷ [], dt_blk) ∷ []
unfolding shown text dev_init
shown_test = refl

-- A character device is opened as one; a name that is not there is refused.
open_tests :
    (elim (dev_open devices0 2 file0 1) [ none ↦ 0 | some (res, f) ↦ f.flags ] ≡ 3 + 2 * 4)
    × (devfs_open 2 devfs0 file0 name_tty 1 ≡ some (minus_one, file0))
unfolding dev_open set_type dev_init devfs_open devfs_open_from strcmp strncmp
open_tests = (refl, refl)

abbrev procfs0 : Procfs
procfs0 = record {
  node_at = λ a. record {
    next = 0;
    name = name_tty;
    flags = 4;
    node_data = 5;
    get_int = λ v. v + 0x0403_0200;
  };
  node_first = 16;
  node_last = 16;
}

abbrev opened0 : Descriptor
opened0 = record file0 { fs_priv = 16; pos0 = 0; pos1 = 4 + 2 ^ 31 }

proc_open : procfs_open 2 procfs0 file0 name_tty ≡ (0, opened0)
unfolding procfs_open procfs_open_from is_pid_path strcmp strncmp
proc_open = refl

procfs_open-value_example :
    (strcmp name_tty name_tty ≡ 0)
    × (h : Descriptor) × (read_pieces procfs0 opened0 (3 ∷ 9 ∷ [])
        ≡ some (take 12 (value procfs0 16), h))
procfs_open-value_example =
    procfs_open-value procfs0 file0 name_tty (λ x valid. refl) 2 (3 ∷ 9 ∷ []) opened0 proc_open

value_test : value procfs0 16 ≡ 5 ∷ 2 ∷ 3 ∷ 4 ∷ []
unfolding int_bytes
value_test = refl
