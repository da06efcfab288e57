-- ===== src/Sys/Tests.antt =====
-- System calls at concrete inputs: a file system whose one file, at 64, keeps what is written to it,
-- and memory in which all bytes are 7.
use ygg_kernel.Base.{
  List, Option, [], arith, false, if◌then◌else◌, length, none, refl, replicate, some, take, true,
  update, ℕ, ◌++◌, ◌<◌, ◌==◌, ◌∷◌, ◌≡◌, ◌≢◌,
}
use ygg_kernel.Mm.Pool.{MmState}
use ygg_kernel.Sys.{Ops, Sys}
use ygg_kernel.Sys.Elf.{Elf, elf_load, ident, load_sections}
use ygg_kernel.Sys.Files.{
  free_fd, open_mode, open_path, sys_close, sys_open, sys_write, write_from, write_round,
}
use ygg_kernel.Sys.Files.Slots.{sys_open-sys_close}
use ygg_kernel.Task.{Task}
use ygg_kernel.Text.{strncmp}
use ygg_kernel.Vfs.{minus_one}

abbrev ops0 : Ops (List ℕ) ℕ
ops0 = record {
  vfs_open = λ path mode f. (64, f);
  vfs_opendir = λ path f. (0, f);
  vfs_close = λ file f. [];
  vfs_write = λ file bytes f. some (length bytes, f ++ bytes);
  vfs_read = λ file buf len f m. some (0, f, m);
  vfs_readdir = λ file f. (0, [], f);
  file_flags = λ file f. 3;
  user_to_kernel = λ buf n m. some (take n (replicate 512 7), m);
  kernel_to_user = λ buf bytes m. some m;
  strncpy_user_to_kernel = λ path n m. some (b'a' ∷ 0 ∷ [], m);
}

abbrev task0 : Task
task0 = record {
  flag = 1;
  wait_type = 0;
  has_ctl = true;
  pid = 5;
  sleep_deadline = 0;
  pending_signal = 0;
  next = 0;
}

abbrev sys0 : Sys (List ℕ) ℕ
sys0 = record {
  sched = record {
    task_at = λ _. task0;
    first = 16;
    last = 16;
    current = 16;
    idle = 16;
    last_pid = 5;
    entry = false;
    destroyed = [];
  };
  fds = λ i. if i == 1 then 64 else 0;
  files = [];
  memory = 0;
}

opened_test :
    sys_open ops0 100 0 1 (record sys0 { fds = update sys0.fds 0 64 })
    ≡ some (2, record sys0 { fds = update (update sys0.fds 0 64) 2 64 })
unfolding sys_open open_path free_fd open_mode
opened_test = refl

abbrev busy0 : Sys (List ℕ) ℕ
busy0 = record sys0 { fds = update sys0.fds 0 64 }

abbrev busy1 : Sys (List ℕ) ℕ
busy1 = record sys0 { fds = update (update sys0.fds 0 64) 2 64 }

sys_open-sys_close_example :
    (busy0.fds 2 ≡ 0)
    × ((j : ℕ) → j < 2 → busy0.fds j ≢ 0)
    × (busy1.fds 2 ≢ 0)
    × ((j : ℕ) → j ≢ 2 → busy1.fds j ≡ busy0.fds j)
    × ((j : ℕ) → (sys_close ops0 2 busy1).1.fds j ≡ busy0.fds j)
    × ((sys_close ops0 2 busy1).1.files ≡ ops0.vfs_close (busy1.fds 2) busy1.files)
sys_open-sys_close_example = sys_open-sys_close ops0 100 0 1 2 busy0 busy1 opened_test (omega arith)

-- Memory in which each byte read shows the address asked for.
abbrev address_ops : Ops (List ℕ) ℕ
address_ops = record ops0 { user_to_kernel = λ at n m. some (replicate n at, m) }

abbrev written : Option (ℕ × Sys (List ℕ) ℕ) → ℕ × List ℕ
written none = (0, [])
written (some (n, s)) = (n, s.files)

-- The second round of a long write reads from the address of the first.
write_test : written (sys_write address_ops 1 200 700 sys0) ≡ (700, replicate 700 200)
unfolding sys_write write_from write_round
write_test = refl

abbrev program : List ℕ → Elf
program ident = record { e_ident = ident; e_entry = 0x1000; sections = []; bytes = λ _. 0 }

-- The loader takes a file with the ELF identity and refuses any other.
elf_tests :
    (s : MmState)
    → (elf_load 0 (program (0x7F ∷ b'E' ∷ b'L' ∷ b'F' ∷ 1 ∷ [])) s ≡ some (0x1000, s))
      × (elf_load 0 (program (b'#' ∷ b'!' ∷ [])) s ≡ some (minus_one, s))
unfolding elf_load load_sections strncmp
elf_tests s = (refl, refl)
