-- ===== src/Sys.antt =====
-- The system calls, src/arch/x86/syscall.c: what each does to the current task and its files.
pub mod Files
pub mod Calls
pub mod Dispatch
pub mod Elf
pub mod Tests
use ygg_kernel.Base.{List, Option, ℕ, ◌-◌, ◌^◌}
use ygg_kernel.Task.{Sched}

-- What the system calls use of the file system, whose state is an `F`, and of the memory `M`: files
-- are addresses, 0 for NULL, and `none` is a failed assertion or a panic.
pub record Ops (F M : Type 0) : Type 0 where
  pub vfs_open : List ℕ → ℕ → F → ℕ × F
  pub vfs_opendir : List ℕ → F → ℕ × F
  pub vfs_close : ℕ → F → F
  pub vfs_write : ℕ → List ℕ → F → Option (ℕ × F)
  pub vfs_read : ℕ → ℕ → ℕ → F → M → Option (ℕ × F × M)
  pub vfs_readdir : ℕ → F → ℕ × List ℕ × F
  pub file_flags : ℕ → F → ℕ
  pub user_to_kernel : ℕ → ℕ → M → Option (List ℕ × M)
  pub kernel_to_user : ℕ → List ℕ → M → Option M
  pub strncpy_user_to_kernel : ℕ → ℕ → M → Option (List ℕ × M)

-- The scheduler, the files of the current task, the open files and the memory.
pub record Sys (F M : Type 0) : Type 0 where
  pub sched : Sched
  pub fds : ℕ → ℕ
  pub files : F
  pub memory : M

-- A negative error number, as the 32-bit pattern that a call returns.
abbrev pub negative : ℕ → ℕ
negative n = 2 ^ 32 - n

abbrev pub enoent : ℕ
enoent = 2

abbrev pub ebadf : ℕ
ebadf = 9

abbrev pub enfile : ℕ
enfile = 23

-- The number of descriptors of a task.
abbrev pub fd_count : ℕ
fd_count = 4

-- O_DIRECTORY, and the bit of a file that is a directory.
abbrev pub flg_dir : ℕ
flg_dir = 2 ^ 21

-- The buffers of sys_write and of a path.
abbrev pub write_size : ℕ
write_size = 512

abbrev pub path_size : ℕ
path_size = 256

abbrev pub dirent_size : ℕ
dirent_size = 268
