-- ===== src/Sys/Files.antt =====
-- The system calls on files: open, close, read and write.
pub mod Slots
use ygg_kernel.Base.{
  List, Option, has_flag, if◌then◌else◌, length, ltb, none, not, some, suc, update, zero, ℕ, ◌%◌,
  ◌+◌, ◌-◌, ◌/◌, ◌==◌, ◌^◌,
}
use ygg_kernel.Sys.{
  Ops, Sys, dirent_size, ebadf, enfile, enoent, fd_count, flg_dir, negative, path_size, write_size,
}
use ygg_kernel.Vfs.{minus_one}

-- The first of the `n` descriptors from `i` on that is not used.
unfoldable pub free_fd : ℕ → ℕ → (ℕ → ℕ) → Option ℕ
free_fd zero i fds = none
free_fd (suc n) i fds = let rest = free_fd n (i + 1) fds in if fds i == 0 then some i else rest

-- The mode of vfs_open, from the mode of the call.
unfoldable pub open_mode : ℕ → ℕ
open_mode mode = mode % 4

-- The size of a round of sys_write.
abbrev pub piece_size : ℕ → ℕ
piece_size left = if ltb write_size left then write_size else left

module _ {F M : Type 0} (ops : Ops F M) where
  -- The file that vfs_opendir or vfs_open gives.
  abbrev pub opened_file : List ℕ → ℕ → ℕ → F → ℕ × F
  opened_file path flags mode files =
      if has_flag flags flg_dir
      then ops.vfs_opendir path files
      else ops.vfs_open path (open_mode mode) files

  -- sys_open behind the copy of the path to the kernel.
  unfoldable pub open_path : ℕ → List ℕ → ℕ → ℕ → Sys F M → ℕ × Sys F M
  unfolding open_mode
  open_path fd path flags mode s =
      let (file, files) = opened_file path flags mode s.files in
      let s1 = record s { files = files } in
      if file == 0 then (negative enoent, s1) else (fd, record s1 { fds = update s1.fds fd file })

  -- sys_open
  unfoldable pub sys_open : ℕ → ℕ → ℕ → Sys F M → Option (ℕ × Sys F M)
  sys_open path flags mode s = elim (free_fd fd_count 0 s.fds) [
    | none ↦ some (negative enfile, s)
    | some fd ↦ elim (ops.strncpy_user_to_kernel path path_size s.memory) [
      | none ↦ none
      | some (text, memory) ↦
          if length text == 0
          then none
          else some (open_path fd text flags mode (record s { memory = memory }))
    ]
  ]

  -- sys_close of a descriptor, a 32-bit pattern.
  unfoldable pub sys_close : ℕ → Sys F M → ℕ × Sys F M
  sys_close fd s =
      let closed = record s { files = ops.vfs_close (s.fds fd) s.files; fds = update s.fds fd 0 } in
      if not (ltb fd fd_count)
      then (negative ebadf, s)
      else if s.fds fd == 0
      then (0, s)
      else (0, closed)

  -- sys_read of a directory: one entry.
  unfoldable pub read_entry : ℕ → ℕ → ℕ → Sys F M → Option (ℕ × Sys F M)
  read_entry file buf len s =
      let (r, entry, files) = ops.vfs_readdir file s.files in
      let s1 = record s { files = files } in
      let copied : Option (ℕ × Sys F M) = elim (ops.kernel_to_user buf entry s.memory) [
        | none ↦ none
        | some memory ↦ some (r, record s1 { memory = memory })
      ] in
      if not (len == dirent_size) then none else if ltb r (2 ^ 31) then copied else some (r, s1)

  -- sys_read of a file.
  unfoldable pub read_file : ℕ → ℕ → ℕ → Sys F M → Option (ℕ × Sys F M)
  read_file file buf len s = elim (ops.vfs_read file buf len s.files s.memory) [
    | none ↦ none
    | some (r, files, memory) ↦ some (r, record s { files = files; memory = memory })
  ]

  -- sys_read
  unfoldable pub sys_read : ℕ → ℕ → ℕ → Sys F M → Option (ℕ × Sys F M)
  unfolding read_entry read_file
  sys_read fd buf len s =
      if not (ltb fd fd_count)
      then some (minus_one, s)
      else if s.fds fd == 0
      then some (minus_one, s)
      else if has_flag (ops.file_flags (s.fds fd) s.files) flg_dir
      then read_entry (s.fds fd) buf len s
      else read_file (s.fds fd) buf len s

  -- One round of sys_write: `size` bytes from `buf` are copied and written.
  unfoldable pub write_round : ℕ → ℕ → ℕ → Sys F M → Option (ℕ × Sys F M)
  write_round file buf size s = elim (ops.user_to_kernel buf size s.memory) [
    | none ↦ none
    | some (bytes, memory) ↦ elim (ops.vfs_write file bytes s.files) [
      | none ↦ none
      | some (res, files) ↦ some (res, record s { files = files; memory = memory })
    ]
  ]

  -- The loop of sys_write with `left` bytes left, on fuel; each round copies from `buf` again.
  unfoldable pub write_from : ℕ → ℕ → ℕ → ℕ → ℕ → Sys F M → Option (ℕ × Sys F M)
  write_from zero file buf left written s = if left == 0 then some (written, s) else none
  write_from (suc k) file buf left written s =
      let size = piece_size left in
      let next_round : Option (ℕ × Sys F M) = elim (write_round file buf size s) [
        | none ↦ none
        | some (res, s1) ↦
            let rest = write_from k file buf (left - size) ((written + res) % 2 ^ 32) s1 in
            if res == size then rest else some ((if written == 0 then res else written), s1)
      ] in
      if left == 0 then some (written, s) else next_round

  -- sys_write; each round but the last writes as much as the buffer holds, which gives the fuel.
  unfoldable pub sys_write : ℕ → ℕ → ℕ → Sys F M → Option (ℕ × Sys F M)
  unfolding write_from
  sys_write fd buf len s =
      if not (ltb fd fd_count)
      then some (minus_one, s)
      else if s.fds fd == 0
      then some (minus_one, s)
      else write_from (len / write_size + 1) (s.fds fd) buf len 0 s
