-- ===== src/Vfs.antt =====
-- The virtual file system, sys/vfs.c: open files, their reads and writes, and lines. The drivers'
-- operations are functions of the caller; `none` is a panic or a failed assertion.
use ygg_kernel.Base.{
  Bool, List, Option, [], bit_and, false, has_flag, if◌then◌else◌, ltb, none, not, some, sub32, suc,
  take, true, zero, ℕ, ◌%◌, ◌++◌, ◌+◌, ◌-◌, ◌/◌, ◌==◌, ◌^◌, ◌||◌, ◌∷◌,
}
pub mod Lines
pub mod Table
pub mod Directory
pub mod Terminal
pub mod Mounts
pub mod Reads
pub mod Tests

-- The return values -1 and VFS_READ_ASYNC.
abbrev pub minus_one : ℕ
minus_one = 2 ^ 32 - 1

abbrev pub read_async : ℕ
read_async = 2 ^ 32 - 2

abbrev pub flg_rd : ℕ
flg_rd = 1

abbrev pub flg_wr : ℕ
flg_wr = 2

-- vfs_file_t: `op_buf` is whether the pointer is set, `received` what has been written at it, and
-- `task` the task whose space it is in, 0 for the kernel's.
pub record File : Type 0 where
  pub flags : ℕ
  pub task : ℕ
  pub op_buf : Bool
  pub op_res : ℕ
  pub op_len : ℕ
  pub op_type : ℕ
  pub received : List ℕ

-- A used slot of vfs_mounts.
pub record Mount : Type 0 where
  pub fs : ℕ
  pub srcdev : Option ℕ
  pub src : List ℕ
  pub dst : List ℕ

-- The descriptor's type.
abbrev pub file_type : ℕ → ℕ
file_type flags = flags / 4 % 8

-- The driver that a descriptor's type selects: `reg` for files, `dev` for devices.
unfoldable pub driver {ℓ} : {A : Type ℓ} → ℕ → Option A → Option A → Option A
driver flags reg dev =
    if file_type flags == 0
    then reg
    else if file_type flags == 1 || (file_type flags == 2)
    then dev
    else none

-- vfs_read
unfoldable pub vfs_read :
    Option (File → ℕ → ℕ × File) → Option (File → ℕ → ℕ × File) → File → ℕ → Option (ℕ × File)
unfolding driver
vfs_read reg dev f len =
    let f1 = record f {
      op_buf = true;
      op_res = 0;
      op_len = len;
      op_type = bit_and f.flags 3;
      received = [];
    } in
    if not (has_flag f.flags flg_rd)
    then some (minus_one, f)
    else if f.op_buf
    then none
    else elim (driver f.flags reg dev) [
      | none ↦ none
      | some read ↦
          let (r, f2) = read f1 len in
          some (r, if r == read_async then f2 else record f2 { op_buf = false })
    ]

-- vfs_write
unfoldable pub vfs_write {ℓ} :
    {S : Type ℓ}
    → Option (List ℕ → S → ℕ × S)
    → Option (List ℕ → S → ℕ × S)
    → File
    → List ℕ
    → S
    → Option (ℕ × S)
unfolding driver
vfs_write reg dev f bytes s =
    if not (has_flag f.flags flg_wr)
    then some (minus_one, s)
    else elim (driver f.flags reg dev) [ none ↦ none | some write ↦ some (write bytes s) ]

-- What vfs_send_read_res calls for a task: mm_memcpy_kernel_to_user into its space, the place counted
-- from `op_buf` on, `none` for a failed assertion of it; and task_nobusy.
pub record ReaderOps (S : Type 0) : Type 0 where
  pub to_user : ℕ → ℕ → List ℕ → S → Option S
  pub nobusy : ℕ → S → S

-- The copy to the place `at` of the buffer; for the kernel itself it is all in `received`.
unfoldable pub copy_result : {S : Type 0} → ReaderOps S → ℕ → ℕ → List ℕ → S → Option S
copy_result ops task at bytes s = if task == 0 then some s else ops.to_user task at bytes s

unfoldable pub wake_reader : {S : Type 0} → ReaderOps S → ℕ → S → S
wake_reader ops task s = if task == 0 then s else ops.nobusy task s

-- vfs_send_read_res: the return value, the file, and the system. `op_res` counts the bytes that have
-- come.
unfoldable pub send_read_res :
    {S : Type 0} → ReaderOps S → File → List ℕ → ℕ → S → Option (ℕ × File × S)
unfolding copy_result wake_reader
send_read_res ops f src count s =
    let sz = if ltb f.op_len count then f.op_len else count in
    let f1 = record f { received = f.received ++ take sz src; op_res = (f.op_res + sz) % 2 ^ 32 } in
    if not f.op_buf
    then none
    else if f.op_res == minus_one
    then some (1, record f { op_buf = false }, s)
    else elim (copy_result ops f.task f.op_res (take sz src) s) [
      | none ↦ none
      | some s1 ↦
          if f1.op_res == f.op_len
          then some (1, record f1 { op_buf = false }, wake_reader ops f.task s1)
          else some (0, f1, s1)
    ]

-- The loop of vfs_gets with `n` characters left; `read1` reads one, and is `none` at the end.
unfoldable pub gets_from {ℓ} : {S : Type ℓ} → (S → Option (ℕ × S)) → ℕ → S → List ℕ × S
gets_from read1 zero s = ([], s)
gets_from read1 (suc n) s = elim (read1 s) [
  | none ↦ ([], s)
  | some (c, s') ↦
      let (got, s'') = gets_from read1 n s' in if c == b'\n' then ([], s') else (c ∷ got, s'')
]

-- vfs_gets: the characters in the buffer before the terminator, `none` for the return value -1.
unfoldable pub vfs_gets {ℓ} : {S : Type ℓ} → (S → Option (ℕ × S)) → ℕ → S → Option (List ℕ) × S
unfolding gets_from
vfs_gets read1 lim s =
    let n = sub32 lim 1 in
    let result = gets_from read1 n s in
    if n == 0
    then (some [], s)
    else elim (read1 s) [ none ↦ (none, s) | some first ↦ (some result.0, result.1) ]
