-- ===== src/Dev.antt =====
-- Devices and the file systems that show them: src/sys/dev.c and src/dev/pseudo.c here, src/dev/devfs.c
-- and src/dev/procfs.c in child modules.
pub mod Devfs
pub mod Procfs
pub mod Tests
use ygg_kernel.Base.{
  List, Option, has_flag, if◌then◌else◌, none, some, update, ℕ, ◌*◌, ◌+◌, ◌-◌, ◌==◌,
}
use ygg_kernel.Text.{memset}
use ygg_kernel.Vfs.{file_type, minus_one}

-- The fields of struct vfs_file that opening a device and reading a directory use; pointers are
-- addresses, 0 for NULL.
pub record Descriptor : Type 0 where
  pub flags : ℕ
  pub dev : ℕ
  pub dev_priv : ℕ
  pub fs_priv : ℕ
  pub pos0 : ℕ
  pub pos1 : ℕ

-- struct dev, with the operation that dev_open calls, if there is one.
pub record Device : Type 0 where
  pub flags : ℕ
  pub open_op : Option (Descriptor → ℕ → ℕ × Descriptor)

abbrev pub flg_chr : ℕ
flg_chr = 1

abbrev pub flg_dev_rd : ℕ
flg_dev_rd = 2

abbrev pub flg_dev_wr : ℕ
flg_dev_wr = 4

abbrev pub type_blk : ℕ
type_blk = 1

abbrev pub type_chr : ℕ
type_chr = 2

-- dev_init
unfoldable pub dev_init : ℕ → Device
dev_init flags = record { flags = flags; open_op = none }

-- `flags &= ~(7 << 2)` and `flags |= type << 2`
unfoldable pub set_type : ℕ → ℕ → ℕ
set_type type flags = flags - file_type flags * 4 + type * 4

-- dev_open of the device at `dev`; `none` is the failed assertion.
unfoldable pub dev_open : (ℕ → Device) → ℕ → Descriptor → ℕ → Option (ℕ × Descriptor)
unfolding set_type
dev_open devices dev f flags =
    let type = if has_flag (devices dev).flags flg_chr then type_chr else type_blk in
    let f1 = record f { flags = set_type type f.flags; dev = dev; dev_priv = 0 } in
    if dev == 0
    then none
    else elim (devices dev).open_op [ none ↦ some (0, f1) | some op ↦ some (op f1 flags) ]

-- DEV_PSEUDO_ZERO and DEV_PSEUDO_NULL
abbrev pub pseudo_zero : ℕ
pseudo_zero = 0

abbrev pub pseudo_null : ℕ
pseudo_null = 1

-- dev_pseudo_read of `len` bytes into the buffer.
unfoldable pub pseudo_read : Descriptor → List ℕ → ℕ → ℕ × List ℕ
pseudo_read f buf len =
    if f.dev_priv == pseudo_null
    then (0, buf)
    else if f.dev_priv == pseudo_zero
    then (len, memset buf 0 len)
    else (minus_one, buf)

-- dev_pseudo_write
unfoldable pub pseudo_write : Descriptor → List ℕ → ℕ → ℕ
pseudo_write f buf len = len

-- dev_pseudo_setup, of the devices at `dev_null` and `dev_zero`.
unfoldable pub pseudo_setup : ℕ → ℕ → (ℕ → Device) → (ℕ → Device)
unfolding dev_init
pseudo_setup dev_null dev_zero devices =
    update (update devices dev_null (dev_init (flg_dev_rd + flg_dev_wr))) dev_zero
      (dev_init (flg_dev_rd + flg_dev_wr))
