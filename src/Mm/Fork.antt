-- ===== src/Mm/Fork.antt =====
-- mm_space_fork of arch/x86/mm/space.c: the pages of a task are copied, one after the other.
use ygg_kernel.Base.{
  Option, has_flag, if◌then◌else◌, none, not, some, suc, zero, ℕ, ◌%◌, ◌*◌, ◌+◌, ◌/◌, ◌==◌, ◌^◌,
  ◌||◌,
}
use ygg_kernel.Mm.Map.{map_range, page_base, table_info}
use ygg_kernel.Mm.Pool.{MmState, huge, present}
use ygg_kernel.Mm.Space.{flg_clone_kernel, flg_clone_user, space_clone}
use ygg_kernel.Mm.User.{kernel_to_user, user_to_kernel}

-- The flags of the copy: `(entry & MM_FLG_WR) | MM_FLG_US`.
abbrev pub fork_access : ℕ → ℕ
fork_access entry = entry / 2 % 2 * 2 + 4

-- One page: it is mapped in the new space and copied through a buffer.
pub fork_page : ℕ → ℕ → ℕ → ℕ → MmState → Option MmState
fork_page dst src page entry s = elim (map_range dst page 1 (fork_access entry) s) [
  | none ↦ none
  | some t ↦ elim (user_to_kernel src page 0x1000 t) [
    | none ↦ none
    | some (buffer, u) ↦ kernel_to_user dst page buffer 0x1000 u
  ]
]

-- The `n` entries from entry `j` on of the table `pt`, which is entry `i` of the directory.
pub fork_table : ℕ → ℕ → ℕ → ℕ → ℕ → ℕ → MmState → Option MmState
fork_table zero j i pt dst src s = some s
fork_table (suc n) j i pt dst src s =
    let entry = s.words pt j in
    let copied : Option MmState =
      if present entry then fork_page dst src (i * 2 ^ 22 + j * 2 ^ 12) entry s else some s in
    elim copied [ none ↦ none | some t ↦ fork_table n (j + 1) i pt dst src t ]

-- The `n` entries from entry `i` on of the directory.
pub fork_from : ℕ → ℕ → ℕ → ℕ → MmState → Option MmState
fork_from zero i dst src s = some s
fork_from (suc n) i dst src s =
    let e = s.words src i in
    let info = table_info s src i in
    let copied : Option MmState =
      if not (present e)
      then some s
      else if huge e || (info == 0)
      then none
      else fork_table 1024 0 i (page_base info) dst src s in
    elim copied [ none ↦ none | some t ↦ fork_from n (i + 1) dst src t ]

-- mm_space_fork
pub space_fork : ℕ → ℕ → ℕ → MmState → Option MmState
space_fork dst src flags s =
    let cloned : Option MmState =
      if has_flag flags flg_clone_kernel then space_clone dst src flg_clone_kernel s else some s in
    elim cloned [
      | none ↦ none
      | some t ↦ if has_flag flags flg_clone_user then fork_from 767 1 dst src t else some t
    ]
