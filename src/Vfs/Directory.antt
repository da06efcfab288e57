-- ===== src/Vfs/Directory.antt =====
-- Directories, closing and facts about paths, sys/vfs.c. What a file system's table has for them is
-- a record of operations, each of which may be missing; `none` is a failed assertion. What is given
-- to heap_free is the list `freed` of the addresses, newest first.
use ygg_kernel.Base.{
  List, Option, [], bit_or, get_elem?, has_flag, if◌then◌else◌, none, not, some, ℕ, ◌==◌, ◌^◌, ◌∷◌,
}
use ygg_kernel.Mm.Phys.{naddr}
use ygg_kernel.Text.{strcpy}
use ygg_kernel.Vfs.{Mount, minus_one}
use ygg_kernel.Vfs.Table.{lookup_file}

-- The fields of vfs_dir_t that are set here, with the path's bytes.
pub record Directory : Type 0 where
  pub dir_path : List ℕ
  pub dir_flags : ℕ
  pub dir_dev : Option ℕ
  pub dir_fs : ℕ

-- The operations of a file system on its own state. A fact is its result and the value found.
pub record FsOps (S : Type 0) : Type 0 where
  pub fact : Option (Mount → Option (List ℕ) → ℕ → S → ℕ × ℕ)
  pub opendir : Option (Mount → Directory → Option (List ℕ) → S → ℕ × Directory × S)
  pub readdir : Option (Directory → S → ℕ × List ℕ × Directory × S)
  pub closedir : Option (Directory → S → S)
  pub close : Option (ℕ → S → S)

abbrev pub fact_getm : ℕ
fact_getm = 3

abbrev pub fact_stat : ℕ
fact_stat = 1

abbrev pub fact_block : ℕ
fact_block = 2

-- VFS_FLG_DIR
abbrev pub flg_directory : ℕ
flg_directory = 2 ^ 21

module _ {S : Type 0} (table : ℕ → FsOps S) where
  -- The mount that a path is found in, and what is left of the path; `some none` is -1.
  unfoldable pub found_mount : List Mount → List ℕ → Option (Option (Mount × Option (List ℕ)))
  found_mount ms path = elim (lookup_file ms path) [
    | none ↦ none
    | some none ↦ some none
    | some (some (i, rel)) ↦ elim (get_elem? ms i) [ none ↦ none | some m ↦ some (some (m, rel)) ]
  ]

  -- A fact about a path: the result of the file system and the value, `some none` for a path that
  -- is not found.
  unfoldable pub ask_fact : ℕ → List Mount → List ℕ → S → Option (Option (ℕ × ℕ))
  ask_fact kind ms path s = elim (found_mount ms path) [
    | none ↦ none
    | some none ↦ some none
    | some (some (m, rel)) ↦ elim (table m.fs).fact [
      | none ↦ none
      | some ask ↦ some (some (ask m rel kind s))
    ]
  ]

  -- vfs_getm
  unfoldable pub vfs_getm : List Mount → List ℕ → S → Option ℕ
  vfs_getm ms path s = elim (ask_fact fact_getm ms path s) [
    | none ↦ none
    | some none ↦ some naddr
    | some (some (r, v)) ↦ some (if r == 0 then v else naddr)
  ]

  -- vfs_stat: the result, and the value where there is one.
  unfoldable pub vfs_stat : List Mount → List ℕ → S → Option (ℕ × Option ℕ)
  vfs_stat ms path s = elim (ask_fact fact_stat ms path s) [
    | none ↦ none
    | some none ↦ some (minus_one, none)
    | some (some (r, v)) ↦ some (r, some v)
  ]

  -- vfs_get_blkdev; `some none` is NULL.
  unfoldable pub vfs_get_blkdev : List Mount → List ℕ → S → Option (Option ℕ)
  vfs_get_blkdev ms path s = elim (ask_fact fact_block ms path s) [
    | none ↦ none
    | some none ↦ some none
    | some (some (r, v)) ↦ some (if r == 0 then some v else none)
  ]

  -- vfs_opendir, with what heap_alloc returned, which is not cleared; `some none` is NULL.
  unfoldable pub vfs_opendir : Directory → List Mount → List ℕ → S → Option (Option Directory × S)
  vfs_opendir fresh ms path s = elim (found_mount ms path) [
    | none ↦ none
    | some none ↦ some (none, s)
    | some (some (m, rel)) ↦ elim (table m.fs).opendir [
      | none ↦ none
      | some start ↦
          let left : List ℕ = elim rel [ none ↦ [] | some r ↦ r ] in
          let dir : Directory = record {
            dir_path = strcpy fresh.dir_path left;
            dir_flags = bit_or fresh.dir_flags flg_directory;
            dir_dev = m.srcdev;
            dir_fs = m.fs;
          } in
          let (r, dir', s') = start m dir rel s in some (if r == 0 then some dir' else none, s')
    ]
  ]

  -- vfs_readdir: the result, the entry, the directory and the file system.
  unfoldable pub vfs_readdir : Directory → S → Option (ℕ × List ℕ × Directory × S)
  vfs_readdir dir s =
      if not (has_flag dir.dir_flags flg_directory) then none else elim (table dir.dir_fs).readdir [
        | none ↦ some (minus_one, [], dir, s)
        | some read ↦ some (read dir s)
      ]

  -- vfs_closedir, of the directory at address `a`.
  unfoldable pub vfs_closedir : ℕ → Directory → List ℕ → S → Option (List ℕ × S)
  vfs_closedir a dir freed s =
      if not (has_flag dir.dir_flags flg_directory)
      then none
      else elim (table dir.dir_fs).closedir [
        | none ↦ some (a ∷ freed, s)
        | some end ↦ some (a ∷ freed, end dir s)
      ]

  -- vfs_close, of the file at address `a` in the file system `fs`; 0 is NULL.
  unfoldable pub vfs_close : ℕ → ℕ → List ℕ → S → List ℕ × S
  vfs_close a fs freed s =
      if a == 0
      then (freed, s)
      else elim (table fs).close [ none ↦ (a ∷ freed, s) | some end ↦ (a ∷ freed, end a s) ]
