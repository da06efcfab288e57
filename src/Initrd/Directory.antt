-- ===== src/Initrd/Directory.antt =====
-- Listing a directory of the archive, initramfs_readdir of dev/initrd.c.
use ygg_kernel.Base.{
  Bool, List, Option, [], drop, if◌then◌else◌, none, not, some, suc, zero, ℕ, ◌&&◌, ◌+◌, ◌==◌, ◌∷◌,
}
use ygg_kernel.Initrd.{Found, Header, at, blocks_of, cut, is_ustar, missing, tar_file, tar_type}
use ygg_kernel.Text.{byte, strlen, strncmp}

-- The slashes of a path, and those that something follows.
unfoldable pub slashes : List ℕ → ℕ
slashes [] = 0
slashes (c ∷ s) = let rest = slashes s in if c == 0 then 0 else if c == b'/' then rest + 1 else rest

unfoldable pub inner_slashes : List ℕ → ℕ
inner_slashes [] = 0
inner_slashes (c ∷ s) =
    let rest = inner_slashes s in
    if c == 0 then 0 else if c == b'/' && not (byte s == 0) then rest + 1 else rest

-- initramfs_check_path_match, as a test.
unfoldable pub path_match : List ℕ → List ℕ → Bool
unfolding slashes inner_slashes
path_match p0 p1 =
    strncmp p0 p1 (strlen p0) == 0
    && ((if byte p0 == 0 then 0 else 1) + slashes p0 == inner_slashes p1)

-- The search loop of initramfs_readdir from the header at `it`; `ustar` is that of the first one.
unfoldable pub scan : ℕ → (ℕ → Header) → List ℕ → Bool → ℕ → Found
unfolding path_match tar_type blocks_of
scan zero blocks dir ustar it = cut
scan (suc k) blocks dir ustar it =
    let h = blocks it in
    let it' = it + 1 + (if tar_type h ustar == tar_file then blocks_of h else 0) in
    let rest = scan k blocks dir ustar it' in
    if path_match dir h.name then at it else if byte (blocks it').name == 0 then missing else rest

-- vfs_dirent_t
pub record Dirent : Type 0 where
  pub d_name : List ℕ
  pub d_type : ℕ

abbrev pub dt_dir : ℕ
dt_dir = 4

abbrev pub dt_reg : ℕ
dt_reg = 8

-- The place behind an entry, `none` for MM_NADDR.
unfoldable pub behind : (ℕ → Header) → Bool → ℕ → Option ℕ
unfolding tar_type blocks_of
behind blocks ustar it =
    let next = it + 1 + blocks_of (blocks it) in
    if tar_type (blocks it) ustar == tar_file
    then (if byte (blocks next).name == 0
        then (if byte (blocks (next + 1)).name == 0 then none else some (next + 1))
        else some next)
    else some (it + 1)

-- initramfs_readdir of the directory `dir` at the place `pos`: the entry, `none` for the return
-- value -1, and the new place. The whole is `none` at the end of the fuel.
unfoldable pub initramfs_readdir :
    ℕ → (ℕ → Header) → List ℕ → Option ℕ → Option (Option Dirent × Option ℕ)
unfolding scan behind tar_type
initramfs_readdir fuel blocks dir none = some (none, none)
initramfs_readdir fuel blocks dir (some pos) =
    let ustar = is_ustar (blocks pos) in
    elim (scan fuel blocks dir ustar pos) [
      | cut ↦ none
      | missing ↦ some (none, none)
      | at it ↦ some (
        some (record {
          d_name = drop (if byte dir == 0 then 0 else strlen dir + 1) (blocks it).name;
          d_type = if tar_type (blocks it) ustar == tar_file then dt_reg else dt_dir;
        }),
        behind blocks ustar it,
      )
    ]
