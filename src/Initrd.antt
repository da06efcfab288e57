-- ===== src/Initrd.antt =====
-- The file system in the initial ramdisk, a tar archive: dev/initrd.c. The archive is the family of
-- its 512-byte blocks; where one is read as a header, its fields are those of a Header. Positions are
-- block numbers relative to the start of the archive. Characters are below 128.
use ygg_kernel.Base.{
  Bool, List, Option, [], align_up, bit_or, false, if◌then◌else◌, ltb, none, some, sub32, suc, zero,
  ℕ, ◌%◌, ◌&&◌, ◌*◌, ◌+◌, ◌-◌, ◌/◌, ◌==◌, ◌^◌, ◌||◌, ◌∷◌,
}
use ygg_kernel.Text.{byte, strncmp, tail}
pub mod Directory
pub mod Find
pub mod Read
pub mod Tests

-- tar_t: the fields that are used, as C strings.
pub record Header : Type 0 where
  pub name : List ℕ
  pub size : List ℕ
  pub typeflag : ℕ
  pub magic_text : List ℕ

-- tar_type_t
abbrev pub tar_file : ℕ
tar_file = 0

abbrev pub tar_dir : ℕ
tar_dir = 5

abbrev pub tar_undef : ℕ
tar_undef = 7

-- tar_oct2u32, the loop with the value so far: shifting and joining 32-bit numbers. A character
-- below '0' is a negative number.
unfoldable pub oct_from : ℕ → List ℕ → ℕ → ℕ
oct_from zero oct r = r
oct_from (suc n) oct r =
    let digit = bit_or (r * 8 % 2 ^ 32) (sub32 (byte oct) b'0') in
    oct_from n (tail oct) (if byte oct == 0 then r else digit)

unfoldable pub oct2u32 : List ℕ → ℕ → ℕ
unfolding oct_from
oct2u32 oct n = oct_from n oct 0

-- tar_is_ustar
unfoldable pub is_ustar : Header → Bool
is_ustar h = strncmp h.magic_text (b'u' ∷ b's' ∷ b't' ∷ b'a' ∷ b'r' ∷ []) 5 == 0

-- The loop of tar_type over the 100 bytes of the name: a slash at the end or in front of a zero.
unfoldable pub ends_in_slash : ℕ → List ℕ → Bool
ends_in_slash zero name = false
ends_in_slash (suc n) name =
    byte name == b'/' && (n == 0 || (byte (tail name) == 0)) || ends_in_slash n (tail name)

-- tar_type; a type below '0' gives a negative number, which is neither a file nor a directory.
unfoldable pub tar_type : Header → Bool → ℕ
unfolding ends_in_slash
tar_type h ustar =
    if ustar
    then (if h.typeflag == 0
        then tar_file
        else if ltb h.typeflag (b'0' + 7)
        then sub32 h.typeflag b'0'
        else tar_undef)
    else if ends_in_slash 100 h.name
    then tar_dir
    else tar_file

-- The number of blocks of a file's contents.
unfoldable pub blocks_of : Header → ℕ
unfolding oct2u32
blocks_of h = align_up (oct2u32 h.size 12) 512 / 512

-- The step to the header behind: a file's contents are skipped.
unfoldable pub stride : Header → ℕ
unfolding tar_type is_ustar blocks_of
stride h = if tar_type h (is_ustar h) == tar_file then blocks_of h + 1 else 1

-- The result of a search: the place of the header, MM_NADDR, or the end of the fuel.
pub data Found : Type 0 where
  at : ℕ → Found
  missing : Found
  cut : Found

-- A file whose name is `name`.
unfoldable pub is_file_named : List ℕ → Header → Bool
unfolding tar_type is_ustar
is_file_named name h = tar_type h (is_ustar h) == tar_file && (strncmp h.name name 100 == 0)

-- initrd_find_file from the block `it` on; `zb` is whether the block before was empty.
unfoldable pub find_from : ℕ → (ℕ → Header) → List ℕ → ℕ → Bool → Found
find_from zero blocks name it zb = cut
find_from (suc k) blocks name it zb =
    let h = blocks it in
    let empty = byte h.name == 0 in
    let rest = find_from k blocks name (it + (if empty then 1 else stride h)) empty in
    if empty then (if zb then missing else rest) else if is_file_named name h then at it else rest

unfoldable pub find_file : ℕ → (ℕ → Header) → List ℕ → Found
unfolding find_from
find_file fuel blocks name = find_from fuel blocks name 0 false

-- The fields of a vfs_file_t that the file system uses: a place in memory and the bytes left.
pub record Open : Type 0 where
  pub pos0 : ℕ
  pub pos1 : ℕ

-- initramfs_open, for an archive at the address `base`; `none` is the return value -1 or the end of
-- the fuel.
unfoldable pub initramfs_open : ℕ → ℕ → (ℕ → Header) → List ℕ → Option Open
unfolding find_file
initramfs_open fuel base blocks path = elim (find_file fuel blocks path) [
  | at i ↦ some (record { pos0 = base + (i + 1) * 512; pos1 = oct2u32 (blocks i).size 12 })
  | missing ↦ none
  | cut ↦ none
]

-- The `n` bytes at an address.
unfoldable pub bytes_at : (ℕ → ℕ) → ℕ → ℕ → List ℕ
bytes_at mem a zero = []
bytes_at mem a (suc n) = mem a ∷ bytes_at mem (a + 1) n

-- initramfs_read: the bytes that it copies, whose number it returns, and the file.
unfoldable pub initramfs_read : (ℕ → ℕ) → Open → ℕ → List ℕ × Open
unfolding bytes_at
initramfs_read mem f len =
    let l = if ltb f.pos1 len then f.pos1 else len in
    (bytes_at mem f.pos0 l, record { pos0 = f.pos0 + l; pos1 = f.pos1 - l })

-- The VFS_FACT_GETM action of initramfs_fact: the address of the contents.
unfoldable pub getm : ℕ → ℕ → (ℕ → Header) → List ℕ → Option ℕ
unfolding find_file
getm fuel base blocks path = elim (find_file fuel blocks path) [
  | at i ↦ some (base + i * 512 + 512)
  | missing ↦ none
  | cut ↦ none
]
