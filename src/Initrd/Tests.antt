-- ===== src/Initrd/Tests.antt =====
-- The initial ramdisk at concrete inputs: an archive with a directory and a file.
use ygg_kernel.Base.{
  List, [], arith, if◌then◌else◌, min, refl, some, ℕ, ◌%◌, ◌+◌, ◌-◌, ◌==◌, ◌∷◌, ◌≡◌,
}
use ygg_kernel.Initrd.{
  Header, Open, blocks_of, bytes_at, ends_in_slash, find_file, find_from, initramfs_open,
  is_file_named, is_ustar, oct2u32, oct_from, stride, tar_type,
}
use ygg_kernel.Initrd.Find.{Archive, find_file-first_file, first_file}
use ygg_kernel.Initrd.Read.{read_all, read_all-bytes_at, sum}
use ygg_kernel.Text.{strncmp}

abbrev ustar : List ℕ
ustar = b'u' ∷ b's' ∷ b't' ∷ b'a' ∷ b'r' ∷ []

abbrev folder : Header
folder = record { name = b'd' ∷ b'/' ∷ []; size = []; typeflag = b'5'; magic_text = ustar }

abbrev program : Header
program = record {
  name = b'd' ∷ b'/' ∷ b'f' ∷ [];
  size = b'0' ∷ b'1' ∷ b'1' ∷ b'0' ∷ b'4' ∷ [];
  typeflag = b'0';
  magic_text = ustar;
}

abbrev nothing : Header
nothing = record { name = []; size = []; typeflag = 0; magic_text = [] }

abbrev archive : ℕ → Header
archive i = if i == 0 then folder else if i == 1 then program else nothing

archive-Archive : Archive archive 0 (folder ∷ program ∷ [])
unfolding Archive stride tar_type is_ustar blocks_of oct2u32 oct_from strncmp ends_in_slash
archive-Archive = (refl, omega arith, (refl, omega arith, (refl, refl)))

find_file-first_file_example :
    find_file 4 archive (b'd' ∷ b'/' ∷ b'f' ∷ [])
    ≡ first_file (b'd' ∷ b'/' ∷ b'f' ∷ []) 0 (folder ∷ program ∷ [])
find_file-first_file_example =
    find_file-first_file 4 archive (b'd' ∷ b'/' ∷ b'f' ∷ []) (folder ∷ program ∷ []) (omega arith)
      archive-Archive

abbrev opened : Open
opened = record { pos0 = 1024; pos1 = 580 }

open_test : initramfs_open 4 0 archive (b'd' ∷ b'/' ∷ b'f' ∷ []) ≡ some opened
unfolding initramfs_open find_file find_from stride tar_type is_ustar blocks_of oct2u32 oct_from
    strncmp ends_in_slash is_file_named
open_test = refl

abbrev two_reads : List ℕ
two_reads = 2 ∷ 3 ∷ []

read_all-bytes_at_example : read_all (λ a. a % 256) opened (2 ∷ 3 ∷ []) ≡ (
  bytes_at (λ a. a % 256) opened.pos0 (min (sum (2 ∷ 3 ∷ [])) opened.pos1),
  record {
    pos0 = opened.pos0 + min (sum (2 ∷ 3 ∷ [])) opened.pos1;
    pos1 = opened.pos1 - min (sum (2 ∷ 3 ∷ [])) opened.pos1;
  },
)
read_all-bytes_at_example = read_all-bytes_at (λ a. a % 256) opened (2 ∷ 3 ∷ [])
