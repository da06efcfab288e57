-- ===== src/Dev/Devfs/Listing.antt =====
-- Reading the directory of devfs to its end.
use ygg_kernel.Base.{
  List, Option, [], ap, arith, false, has_flag, if◌then◌else◌, length, none, refl, some, subst, suc,
  sym, true, zero, ℕ, ◌<◌, ◌==◌, ◌∷◌, ◌≡◌, ◌≢◌,
}
use ygg_kernel.Dev.{Descriptor, flg_chr}
use ygg_kernel.Dev.Devfs.{Devfs, devfs_opendir, devfs_readdir, dt_blk, dt_chr}
use ygg_kernel.Dev.Devfs.Nodes.{Chain, IsDevfs, text-strcpy}
use ygg_kernel.Initrd.Directory.{Dirent}
use ygg_kernel.Text.{strcpy, strlen}
use ygg_kernel.Text.Compare.{text}
use ygg_kernel.Vfs.{minus_one}

-- devfs_readdir until it returns something else than 0, each time into an entry like `ent`; the names
-- and types, on fuel. `none` is a failed assertion or the end of the fuel.
unfoldable pub read_all : ℕ → Devfs → Descriptor → Dirent → Option (List (List ℕ × ℕ))
unfolding devfs_readdir
read_all zero d dir ent = none
read_all (suc k) d dir ent = elim (devfs_readdir d dir ent) [
  | none ↦ none
  | some (res, dir1, got) ↦
      let rest : Option (List (List ℕ × ℕ)) = elim (read_all k d dir1 ent) [
        | none ↦ none
        | some es ↦ some ((text got.d_name, got.d_type) ∷ es)
      ] in
      if res == 0 then rest else some []
]

-- What the directory has to show.
unfoldable pub shown : Devfs → List ℕ → List (List ℕ × ℕ)
shown d [] = []
shown d (b ∷ l) =
    let node = d.node_at b in
    (text node.name, if has_flag (d.devices node.dev).flags flg_chr then dt_chr else dt_blk)
    ∷ shown d l

-- Every node has a device and a name that fits.
unfoldable pub CanShow : Devfs → ℕ → List ℕ → Type 0
CanShow d room [] = Unit
CanShow d room (b ∷ l) =
    ((d.node_at b).dev ≢ 0) × (strlen (d.node_at b).name < room) × CanShow d room l

module _ (d : Devfs) (ent : Dirent) where
  -- The entry of a node, and the descriptor behind it.
  abbrev shown_entry : ℕ → Dirent
  shown_entry b = record {
    d_name = strcpy ent.d_name (d.node_at b).name;
    d_type = if has_flag (d.devices (d.node_at b).dev).flags flg_chr then dt_chr else dt_blk;
  }

  abbrev behind_node : ℕ → Descriptor → Descriptor
  behind_node b dir = record dir { dev_priv = (d.node_at b).next }

  readdir-end :
      (dir : Descriptor) → dir.dev_priv ≡ 0 → devfs_readdir d dir ent ≡ some (minus_one, dir, ent)
  unfolding devfs_readdir
  readdir-end dir e = let over : (dir.dev_priv == 0) ≡ true = ground (arith, e) in rw over refl

  readdir-node :
      (dir : Descriptor) (b : ℕ)
      → dir.dev_priv ≡ b
      → b ≢ 0
      → (d.node_at b).dev ≢ 0
      → devfs_readdir d dir ent ≡ some (0, behind_node b dir, shown_entry b)
  unfolding devfs_readdir
  readdir-node dir b e nz dev =
      let valid : (dir.dev_priv == 0) ≡ false = ground (arith, e, nz) in
      let device : ((d.node_at b).dev == 0) ≡ false = ground (arith, dev) in
      let there : ((d.node_at dir.dev_priv).dev == 0) ≡ false =
        subst (λ x. ((d.node_at x).dev == 0) ≡ false) (sym e) device in
      rw (valid, there) (ap (λ x. some (0, behind_node x dir, shown_entry x)) e)

  read_all-shown :
      (k : ℕ) (dir : Descriptor) (l : List ℕ)
      → Chain d.node_at dir.dev_priv l
      → CanShow d (length ent.d_name) l
      → length l < k
      → read_all k d dir ent ≡ some (shown d l)
  unfolding read_all Chain CanShow shown
  read_all-shown zero dir l c h lt = absurd (omega arith)
  read_all-shown (suc k) dir [] c h lt = rw (readdir-end dir c, read_all) refl
  read_all-shown (suc k) dir (b ∷ l) (e, (nz, c)) (dev, room, h) lt =
      let rest = read_all-shown k (behind_node b dir) l c h (omega arith) in
      let name = text-strcpy ent.d_name (d.node_at b).name room in
      rw (readdir-node dir b e nz dev, read_all, rest, name) refl

-- Where every node has a device and a name that fits into an entry, the directory, opened at its
-- root and read to its end, shows every node once, in the order of the list, with its name and the
-- type of its device, and ends within one read more than there are nodes.
pub devfs_opendir-shown :
    (d : Devfs) (dir : Descriptor) (ent : Dirent) (k : ℕ) (l : List ℕ)
    → IsDevfs d l
    → CanShow d (length ent.d_name) l
    → length l < k
    → read_all k d (devfs_opendir d dir []).1 ent ≡ some (shown d l)
unfolding devfs_opendir
devfs_opendir-shown d dir ent k l h c lt =
    read_all-shown d ent k (record dir { dev_priv = d.nodes }) l h.chain c lt
