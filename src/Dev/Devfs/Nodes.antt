-- ===== src/Dev/Devfs/Nodes.antt =====
-- The nodes of devfs as a list of names and devices.
use ygg_kernel.Base.{
  Bool-cases, List, Option, [], ap, arith, drop, false, if◌then◌else◌, inl, inr, length, none, refl,
  some, subst, suc, sym, true, zero, ℕ, ℕ_discrete, ◌++◌, ◌+◌, ◌-◌, ◌<◌, ◌==◌, ◌∷◌, ◌≡◌, ◌≢◌,
}
use ygg_kernel.Dev.{Descriptor, dev_open}
use ygg_kernel.Dev.Devfs.{Devfs, Node, devfs_open, devfs_open_from}
use ygg_kernel.Task.Refresh.{Different, last_of}
use ygg_kernel.Text.{strcmp, strcpy, strlen, strncmp, tail}
use ygg_kernel.Text.Compare.{text}
use ygg_kernel.Text.Copy.{strcpy-copied}
use ygg_kernel.Vfs.{minus_one}

-- The nodes from `a` on are those at the addresses of the list, up to NULL.
unfoldable pub Chain : (ℕ → Node) → ℕ → List ℕ → Type 0
Chain mem a [] = a ≡ 0
Chain mem a (b ∷ l) = (a ≡ b) × ((b ≢ 0) × Chain mem (mem b).next l)

-- The last of the list, or 0.
abbrev pub last_or_null : List ℕ → ℕ
last_or_null [] = 0
last_or_null (b ∷ l) = last_of b l

-- The list of nodes is well formed and `last` is its last one.
pub record IsDevfs (d : Devfs) (l : List ℕ) : Type 0 where
  pub chain : Chain d.node_at d.nodes l
  pub last : d.last ≡ last_or_null l
  pub different : Different l

-- The names and devices of the nodes, in their order.
unfoldable pub entries : (ℕ → Node) → List ℕ → List (List ℕ × ℕ)
entries mem [] = []
entries mem (b ∷ l) = (text (mem b).name, (mem b).dev) ∷ entries mem l

-- The device of the first entry that has the name.
unfoldable pub first_dev : List (List ℕ × ℕ) → List ℕ → Option ℕ
first_dev [] path = none
first_dev ((name, dev) ∷ es) path =
    let rest = first_dev es path in if strcmp name path == 0 then some dev else rest

strncmp-text : (a b : List ℕ) (n : ℕ) → strncmp (text a) b n ≡ strncmp a b n
unfolding strncmp text
strncmp-text [] b n = refl
strncmp-text (c ∷ a) b n = ground (arith, strncmp-text a (tail b) (n - 1))

strcmp-text : (a b : List ℕ) → strcmp (text a) b ≡ strcmp a b
unfolding strcmp
strcmp-text a b = strncmp-text a b 0xFFFF_FFFF

text-append : (s r : List ℕ) → text (text s ++ (0 ∷ r)) ≡ text s
unfolding text
text-append [] r = refl
text-append (c ∷ s) r = elim (ℕ_discrete c 0) [
  | yes e ↦ let t : (c == 0) ≡ true = ground (arith, e) in rw t refl
  | no ne ↦
      let t : (c == 0) ≡ false = ground (arith, ne) in
      rw t (rw t (ap (λ x. c ∷ x) (text-append s r)))
]

pub text-strcpy : (dst src : List ℕ) → strlen src < length dst → text (strcpy dst src) ≡ text src
text-strcpy dst src h = rw (strcpy-copied dst src h) (text-append src (drop (strlen src + 1) dst))

module _ (d : Devfs) (f : Descriptor) (path : List ℕ) (flags : ℕ) where
  -- What devfs_open is meant to do with the device it finds.
  abbrev pub open_found : Option ℕ → Option (ℕ × Descriptor)
  open_found none = some (minus_one, f)
  open_found (some dev) = dev_open d.devices dev f flags

  open_from-first_dev :
      (k a : ℕ) (l : List ℕ)
      → Chain d.node_at a l
      → length l < k
      → devfs_open_from k d a f path flags ≡ open_found (first_dev (entries d.node_at l) path)
  unfolding devfs_open_from Chain first_dev entries
  open_from-first_dev zero a l c lt = absurd (omega arith)
  open_from-first_dev (suc k) a [] c lt = ground (arith, c)
  open_from-first_dev (suc k) a (b ∷ l) (e, (nz, c)) lt =
      let valid : (b == 0) ≡ false = ground (arith, nz) in
      let same = strcmp-text (d.node_at b).name path in
      subst
        (λ x.
          devfs_open_from (suc k) d x f path flags
          ≡ open_found (first_dev (entries d.node_at (b ∷ l)) path))
        (sym e)
        (elim (Bool-cases (strcmp (d.node_at b).name path == 0)) [
          | inl hit ↦ rw (valid, same, hit) refl
          | inr miss ↦
              rw (valid, same, miss) (open_from-first_dev k (d.node_at b).next l c (omega arith))
        ])

  -- With more rounds than nodes devfs_open opens the device of the first node that has the name, or
  -- returns -1 where none has it.
  pub devfs_open-first_dev :
      (k : ℕ) (l : List ℕ)
      → IsDevfs d l
      → length l < k
      → devfs_open k d f path flags ≡ open_found (first_dev (entries d.node_at l) path)
  unfolding devfs_open
  devfs_open-first_dev k l h lt = open_from-first_dev k d.nodes l h.chain lt
