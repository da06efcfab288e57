-- ===== src/Vfs/Table.antt =====
-- The table of mounts and the lookup of paths, sys/vfs.c. A path is a C string, behind whose end
-- memory reads as 0; `none` is a comparison that runs on behind the ends of the strings.
use ygg_kernel.Base.{
  Bool, List, Option, [], bit_and, drop, false, get_elem?, if◌then◌else◌, leb, length, ltb, none,
  some, suc, zero, ℕ, ◌&&◌, ◌++◌, ◌+◌, ◌-◌, ◌==◌, ◌||◌, ◌∷◌,
}
use ygg_kernel.Text.{byte, strchr, strchrnul, strcmp, strlen, strncmp, tail}
use ygg_kernel.Vfs.{File, Mount, minus_one}

-- The number of characters before the component's end.
abbrev pub component : List ℕ → ℕ
component p = strlen p - strlen (strchrnul p b'/')

-- The loop of vfs_components_match.
unfoldable pub match_from : ℕ → List ℕ → List ℕ → Option ℕ
match_from zero p0 p1 = none
match_from (suc k) p0 p1 =
    let rest = match_from k (drop (component p0 + 1) p0) (drop (component p1 + 1) p1) in
    if component p1 == component p0 && (strncmp p0 p1 (component p0) == 0)
    then elim rest [ none ↦ none | some n ↦ some (n + 1) ]
    else some 0

abbrev pub root : List ℕ
root = b'/' ∷ []

abbrev pub skip_slash : List ℕ → List ℕ
skip_slash p = if byte p == b'/' then tail p else p

-- vfs_components_match, with a round for each component of the first string.
unfoldable pub components_match : List ℕ → List ℕ → Option ℕ
unfolding match_from
components_match p0 p1 =
    if strcmp p1 root == 0
    then some 1
    else match_from (length p0 + 1) (skip_slash p0) (skip_slash p1)

-- `for (...) e = strchr(e, '/');`; `none` is NULL.
unfoldable pub advance : ℕ → List ℕ → Option (List ℕ)
advance zero e = some e
advance (suc n) e = elim (strchr e b'/') [ none ↦ none | some e' ↦ advance n e' ]

-- The variables of vfs_lookup_file.
pub record Best : Type 0 where
  pub lmatch : ℕ
  pub ismatchs : Bool
  pub mount : ℕ
  pub rel : Option (List ℕ)

-- The body of the loop behind the comparison with the whole path.
unfoldable pub better : List ℕ → ℕ → Mount → ℕ → Best → Best
unfolding advance
better path i m n best =
    let at_root = strcmp m.dst root == 0 in
    if ltb best.lmatch n || (leb best.lmatch n && best.ismatchs)
    then record {
      lmatch = n;
      ismatchs = at_root;
      mount = i;
      rel =
          if at_root
          then some (tail path)
          else elim (advance n (tail path)) [ none ↦ none | some e ↦ some (tail e) ];
    }
    else best

-- The loop of vfs_lookup_file over the used slots from slot `i` on.
unfoldable pub lookup_from : List ℕ → ℕ → List Mount → Best → Option Best
unfolding better components_match
lookup_from path i [] best = some best
lookup_from path i (m ∷ ms) best =
    let next : Option Best = elim (components_match path m.dst) [
      | none ↦ none
      | some n ↦ lookup_from path (i + 1) ms (better path i m n best)
    ] in
    if strcmp m.dst path == 0
    then some (record { lmatch = 10000; ismatchs = best.ismatchs; mount = i; rel = some [] })
    else next

-- vfs_lookup_file: the slot and the rest of the path; `some none` is the return value -1.
unfoldable pub lookup_file : List Mount → List ℕ → Option (Option (ℕ × Option (List ℕ)))
unfolding lookup_from
lookup_file ms path =
    elim (lookup_from path 0 ms (record { lmatch = 0; ismatchs = false; mount = 0; rel = none })) [
      | none ↦ none
      | some best ↦ some (if best.lmatch == 0 then none else some (best.mount, best.rel))
    ]

-- vfs_open, with the file system's open; `some none` is NULL.
unfoldable pub vfs_open :
    (ℕ → File → Option (List ℕ) → ℕ → Option File) → List Mount → List ℕ → ℕ → Option (Option File)
unfolding lookup_file
vfs_open fs_open ms path flags = elim (lookup_file ms path) [
  | none ↦ none
  | some none ↦ some none
  | some (some (i, rel)) ↦ elim (get_elem? ms i) [
    | none ↦ none
    | some m ↦ some (
        fs_open m.fs
          (record {
            flags = bit_and flags 3;
            task = 0;
            op_buf = false;
            op_res = 0;
            op_len = 0;
            op_type = 0;
            received = [];
          })
          rel flags)
  ]
]

-- The test whether a slot has the mount point `dst`.
unfoldable pub mounted : List Mount → List ℕ → Bool
mounted [] dst = false
mounted (m ∷ ms) dst = strcmp m.dst dst == 0 || mounted ms dst

-- vfs_mount: the return value and the used slots. `blkdev` is vfs_get_blkdev, `fs_mount` the file
-- system's operation, which may be missing.
unfoldable pub vfs_mount :
    (List ℕ → Option ℕ)
    → Option (Mount → ℕ)
    → Option (List ℕ)
    → List ℕ
    → ℕ
    → List Mount
    → ℕ × List Mount
unfolding mounted
vfs_mount blkdev fs_mount src dst fs ms =
    let add : Option ℕ → List ℕ → ℕ × List Mount = λ dev name.
      let m : Mount = record { fs = fs; srcdev = dev; src = name; dst = dst } in
      (
        elim fs_mount [ none ↦ 0 | some run ↦ run m ],
        if byte dst == 0 then ms else ms ++ (m ∷ []),
      ) in
    if mounted ms dst
    then (minus_one, ms)
    else if leb 16 (length ms)
    then (minus_one, ms)
    else elim src [
      | none ↦ add none []
      | some name ↦ elim (blkdev name) [ none ↦ (minus_one, ms) | some dev ↦ add (some dev) name ]
    ]
