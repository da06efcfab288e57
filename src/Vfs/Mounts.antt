-- ===== src/Vfs/Mounts.antt =====
-- The table of mounts.
use ygg_kernel.Base.{
  Bool-cases, List, Option, Option-cases, [], arith, false, if◌then◌else◌, inl, inr, leb, length,
  length-append, none, refl, some, sym, ℕ, ◌++◌, ◌<◌, ◌==◌, ◌∷◌, ◌≡◌, ◌≤◌,
}
use ygg_kernel.Text.{byte, strcmp, strlen}
use ygg_kernel.Text.Compare.{strcmp_iff}
use ygg_kernel.Vfs.{Mount}
use ygg_kernel.Vfs.Table.{mounted, vfs_mount}

-- No two slots have the same mount point, and the table is not overfull.
unfoldable pub Distinct : List Mount → Type 0
Distinct [] = Unit
Distinct (m ∷ ms) = (mounted ms m.dst ≡ false) × Distinct ms

-- The mount points fit into the table's fields.
unfoldable pub Short : List Mount → Type 0
Short [] = Unit
Short (m ∷ ms) = (strlen m.dst < 256) × Short ms

-- A table of mounts as it should be: distinct mount points that fit, and no more than it has room for.
unfoldable pub WellFormed : List Mount → Type 0
WellFormed ms = Distinct ms × Short ms × (length ms ≤ 16)

strcmp-sym :
    (a b : List ℕ)
    → strlen a < 256
    → strlen b < 256
    → (strcmp a b == 0) ≡ false
    → (strcmp b a == 0) ≡ false
strcmp-sym a b ha hb h = elim (Bool-cases (strcmp b a == 0)) [
  | inr other ↦ other
  | inl same ↦
      let e = (strcmp_iff b a (omega arith) (omega arith)).0 (ground (arith, same)) in
      absurd (ground (arith, h, (strcmp_iff a b (omega arith) (omega arith)).1 (sym e)))
]

mounted-append :
    (ms : List Mount) (m : Mount) (dst : List ℕ)
    → mounted ms dst ≡ false
    → (strcmp m.dst dst == 0) ≡ false
    → mounted (ms ++ m ∷ []) dst ≡ false
unfolding mounted
mounted-append [] m dst h e = ground (arith, e)
mounted-append (a ∷ ms) m dst h e =
    let ih = mounted-append ms m dst (ground (arith, h)) e in ground (arith, h, ih)

Distinct-append :
    (ms : List Mount) (m : Mount)
    → Distinct ms
    → Short ms
    → strlen m.dst < 256
    → mounted ms m.dst ≡ false
    → Distinct (ms ++ m ∷ [])
unfolding Distinct Short mounted
Distinct-append [] m d s lt h = (refl, tt)
Distinct-append (a ∷ ms) m (new, d) (la, s) lt h =
    let other : (strcmp a.dst m.dst == 0) ≡ false = ground (arith, h) in
    let none_of : mounted ms m.dst ≡ false = ground (arith, h) in
    (
      mounted-append ms m a.dst new (strcmp-sym a.dst m.dst la lt other),
      Distinct-append ms m d s lt none_of,
    )

Short-append : (ms : List Mount) (m : Mount) → Short ms → strlen m.dst < 256 → Short (ms ++ m ∷ [])
unfolding Short
Short-append [] m s lt = (lt, tt)
Short-append (a ∷ ms) m (la, s) lt = (la, Short-append ms m s lt)

WellFormed-append :
    (ms : List Mount) (m : Mount)
    → WellFormed ms
    → strlen m.dst < 256
    → mounted ms m.dst ≡ false
    → leb 16 (length ms) ≡ false
    → WellFormed (ms ++ m ∷ [])
unfolding WellFormed
WellFormed-append ms m (d, s, l) lt new room =
    let room' : length ms < 16 = ground (arith, room) in
    (
      Distinct-append ms m d s lt new,
      Short-append ms m s lt,
      omega (arith, length-append ms (m ∷ []), room'),
    )

added :
    (ms : List Mount) (fs : ℕ) (dev : Option ℕ) (name dst : List ℕ)
    → WellFormed ms
    → strlen dst < 256
    → mounted ms dst ≡ false
    → leb 16 (length ms) ≡ false
    → WellFormed (
        if byte dst == 0
        then ms
        else ms ++ (record { fs = fs; srcdev = dev; src = name; dst = dst } ∷ []))
added ms fs dev name dst h lt new room = elim (Bool-cases (byte dst == 0)) [
  | inl empty ↦ rw empty h
  | inr path ↦
      rw path (
        WellFormed-append ms (record { fs = fs; srcdev = dev; src = name; dst = dst }) h lt new
          room)
]

-- A call of vfs_mount with a mount point of less than 256 bytes keeps the table of mounts well formed,
-- whether it succeeds or not.
pub vfs_mount-WellFormed :
    (blkdev : List ℕ → Option ℕ) (fs_mount : Option (Mount → ℕ)) (src : Option (List ℕ))
    (dst : List ℕ) (fs : ℕ) (ms : List Mount)
    → WellFormed ms
    → strlen dst < 256
    → WellFormed (vfs_mount blkdev fs_mount src dst fs ms).1
unfolding vfs_mount
vfs_mount-WellFormed blkdev fs_mount none dst fs ms h lt = elim (Bool-cases (mounted ms dst)) [
  | inl there ↦ rw there h
  | inr new ↦ elim (Bool-cases (leb 16 (length ms))) [
    | inl full ↦ rw (new, full) h
    | inr room ↦ rw (new, room) (added ms fs none [] dst h lt new room)
  ]
]
vfs_mount-WellFormed blkdev fs_mount (some name) dst fs ms h lt =
    elim (Bool-cases (mounted ms dst)) [
      | inl there ↦ rw there h
      | inr new ↦ elim (Bool-cases (leb 16 (length ms))) [
        | inl full ↦ rw (new, full) h
        | inr room ↦ elim (Option-cases (blkdev name)) [
          | inl no_device ↦ rw (new, room, no_device) h
          | inr (dev, device) ↦
              rw (new, room, device) (added ms fs (some dev) name dst h lt new room)
        ]
      ]
    ]
