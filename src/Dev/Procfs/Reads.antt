-- ===== src/Dev/Procfs/Reads.antt =====
-- Reading a node of procfs in pieces.
use ygg_kernel.Base.{
  Bool-cases, List, Option, [], ap, arith, drop, drop-add, drop_all, false, if◌then◌else◌, inl, inr,
  length, length-drop, ltb, none, refl, some, subst, suc, sym, take, take-add, take_all, true, zero,
  ℕ, ℕ_discrete, ◌%◌, ◌++◌, ◌+◌, ◌-◌, ◌/◌, ◌==◌, ◌^◌, ◌∙◌, ◌∷◌, ◌≡◌, ◌≢◌, ◌≤◌, ◌⊎◌,
}
use ygg_kernel.Dev.{Descriptor}
use ygg_kernel.Dev.Procfs.{Procfs, int_bytes, procfs_open, procfs_open_from, procfs_read}
use ygg_kernel.Text.{strcmp}
use ygg_kernel.Vfs.{minus_one}

-- A descriptor of the node at `a`, an int, of which `i` bytes are read.
pub record IsAt (p : Procfs) (a i : ℕ) (f : Descriptor) : Type 0 where
  pub node : f.fs_priv ≡ a
  pub valid : a ≢ 0
  pub int : (p.node_at a).flags % 256 ≡ 4
  pub pos : f.pos0 ≡ i
  pub left : f.pos1 ≡ 2 ^ 31 + (4 - i)
  pub small : i ≤ 4

-- Reads one after the other, and all the bytes that they give.
unfoldable pub read_pieces : Procfs → Descriptor → List ℕ → Option (List ℕ × Descriptor)
read_pieces p f [] = some ([], f)
read_pieces p f (lim ∷ lims) = elim (procfs_read p f lim) [
  | none ↦ none
  | some (res, bytes, f1) ↦ elim (read_pieces p f1 lims) [
    | none ↦ none
    | some (more, f2) ↦ some (bytes ++ more, f2)
  ]
]

abbrev pub total : List ℕ → ℕ
total [] = 0
total (n ∷ ns) = n + total ns

-- The bytes of the value.
abbrev pub value : Procfs → ℕ → List ℕ
value p a = int_bytes ((p.node_at a).get_int (p.node_at a).node_data)

-- The number of bytes that a read gives.
abbrev piece : ℕ → ℕ → ℕ
piece i lim = if ltb lim (4 - i) then lim else 4 - i

length-value : (p : Procfs) (a : ℕ) → length (value p a) ≡ 4
unfolding int_bytes
length-value p a = refl

-- What a read at byte `i` of the node at `a` gives.
abbrev NextPiece : Procfs → ℕ → ℕ → ℕ → Descriptor → Type 0
NextPiece p a i lim f =
    (res : ℕ) × (g : Descriptor) × (procfs_read p f lim
      ≡ some (res, take lim (drop i (value p a)), g))
    × IsAt p a (i + piece i lim) g

piece-cases : (i lim : ℕ) → (piece i lim ≡ lim) ⊎ ((piece i lim ≡ 4 - i) × (4 - i ≤ lim))
piece-cases i lim = elim (Bool-cases (ltb lim (4 - i))) [
  | inl less ↦ inl (ground (arith, less))
  | inr more ↦ inr (ground (arith, more), ground (arith, more))
]

take-piece :
    (p : Procfs) (a i lim : ℕ)
    → take (piece i lim) (drop i (value p a)) ≡ take lim (drop i (value p a))
take-piece p a i lim =
    let len = length-drop i (value p a) in
    let four = length-value p a in
    elim (piece-cases i lim) [
      | inl e ↦ rw e refl
      | inr (e, more) ↦ rw e (
          take_all (4 - i) (drop i (value p a)) (omega arith)
          ∙ sym (take_all lim (drop i (value p a)) (omega arith)))
    ]

-- A read at a descriptor's own place gives the next bytes, as many as are asked for and are left.
read-here :
    (p : Procfs) (lim : ℕ) (f : Descriptor)
    → IsAt p f.fs_priv f.pos0 f
    → NextPiece p f.fs_priv f.pos0 lim f
unfolding procfs_read
read-here p lim f h =
    let valid : (f.fs_priv == 0) ≡ false = ground (arith, h.valid) in
    let byte_left : f.pos1 % 256 ≡ 4 - f.pos0 = omega arith in
    let mark : (f.pos1 / 2 ^ 31 % 2 == 1) ≡ true = ground arith in
    let int : ((p.node_at f.fs_priv).flags % 256 == 4) ≡ true = ground (arith, h.int) in
    let n = piece f.pos0 lim in
    elim (ℕ_discrete n 0) [
      | yes e ↦
          let stop : (piece f.pos0 lim == 0) ≡ true = ground (arith, e) in
          let none_left : take lim (drop f.pos0 (value p f.fs_priv)) ≡ [] =
            sym (take-piece p f.fs_priv f.pos0 lim)
            ∙ ap (λ k. take k (drop f.pos0 (value p f.fs_priv))) e in
          let same : f.pos0 + piece f.pos0 lim ≡ f.pos0 = omega arith in
          (
            minus_one,
            f,
            rw (valid, byte_left, mark, stop, none_left) refl,
            subst (λ k. IsAt p f.fs_priv k f) (sym same) h,
          )
      | no ne ↦
          let go : (piece f.pos0 lim == 0) ≡ false = ground (arith, ne) in
          let inside : ltb 4 (f.pos0 + piece f.pos0 lim) ≡ false = ground (arith, h.small) in
          (
            piece f.pos0 lim,
            record f { pos1 = f.pos1 - piece f.pos0 lim; pos0 = f.pos0 + piece f.pos0 lim },
            rw (valid, byte_left, mark, go, int, inside)
                (ap
                  (λ b. some (
                    piece f.pos0 lim,
                    b,
                    record f { pos1 = f.pos1 - piece f.pos0 lim; pos0 = f.pos0 + piece f.pos0 lim },
                  ))
                  (take-piece p f.fs_priv f.pos0 lim)),
            record {
              node = refl;
              valid = h.valid;
              int = h.int;
              pos = refl;
              left = ground (arith, h.left, h.small);
              small = ground (arith, h.small);
            },
          )
    ]

read-IsAt : (p : Procfs) (a i lim : ℕ) (f : Descriptor) → IsAt p a i f → NextPiece p a i lim f
read-IsAt p a i lim f h =
    let own : IsAt p f.fs_priv f.pos0 f = record {
      node = refl;
      valid = λ e. h.valid (sym h.node ∙ e);
      int = subst (λ x. (p.node_at x).flags % 256 ≡ 4) (sym h.node) h.int;
      pos = refl;
      left = omega arith;
      small = omega arith;
    } in
    subst (λ x. NextPiece p x i lim f) h.node
      (subst (λ x. NextPiece p f.fs_priv x lim f) h.pos (read-here p lim f own))

pieces-join :
    (p : Procfs) (a i lim n : ℕ)
    → take lim (drop i (value p a)) ++ take n (drop (i + piece i lim) (value p a))
      ≡ take (lim + n) (drop i (value p a))
pieces-join p a i lim n =
    let d = drop i (value p a) in
    let len = length-drop i (value p a) in
    let four = length-value p a in
    let same : drop (i + piece i lim) (value p a) ≡ drop lim d = elim (piece-cases i lim) [
      | inl e ↦ rw e (drop-add i lim (value p a))
      | inr (e, more) ↦ rw e (
          drop-add i (4 - i) (value p a)
          ∙ drop_all (4 - i) d (omega arith)
          ∙ sym (drop_all lim d (omega arith)))
    ] in
    rw same (sym (take-add lim n d))

-- However the reads are cut, they give the first bytes of the value, as many as they ask for in all.
pub read_pieces-value :
    (p : Procfs) (a i : ℕ) (lims : List ℕ) (f : Descriptor)
    → IsAt p a i f
    → (g : Descriptor) × (read_pieces p f lims ≡ some (take (total lims) (drop i (value p a)), g))
unfolding read_pieces
read_pieces-value p a i [] f h = (f, refl)
read_pieces-value p a i (lim ∷ lims) f h =
    let (res, f1, e, h1) = read-IsAt p a i lim f h in
    let (g, rest) = read_pieces-value p a (i + piece i lim) lims f1 h1 in
    (g, rw (e, read_pieces, rest) (ap (λ b. some (b, g)) (pieces-join p a i lim (total lims))))

module _ (p : Procfs) (f : Descriptor) (path : List ℕ)
    (int : (x : ℕ) → x ≢ 0 → (p.node_at x).flags ≡ 4) where
  abbrev opened : ℕ → Descriptor
  opened a = record f { fs_priv = a; pos0 = 0; pos1 = (p.node_at a).flags % 256 + 2 ^ 31 }

  opened-IsAt : (a : ℕ) → a ≢ 0 → IsAt p a 0 (opened a)
  opened-IsAt a valid =
      let four = int a valid in
      record {
        node = refl;
        valid = valid;
        int = omega arith;
        pos = refl;
        left = omega arith;
        small = omega arith;
      }

  open_from-IsAt :
      (k a : ℕ) (g : Descriptor)
      → procfs_open_from k p a f path ≡ (0, g)
      → IsAt p g.fs_priv 0 g × (strcmp (p.node_at g.fs_priv).name path ≡ 0)
  unfolding procfs_open_from
  open_from-IsAt zero a g e = absurd (ground (arith, e))
  open_from-IsAt (suc k) a g e = elim (ℕ_discrete a 0) [
    | yes null ↦ absurd (ground (arith, e, null))
    | no valid ↦ elim (Bool-cases (strcmp (p.node_at a).name path == 0)) [
      | inr miss ↦ open_from-IsAt k (p.node_at a).next g (ground (arith, e, valid, miss))
      | inl hit ↦
          let on : (a == 0) ≡ false = ground (arith, valid) in
          let at = opened a in
          let ran : procfs_open_from (suc k) p a f path ≡ (0, at) = rw (on, hit) refl in
          subst (λ x. IsAt p x.fs_priv 0 x × (strcmp (p.node_at x.fs_priv).name path ≡ 0))
            (ap (λ r. r.1) (sym ran ∙ e)) (opened-IsAt a valid, ground (arith, hit))
    ]
  ]

  -- Where all nodes are ints, a file of procfs that opens is a node of that name, and however the
  -- reads of it are cut, they give the first bytes of its value, as many as they ask for in all.
  pub procfs_open-value :
      (k : ℕ) (lims : List ℕ) (g : Descriptor)
      → procfs_open k p f path ≡ (0, g)
      → (strcmp (p.node_at g.fs_priv).name path ≡ 0)
        × (h : Descriptor) × (read_pieces p g lims
            ≡ some (take (total lims) (value p g.fs_priv), h))
  unfolding procfs_open
  procfs_open-value k lims g e =
      let opened : procfs_open_from k p p.node_first f path ≡ (0, g) = ground (arith, e) in
      let (at, name) = open_from-IsAt k p.node_first g opened in
      let (h, ran) = read_pieces-value p g.fs_priv 0 lims g at in (name, h, ran)
