-- ===== src/Dev/Devfs/Add.antt =====
-- devfs_add puts the new node behind all others.
use ygg_kernel.Base.{
  List, [], ap, arith, false, length, refl, some, subst, sym, true, update, update-eq, update-ne, ℕ,
  ℕ_discrete, ◌++◌, ◌<◌, ◌==◌, ◌∙◌, ◌∷◌, ◌≡◌, ◌≢◌,
}
use ygg_kernel.Dev.Devfs.{Devfs, Node, devfs_add}
use ygg_kernel.Dev.Devfs.Nodes.{Chain, IsDevfs, entries, text-strcpy}
use ygg_kernel.Task.Refresh.{Different, last_of}
use ygg_kernel.Task.Select.{Without}
use ygg_kernel.Text.{strcpy, strlen}
use ygg_kernel.Text.Compare.{text}

last_of-ne : (b c : ℕ) (l : List ℕ) → Without b (c ∷ l) → last_of c l ≢ b
unfolding Without last_of
last_of-ne b c [] w = w.0
last_of-ne b c (x ∷ l) w = last_of-ne b x l w.1

last_of-append : (b a : ℕ) (l : List ℕ) → last_of b (l ++ (a ∷ [])) ≡ a
unfolding last_of
last_of-append b a [] = refl
last_of-append b a (c ∷ l) = last_of-append c a l

last_of-valid : (mem : ℕ → Node) (h b : ℕ) (l : List ℕ) → Chain mem h (b ∷ l) → last_of b l ≢ 0
unfolding Chain last_of
last_of-valid mem h b [] c = c.1.0
last_of-valid mem h b (x ∷ l) c = last_of-valid mem (mem b).next x l c.1.1

Without-append : (a b : ℕ) (l : List ℕ) → Without b l → a ≢ b → Without b (l ++ (a ∷ []))
unfolding Without
Without-append a b [] w ne = (ne, tt)
Without-append a b (x ∷ l) w ne = (w.0, Without-append a b l w.1 ne)

Different-append : (a : ℕ) (l : List ℕ) → Different l → Without a l → Different (l ++ (a ∷ []))
unfolding Different Without
Different-append a [] d w = (tt, tt)
Different-append a (b ∷ l) d w =
    (Without-append a b l d.0 (λ e. w.0 (sym e)), Different-append a l d.1 w.1)

-- Two stores that differ in the link of one node and in a node that is not listed.
module _ (mem n : ℕ → Node) (a t : ℕ) (valid : a ≢ 0) (at : (n t).next ≡ a) (end : (n a).next ≡ 0)
    (same : (x : ℕ) → x ≢ t → x ≢ a → (n x).next ≡ (mem x).next) where
  Chain-append :
      (h b : ℕ) (l : List ℕ)
      → last_of b l ≡ t
      → Different (b ∷ l)
      → Without a (b ∷ l)
      → Chain mem h (b ∷ l)
      → Chain n h ((b ∷ l) ++ (a ∷ []))
  unfolding Chain last_of Different Without
  Chain-append h b [] e d w c =
      (c.0, (c.1.0, (subst (λ x. (n x).next ≡ a) (sym e) at, (valid, end))))
  Chain-append h b (x ∷ l) e d w c =
      let ne : b ≢ t = λ q. last_of-ne b x l d.0 (e ∙ sym q) in
      let rest = Chain-append (mem b).next x l e d.1 w.1 c.1.1 in
      (c.0, (c.1.0, subst (λ q. Chain n q ((x ∷ l) ++ (a ∷ []))) (sym (same b ne w.0)) rest))

entries-append :
    (mem n : ℕ → Node) (a : ℕ) (name : List ℕ) (dev : ℕ) (l : List ℕ)
    → text (n a).name ≡ name
    → (n a).dev ≡ dev
    → ((x : ℕ) → x ≢ a → ((n x).name ≡ (mem x).name) × ((n x).dev ≡ (mem x).dev))
    → Without a l
    → entries n (l ++ (a ∷ [])) ≡ entries mem l ++ ((name, dev) ∷ [])
unfolding entries Without
entries-append mem n a name dev [] e f same w = rw (e, f) refl
entries-append mem n a name dev (b ∷ l) e f same w =
    let (g, h) = same b w.0 in rw (g, h, entries-append mem n a name dev l e f same w.1) refl

-- The node that devfs_add fills, and the stores with it and with the link to it.
abbrev made_node : ℕ → ℕ → List ℕ → ℕ → Devfs → Node
made_node a dev p param d = record {
  dev = dev;
  dev_param = param;
  name = strcpy (d.node_at a).name p;
  next = 0;
}

module _ (a dev : ℕ) (p : List ℕ) (param : ℕ) (d : Devfs) where
  abbrev filled : ℕ → Node
  filled = update d.node_at a (made_node a dev p param d)

  abbrev linked : ℕ → Node
  linked = update filled d.last (record (filled d.last) { next = a })

  filled-new : filled a ≡ made_node a dev p param d
  filled-new = update-eq d.node_at a (made_node a dev p param d)

  filled-old : (x : ℕ) → x ≢ a → filled x ≡ d.node_at x
  filled-old x ne = update-ne d.node_at a (made_node a dev p param d) x (λ e. ne (sym e))

  linked-last : linked d.last ≡ record (filled d.last) { next = a }
  linked-last = update-eq filled d.last (record (filled d.last) { next = a })

  linked-other : (x : ℕ) → x ≢ d.last → linked x ≡ filled x
  linked-other x ne =
      update-ne filled d.last (record (filled d.last) { next = a }) x (λ e. ne (sym e))

  abbrev relinked : Node → Node
  relinked v = record v { next = a }

  linked-same :
      (x : ℕ)
      → x ≢ a
      → ((linked x).name ≡ (d.node_at x).name) × ((linked x).dev ≡ (d.node_at x).dev)
  linked-same x ne =
      let kept = filled-old x ne in
      elim (ℕ_discrete x d.last) [
        | no other ↦ rw (linked-other x other, kept) (refl, refl)
        | yes e ↦
            let old : filled d.last ≡ d.node_at x = subst (λ y. filled y ≡ d.node_at x) e kept in
            let at : linked x ≡ relinked (d.node_at x) =
              ap linked e ∙ linked-last ∙ ap (λ v. relinked v) old in
            rw at (refl, refl)
      ]

  linked-IsDevfs :
      (b : ℕ) (l : List ℕ)
      → IsDevfs d (b ∷ l)
      → a ≢ 0
      → Without a (b ∷ l)
      → IsDevfs (record d { node_at = linked; last = a }) ((b ∷ l) ++ (a ∷ []))
  linked-IsDevfs b l h valid w =
      let other : a ≢ d.last = λ e. last_of-ne a b l w (sym (e ∙ h.last)) in
      record {
        chain =
            Chain-append d.node_at linked a d.last valid (ap (λ v. v.next) linked-last)
              (ap (λ v. v.next) (linked-other a other ∙ filled-new))
              (λ x ne na. ap (λ v. v.next) (linked-other x ne ∙ filled-old x na)) d.nodes b l
              (sym h.last) h.different w h.chain;
        last = sym (last_of-append b a l);
        different = Different-append a (b ∷ l) h.different w;
      }

-- A node that is not in the list, with room for the name, is put behind all others: the list stays
-- well formed, and the list of names and devices is longer by the new name with its device.
pub devfs_add-entries :
    (a dev : ℕ) (p : List ℕ) (param : ℕ) (d : Devfs) (l : List ℕ)
    → IsDevfs d l
    → a ≢ 0
    → Without a l
    → strlen p < length (d.node_at a).name
    → (e : Devfs) × (devfs_add a dev p param d ≡ some e)
      × IsDevfs e (l ++ (a ∷ []))
      × (entries e.node_at (l ++ (a ∷ [])) ≡ entries d.node_at l ++ ((text p, dev) ∷ []))
      × (e.devices ≡ d.devices)
unfolding devfs_add Chain Different Without entries last_of
devfs_add-entries a dev p param d [] h valid w room =
    let e : Devfs = record d { node_at = filled a dev p param d; nodes = a; last = a } in
    let on : (a == 0) ≡ false = ground (arith, valid) in
    let first : (d.last == 0) ≡ true = ground (arith, h.last) in
    let new = filled-new a dev p param d in
    (
      e,
      rw (on, first) refl,
      record { chain = (refl, (valid, ap (λ v. v.next) new)); last = refl; different = (tt, tt) },
      rw (new, text-strcpy (d.node_at a).name p room) refl,
      refl,
    )
devfs_add-entries a dev p param d (b ∷ l) h valid w room =
    let e : Devfs = record d { node_at = linked a dev p param d; last = a } in
    let on : (a == 0) ≡ false = ground (arith, valid) in
    let last : d.last ≢ 0 = λ q. last_of-valid d.node_at d.nodes b l h.chain (sym h.last ∙ q) in
    let more : (d.last == 0) ≡ false = ground (arith, last) in
    let other : a ≢ d.last = λ q. last_of-ne a b l w (sym (q ∙ h.last)) in
    let new = linked-other a dev p param d a other ∙ filled-new a dev p param d in
    (
      e,
      rw (on, more) refl,
      linked-IsDevfs a dev p param d b l h valid w,
      entries-append d.node_at (linked a dev p param d) a (text p) dev (b ∷ l)
          (ap (λ v. text v.name) new ∙ text-strcpy (d.node_at a).name p room) (ap (λ v. v.dev) new)
          (linked-same a dev p param d) w,
      refl,
    )
