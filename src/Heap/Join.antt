-- ===== src/Heap/Join.antt =====
-- The joins of a freed block with its neighbours, heap_free_single of sys/heap.c.
use ygg_kernel.Base.{
  Bool, Bool-cases, add32, ap, arith, false, has_flag, if◌then◌else◌, inl, inr, not, refl, true, ℕ,
  ◌&&◌, ◌<◌, ◌==◌, ◌∙◌, ◌≡◌, ◌≢◌, ◌⊎◌,
}
use ygg_kernel.Heap.{Block, Memory, flg_used, header, join_next, join_prev, magic}

-- The neighbour at `a`, if there is one, is free.
abbrev pub joinable : Block → ℕ → Bool
joinable v a = not (a == 0) && not (has_flag v.flags flg_used)

abbrev pub joins : Memory → ℕ → Bool
joins m a = joinable (m a) a

joins-unused : (m : Memory) (a : ℕ) → joins m a ≡ true → has_flag (m a).flags flg_used ≡ false
joins-unused m a h = ground arith

joins-there : (m : Memory) (a : ℕ) → joins m a ≡ true → a ≢ 0
joins-there m a h = ground arith

module _ (it n nn : ℕ) (m : Memory) (next : (m it).next ≡ n) where
  join_next-alone : joins m n ≡ false → join_next it m ≡ m
  unfolding join_next
  join_next-alone alone = ground (arith, alone, next)

  module _ (it_pos : 0 < it) (n_ne : n ≢ it) (nn_ne : nn ≢ it) (nn_ne_n : nn ≢ n)
      (n_next : (m n).next ≡ nn) (unused : joins m n ≡ true) where
    join_next-it :
        join_next it m it
        ≡ record (m it) { size = add32 (m it).size (add32 (m n).size header); next = nn }
    unfolding join_next
    join_next-it = ground arith

    join_next-nn : nn ≢ 0 → join_next it m nn ≡ record (m nn) { prev = it }
    unfolding join_next
    join_next-nn there = ground arith

    join_next-other : (q : ℕ) → q ≢ it → q ≢ n → (q ≢ nn) ⊎ (nn ≡ 0) → join_next it m q ≡ m q
    unfolding join_next
    join_next-other q a b c = ground arith

module _ (it q t : ℕ) (m : Memory) (prev : (m it).prev ≡ q) where
  join_prev-alone : joins m q ≡ false → join_prev it m ≡ m
  unfolding join_prev
  join_prev-alone alone = ground (arith, alone, prev)

  module _ (it_pos : 0 < it) (q_ne : q ≢ it) (t_ne : t ≢ it) (t_ne_q : t ≢ q)
      (q_next : (m q).next ≡ it) (it_next : (m it).next ≡ t) (unused : joins m q ≡ true) where
    join_prev-q :
        join_prev it m q
        ≡ record (m q) { size = add32 (m q).size (add32 (m it).size header); next = t }
    unfolding join_prev
    join_prev-q = ground arith

    join_prev-t : t ≢ 0 → join_prev it m t ≡ record (m t) { prev = q }
    unfolding join_prev
    join_prev-t there = ground arith

    join_prev-null : join_prev it m 0 ≡ m 0
    unfolding join_prev
    join_prev-null = ground arith

-- The neighbours of the block at `it` in a chain whose links are consistent: `q` before it, `n`
-- behind it and `nn` behind `n`. Each of them may be missing, and is 0 then.
pub record Between (m : Memory) (q it n nn : ℕ) : Type 0 where
  pub q_lt : q < it
  pub it_lt : (it < n) ⊎ ((n ≡ 0) × (nn ≡ 0))
  pub n_lt : (n < nn) ⊎ (nn ≡ 0)
  pub it_prev : (m it).prev ≡ q
  pub it_next : (m it).next ≡ n
  pub q_next : (q ≡ 0) ⊎ ((m q).next ≡ it)
  pub n_prev : (n ≡ 0) ⊎ ((m n).prev ≡ it)
  pub n_next : (n ≡ 0) ⊎ ((m n).next ≡ nn)
  pub nn_prev : (nn ≡ 0) ⊎ ((m nn).prev ≡ n)

-- The block behind is joined: the memory then, at the places that matter.
joined_next :
    (m : Memory) (q it n nn : ℕ)
    → Between m q it n nn
    → joins m n ≡ true
    → (join_next it m it
        ≡ record (m it) { size = add32 (m it).size (add32 (m n).size header); next = nn })
      × (nn ≢ 0 → join_next it m nn ≡ record (m nn) { prev = it })
      × (join_next it m q ≡ m q)
      × (join_next it m 0 ≡ m 0)
joined_next m q it n nn b open_end =
    let there = joins-there m n open_end in
    let q_lt : q < it = b.q_lt in
    let far : it < n = elim b.it_lt [ inl lt ↦ lt | inr both ↦ absurd (there (both.0)) ] in
    let link : (m n).next ≡ nn = elim b.n_next [ inl gone ↦ absurd (there gone) | inr e ↦ e ] in
    let it_pos : 0 < it = omega arith in
    let n_ne : n ≢ it = omega arith in
    let nn_ne : nn ≢ it = elim b.n_lt [ inl lt ↦ omega arith | inr e ↦ omega arith ] in
    let apart : nn ≢ n = elim b.n_lt [ inl lt ↦ omega arith | inr e ↦ omega arith ] in
    let off : (q ≢ nn) ⊎ (nn ≡ 0) = elim b.n_lt [ inl lt ↦ inl (omega arith) | inr e ↦ inr e ] in
    let off0 : (0 ≢ nn) ⊎ (nn ≡ 0) = elim b.n_lt [ inl lt ↦ inl (omega arith) | inr e ↦ inr e ] in
    let lem = join_next-other it n nn m b.it_next it_pos n_ne nn_ne apart link open_end in
    (
      join_next-it it n nn m b.it_next it_pos n_ne nn_ne apart link open_end,
      join_next-nn it n nn m b.it_next it_pos n_ne nn_ne apart link open_end,
      lem q (omega arith) (omega arith) off,
      lem 0 (omega arith) (omega arith) off0,
    )

-- The block in front takes the freed one in, whose next one is `t`.
joined_prev :
    (m : Memory) (q it t : ℕ)
    → q < it
    → (it < t) ⊎ (t ≡ 0)
    → (m it).prev ≡ q
    → (q ≡ 0) ⊎ ((m q).next ≡ it)
    → (m it).next ≡ t
    → joins m q ≡ true
    → (join_prev it m q
        ≡ record (m q) { size = add32 (m q).size (add32 (m it).size header); next = t })
      × (t ≢ 0 → join_prev it m t ≡ record (m t) { prev = q })
      × (join_prev it m 0 ≡ m 0)
joined_prev m q it t lt far prev link next open_end =
    let there = joins-there m q open_end in
    let back : (m q).next ≡ it = elim link [ inl gone ↦ absurd (there gone) | inr e ↦ e ] in
    let it_pos : 0 < it = omega arith in
    let q_ne : q ≢ it = omega arith in
    let t_ne : t ≢ it = elim far [ inl g ↦ omega arith | inr e ↦ omega arith ] in
    let apart : t ≢ q = elim far [ inl g ↦ omega arith | inr e ↦ omega arith ] in
    (
      join_prev-q it q t m prev it_pos q_ne t_ne apart back next open_end,
      join_prev-t it q t m prev it_pos q_ne t_ne apart back next open_end,
      join_prev-null it q t m prev it_pos q_ne t_ne apart back next open_end,
    )

-- What is said of the memory `g` behind the freeing of the block at `it` of `m`: of the blocks of `m`
-- at `q`, at `n` and at 0 and the size of the freed one.
abbrev pub JoinedOf : Block → Block → Block → ℕ → Memory → ℕ → ℕ → ℕ → ℕ → Type 0
JoinedOf in_front behind null size g q it n nn =
    let head = if joinable in_front q then q else it in
    let tail = if joinable behind n then nn else n in
    let own = if joinable behind n then add32 size (add32 behind.size header) else size in
    ((g head).next ≡ tail)
    × (tail ≢ 0 → (g tail).prev ≡ head)
    × ((g head).size
        ≡ (if joinable in_front q then add32 in_front.size (add32 own header) else own))
    × (has_flag (g head).flags flg_used ≡ false)
    × (g 0 ≡ null)

abbrev pub Joined : Memory → Memory → ℕ → ℕ → ℕ → ℕ → Type 0
Joined m g q it n nn = JoinedOf (m q) (m n) (m 0) (m it).size g q it n nn

-- Both joins, for a block whose flags are changed.
pub join-Joined :
    (m : Memory) (q it n nn : ℕ)
    → Between m q it n nn
    → (m it).flags ≡ magic
    → Joined m (join_prev it (join_next it m)) q it n nn
join-Joined m q it n nn b flags = elim (Bool-cases (joins m n)) [
  | inr apart ↦ elim (Bool-cases (joins m q)) [
    | inr alone ↦
        let same : join_prev it (join_next it m) ≡ m =
          ap (λ g. join_prev it g) (join_next-alone it n nn m b.it_next apart)
          ∙ join_prev-alone it q n m b.it_prev alone in
        rw (same, apart, alone)
          (
            b.it_next,
            λ there. elim b.n_prev [ inl gone ↦ absurd (there gone) | inr e ↦ e ],
            refl,
            rw flags refl,
            refl,
          )
    | inl front ↦
        let same = ap (λ g. join_prev it g) (join_next-alone it n nn m b.it_next apart) in
        let far : (it < n) ⊎ (n ≡ 0) = elim b.it_lt [ inl lt ↦ inl lt | inr both ↦ inr (both.0) ] in
        let j = joined_prev m q it n b.q_lt far b.it_prev b.q_next b.it_next front in
        rw (same, apart, front)
          (
            ap (λ v. v.next) j.0,
            λ there. ap (λ v. v.prev) (j.1 there),
            ap (λ v. v.size) j.0,
            ap (λ v. has_flag v.flags flg_used) j.0 ∙ joins-unused m q front,
            j.2,
          )
  ]
  | inl behind ↦
      let m1 = join_next it m in
      let k = joined_next m q it n nn b behind in
      elim (Bool-cases (joins m q)) [
        | inr alone ↦
            let alone1 : joins m1 q ≡ false =
              ap (λ v. not (q == 0) && not (has_flag v.flags flg_used)) k.2 ∙ alone in
            let same : join_prev it m1 ≡ m1 =
              join_prev-alone it q nn m1 (ap (λ v. v.prev) k.0 ∙ b.it_prev) alone1 in
            rw (same, behind, alone)
              (
                ap (λ v. v.next) k.0,
                λ there. ap (λ v. v.prev) (k.1 there),
                ap (λ v. v.size) k.0,
                ap (λ v. has_flag v.flags flg_used) k.0 ∙ rw flags refl,
                k.3,
              )
        | inl front ↦
            let front1 : joins m1 q ≡ true =
              ap (λ v. not (q == 0) && not (has_flag v.flags flg_used)) k.2 ∙ front in
            let there_n = joins-there m n behind in
            let far : (it < nn) ⊎ (nn ≡ 0) = elim b.n_lt [
              | inr e ↦ inr e
              | inl lt ↦ elim b.it_lt [
                | inl up ↦ inl (omega arith)
                | inr both ↦ absurd (there_n (both.0))
              ]
            ] in
            let link : (q ≡ 0) ⊎ ((m1 q).next ≡ it) = elim b.q_next [
              | inl e ↦ inl e
              | inr e ↦ inr (ap (λ v. v.next) k.2 ∙ e)
            ] in
            let j =
              joined_prev m1 q it nn b.q_lt far (ap (λ v. v.prev) k.0 ∙ b.it_prev) link
                (ap (λ v. v.next) k.0) front1 in
            rw (behind, front)
              (
                ap (λ v. v.next) j.0,
                λ there. ap (λ v. v.prev) (j.1 there),
                ap (λ v. v.size) j.0
                    ∙ ap (λ v. add32 v.size (add32 (m1 it).size header)) k.2
                    ∙ ap (λ v. add32 (m q).size (add32 v.size header)) k.0,
                ap (λ v. has_flag v.flags flg_used) j.0 ∙ joins-unused m1 q front1,
                j.2 ∙ k.3,
              )
      ]
]
