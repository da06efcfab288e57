-- ===== src/Console/Scroll.antt =====
-- Scrolling of the text console: the memory loops of x86_con_scroll.
use ygg_kernel.Base.{
  Bool, ap, arith, dec_lt, false, if◌then◌else◌, inl, inr, leb, ltb, refl, subst, suc, true, update,
  zero, ℕ, ℕ_discrete, ◌%◌, ◌&&◌, ◌*◌, ◌+◌, ◌<◌, ◌==◌, ◌^◌, ◌∙◌, ◌≡◌, ◌≤◌, ◌⊎◌,
}
use ygg_kernel.Console.{memsetw, rounds}

-- `k` lies among the `n` indices from `a` on.
abbrev pub within : ℕ → ℕ → ℕ → Bool
within a n k = leb a k && ltb k (a + n)

pub within-true : (a n k : ℕ) → a ≤ k → k < a + n → within a n k ≡ true
within-true a n k h g = ground arith

pub within-before : (a n k : ℕ) → k < a → within a n k ≡ false
within-before a n k h = ground arith

pub within-after : (a n k : ℕ) → a + n ≤ k → within a n k ≡ false
within-after a n k h = ground arith

pub within-cases : (a n k : ℕ) → (k < a) ⊎ (((a ≤ k) × (k < a + n)) ⊎ (a + n ≤ k))
within-cases a n k = ground arith

pub fill-at :
    (v a n i : ℕ) (m : ℕ → ℕ) (k : ℕ)
    → rounds n i (λ i w. update w (a + i) v) m k ≡ (if within (a + i) n k then v else m k)
unfolding rounds
fill-at v a zero i m k = ground arith
fill-at v a (suc n) i m k = rw (fill-at v a n (i + 1) (update m (a + i) v) k) (ground arith)

pub memsetw-at :
    (m : ℕ → ℕ) (at v len k : ℕ)
    → memsetw m at v len k ≡ (if within (at + 0) len k then v % 2 ^ 16 else m k)
unfolding memsetw
memsetw-at m at v len k = fill-at (v % 2 ^ 16) at len 0 m k

copy-at :
    (w a b n j : ℕ) (m : ℕ → ℕ) (k : ℕ)
    → b ≡ a + w
    → n + j ≤ w
    → rounds n j (λ j m. update m (a + j) (m (b + j))) m k
      ≡ (if within (a + j) n k then m (k + w) else m k)
unfolding rounds
copy-at w a b zero j m k e h = ground arith
copy-at w a b (suc n) j m k e h =
    let next = update m (a + j) (m (b + j)) in
    rw (copy-at w a b n (j + 1) next k e (omega arith)) (elim (within-cases (a + j) (suc n) k) [
      | inl before ↦ ground arith
      | inr (inl inside) ↦ elim (ℕ_discrete k (a + j)) [
        | yes here ↦
            let first : (a + j == k) ≡ true = ground (arith, here) in
            rw
              (
                within-before (a + (j + 1)) n k (omega arith),
                within-true (a + j) (suc n) k (inside.0) (inside.1),
                first,
              )
              (ap m (omega arith))
        | no beyond ↦
            let other : (a + j == k) ≡ false = ground (arith, beyond) in
            let far : (a + j == k + w) ≡ false = ground arith in
            rw
              (
                within-true (a + (j + 1)) n k (omega arith) (omega arith),
                within-true (a + j) (suc n) k (inside.0) (inside.1),
                far,
              )
              refl
      ]
      | inr (inr after) ↦ ground arith
    ])

-- One row moved, then the rows behind it.
join-rows :
    (w a b n c : ℕ) (m next : ℕ → ℕ) (k : ℕ)
    → b ≡ a + w
    → c ≡ w + n
    → ((l : ℕ) → next l ≡ (if within a w l then m (l + w) else m l))
    → (if within b n k then next (k + w) else next k) ≡ (if within a c k then m (k + w) else m k)
join-rows w a b n c m next k e f row = elim (within-cases a c k) [
  | inl before ↦
      rw
        (
          within-before b n k (omega arith),
          within-before a c k before,
          row k,
          within-before a w k before,
        )
        refl
  | inr (inl (low, high)) ↦ elim (dec_lt k b) [
    | yes first ↦
        rw
          (
            within-before b n k first,
            within-true a c k low high,
            row k,
            within-true a w k low (omega arith),
          )
          refl
    | no later ↦
        rw
          (
            within-true b n k (omega arith) (omega arith),
            within-true a c k low high,
            row (k + w),
            within-after a w (k + w) (omega arith),
          )
          refl
  ]
  | inr (inr after) ↦
      rw
        (
          within-after b n k (omega arith),
          within-after a c k after,
          row k,
          within-after a w k (omega arith),
        )
        refl
]

-- The rows that move up, from row `i` on.
pub rows-at :
    (w n i : ℕ) (m : ℕ → ℕ) (k : ℕ)
    → rounds n i (λ i. rounds w 0 (λ j m. update m (i * w + j) (m ((i + 1) * w + j)))) m k
      ≡ (if within (i * w) (n * w) k then m (k + w) else m k)
unfolding rounds
rows-at w zero i m k = ground arith
rows-at w (suc n) i m k =
    let next = rounds w 0 (λ j m. update m (i * w + j) (m ((i + 1) * w + j))) m in
    let row = λ (l : ℕ). copy-at w (i * w) ((i + 1) * w) w 0 m l (omega arith) (omega arith) in
    rows-at w n (i + 1) next k
    ∙ join-rows w (i * w) ((i + 1) * w) (n * w) (suc n * w) m next k (omega arith) (omega arith)
        (λ l. subst (λ a. next l ≡ (if within a w l then m (l + w) else m l)) (omega arith) (row l))
