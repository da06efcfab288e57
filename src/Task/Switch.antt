-- ===== src/Task/Switch.antt =====
-- x86_task_switch as a whole: removal of stopped tasks, then the choice of the next one in turn.
use ygg_kernel.Base.{
  Bool-cases, List, [], arith, false, if◌then◌else◌, inl, inr, length, refl, some, subst, suc, true,
  zero, ℕ, ℕ_discrete, ◌<◌, ◌==◌, ◌∷◌, ◌≡◌, ◌≤◌,
}
use ygg_kernel.Task.{Task, blocked, select}
use ygg_kernel.Task.Refresh.{Different, alive, stopped}
use ygg_kernel.Task.Select.{Links, Without, first_ready}

-- The addresses behind `c` in a list.
unfoldable pub behind_in : ℕ → List ℕ → List ℕ
behind_in c [] = []
behind_in c (b ∷ l) = if b == c then l else behind_in c l

pub Links-behind :
    (mem : ℕ → Task) (c a : ℕ) (l : List ℕ)
    → Links mem a l
    → ¬ Without c (a ∷ l)
    → Links mem c (behind_in c (a ∷ l))
unfolding Links Without behind_in
Links-behind mem c a [] h inside = elim (ℕ_discrete a c) [
  | yes same ↦
      let e : (a == c) ≡ true = ground (arith, same) in rw e (subst (λ x. (mem x).next ≡ 0) same h)
  | no ne ↦ absurd (inside (ne, tt))
]
Links-behind mem c a (b ∷ l) (at, (nz, rest)) inside = elim (ℕ_discrete a c) [
  | yes same ↦
      let e : (a == c) ≡ true = ground (arith, same) in
      rw e (subst (λ x. (mem x).next ≡ b) same at, (nz, rest))
  | no ne ↦
      let e : (a == c) ≡ false = ground (arith, ne) in
      rw e (Links-behind mem c b l rest (λ w. inside (ne, w)))
]

pub Without-behind : (c : ℕ) (l : List ℕ) → Different l → Without c (behind_in c l)
unfolding Without Different behind_in
Without-behind c [] d = tt
Without-behind c (b ∷ l) (own, d) = elim (ℕ_discrete b c) [
  | yes same ↦
      let e : (b == c) ≡ true = ground (arith, same) in rw e (subst (λ x. Without x l) same own)
  | no ne ↦ let e : (b == c) ≡ false = ground (arith, ne) in rw e (Without-behind c l d)
]

pub length-behind : (c : ℕ) (l : List ℕ) → length (behind_in c l) ≤ length l
unfolding behind_in
length-behind c [] = omega arith
length-behind c (b ∷ l) = ground (arith, length-behind c l)

pub length-alive : (mem : ℕ → Task) (l : List ℕ) → length (alive mem l) ≤ length l
unfolding alive
length-alive mem [] = omega arith
length-alive mem (b ∷ l) = ground (arith, length-alive mem l)

pub Without-alive : (mem : ℕ → Task) (c : ℕ) (l : List ℕ) → Without c l → Without c (alive mem l)
unfolding alive Without
Without-alive mem c [] w = tt
Without-alive mem c (b ∷ l) (ne, w) = elim (Bool-cases (stopped (mem b))) [
  | inl gone ↦ rw gone (Without-alive mem c l w)
  | inr stays ↦ rw stays (ne, Without-alive mem c l w)
]

pub Different-alive : (mem : ℕ → Task) (l : List ℕ) → Different l → Different (alive mem l)
unfolding alive Different
Different-alive mem [] d = tt
Different-alive mem (b ∷ l) (own, d) = elim (Bool-cases (stopped (mem b))) [
  | inl gone ↦ rw gone (Different-alive mem l d)
  | inr stays ↦ rw stays (Without-alive mem b l own, Different-alive mem l d)
]

-- With more rounds than tasks behind the current one the choice is the first that is ready.
pub select-enough :
    (k : ℕ) (mem : ℕ → Task) (top from a : ℕ) (l : List ℕ)
    → length l < k
    → Links mem a l
    → Without from l
    → blocked (mem top) ≡ false
    → select k mem top from a ≡ some (first_ready mem top l)
unfolding select first_ready Links Without
select-enough zero mem top from a l lt links w h = absurd (omega arith)
select-enough (suc k) mem top from a [] lt e w h = rw (e, h) refl
select-enough (suc k) mem top from a (b ∷ l) lt (e, (nz, links)) (nb, w) h =
    let more : ((mem a).next == 0) ≡ false = ground (arith, e) in
    let other : (b == from) ≡ false = ground (arith, nb) in
    ground (arith, more, e, other, select-enough k mem top from b l (omega arith) links w h)

pub first_ready-ready :
    (mem : ℕ → Task) (top : ℕ) (l : List ℕ)
    → blocked (mem top) ≡ false
    → blocked (mem (first_ready mem top l)) ≡ false
unfolding first_ready
first_ready-ready mem top [] h = h
first_ready-ready mem top (b ∷ l) h = elim (Bool-cases (blocked (mem b))) [
  | inl stuck ↦ rw stuck (first_ready-ready mem top l h)
  | inr ready ↦ rw ready ready
]
