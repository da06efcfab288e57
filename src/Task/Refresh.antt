-- ===== src/Task/Refresh.antt =====
-- The first loop of x86_task_switch: what it leaves of the list of tasks.
use ygg_kernel.Base.{
  Bool, List, [], ap, arith, false, has_flag, if◌then◌else◌, refl, some, subst, suc, sym, true,
  update, ℕ, ◌<◌, ◌==◌, ◌∙◌, ◌∷◌, ◌≡◌, ◌≢◌, ◌≤◌,
}
use ygg_kernel.Task.{
  Sched, Task, clear_flag, flg_stop, flg_wait, reap, refresh, task_by_pid, visit, wait_pid,
  wait_sleep, wake, write,
}
use ygg_kernel.Task.Select.{Links, Without}

-- A task that the loop removes.
abbrev pub stopped : Task → Bool
stopped t = has_flag t.flag flg_stop

-- The tasks of the list that stay, and those that go, last first, in front of a list.
unfoldable pub alive : (ℕ → Task) → List ℕ → List ℕ
alive mem [] = []
alive mem (b ∷ l) = if stopped (mem b) then alive mem l else b ∷ alive mem l

unfoldable pub dead_onto : (ℕ → Task) → List ℕ → List ℕ → List ℕ
dead_onto mem [] d = d
dead_onto mem (b ∷ l) d = dead_onto mem l (if stopped (mem b) then b ∷ d else d)

-- The last of the list, or `a`.
unfoldable pub last_of : ℕ → List ℕ → ℕ
last_of a [] = a
last_of a (b ∷ l) = last_of b l

-- No address stands twice.
unfoldable pub Different : List ℕ → Type 0
unfolding Without
Different [] = Unit
Different (b ∷ l) = Without b l × Different l

-- No task of the list that is stopped is the root process.
unfoldable pub NoInit : (ℕ → Task) → List ℕ → Type 0
NoInit mem [] = Unit
NoInit mem (b ∷ l) = (stopped (mem b) ≡ true → (mem b).pid ≢ 1) × NoInit mem l

-- What holds of the loop's result `t`, for the tasks `l` behind the task `p`.
pub record Refreshed (s t : Sched) (p : ℕ) (l : List ℕ) : Type 0 where
  pub links : Links t.task_at p (alive s.task_at l)
  pub destroyed : t.destroyed ≡ dead_onto s.task_at l s.destroyed
  pub last : t.last ≡ last_of p (alive s.task_at l)
  pub frame : (x : ℕ) → x ≢ p → Without x l → t.task_at x ≡ s.task_at x
  pub flag : (t.task_at p).flag ≡ (s.task_at p).flag
  pub same : (t.first ≡ s.first) × (t.current ≡ s.current) × (t.idle ≡ s.idle)

-- What the first loop makes of the flags of a task that stays, unless it waits for the end of
-- another task: they are kept, but a task that sleeps stops waiting from its deadline on.
unfoldable pub Wakes : ℕ → Task → Task → Type 0
Wakes now old new =
    (has_flag old.flag flg_wait ≡ false → new.flag ≡ old.flag)
    × (has_flag old.flag flg_wait ≡ true
        → old.wait_type ≡ wait_sleep
        → (old.sleep_deadline ≤ now → new.flag ≡ (clear_flag flg_wait old).flag)
          × (now < old.sleep_deadline → new.flag ≡ old.flag))
    × (old.wait_type ≢ wait_sleep → old.wait_type ≢ wait_pid → new.flag ≡ old.flag)

-- The same of all tasks of a list that are not stopped.
unfoldable pub AllWoken : ℕ → (ℕ → Task) → (ℕ → Task) → List ℕ → Type 0
AllWoken now m n [] = Unit
AllWoken now m n (b ∷ l) = (stopped (m b) ≡ false → Wakes now (m b) (n b)) × AllWoken now m n l

-- The memories agree on the list.
unfoldable pub Agree : (ℕ → Task) → (ℕ → Task) → List ℕ → Type 0
Agree m n [] = Unit
Agree m n (b ∷ l) = (m b ≡ n b) × Agree m n l

pub Agree-Links :
    (m n : ℕ → Task) (a b : ℕ) (l : List ℕ)
    → Agree m n l
    → (n b).next ≡ (m a).next
    → Links m a l
    → Links n b l
unfolding Agree Links
Agree-Links m n a b [] g e h = e ∙ h
Agree-Links m n a b (c ∷ l) (same, g) e (at, (nz, rest)) =
    (e ∙ at, (nz, Agree-Links m n c c l g (ap (λ t. t.next) (sym same)) rest))

pub Agree-alive : (m n : ℕ → Task) (l : List ℕ) → Agree m n l → alive n l ≡ alive m l
unfolding Agree alive
Agree-alive m n [] g = refl
Agree-alive m n (b ∷ l) (same, g) = rw (same, Agree-alive m n l g) refl

pub Agree-dead : (m n : ℕ → Task) (l d : List ℕ) → Agree m n l → dead_onto n l d ≡ dead_onto m l d
unfolding Agree dead_onto
Agree-dead m n [] d g = refl
Agree-dead m n (b ∷ l) d (same, g) =
    rw same (Agree-dead m n l (if stopped (n b) then b ∷ d else d) g)

pub Agree-NoInit : (m n : ℕ → Task) (l : List ℕ) → Agree m n l → NoInit m l → NoInit n l
unfolding Agree NoInit
Agree-NoInit m n [] g h = tt
Agree-NoInit m n (b ∷ l) (same, g) (ok, h) =
    (subst (λ t. stopped t ≡ true → t.pid ≢ 1) same ok, Agree-NoInit m n l g h)

pub Agree-update :
    (m : ℕ → Task) (a : ℕ) (t : Task) (l : List ℕ) → Without a l → Agree m (update m a t) l
unfolding Agree Without
Agree-update m a t [] w = tt
Agree-update m a t (b ∷ l) (ne, w) = (ground (arith, ne), Agree-update m a t l w)

pub wake-kept : (now : ℕ) (found : ℕ → ℕ) (t : Task) → (wake now found t).next ≡ t.next
unfolding wake clear_flag
wake-kept now found t = ground arith

pub wake-Wakes :
    (now : ℕ) (found : ℕ → ℕ) (old new : Task)
    → new.flag ≡ (wake now found old).flag
    → Wakes now old new
unfolding Wakes wake
wake-Wakes now found old new e = (
  λ calm. e ∙ ground (arith, calm),
  λ waits sleep. (
    λ due. e ∙ ground (arith, waits, sleep, due),
    λ early. e ∙ ground (arith, waits, sleep, early),
  ),
  λ not_sleep not_pid. e ∙ ground (arith, not_sleep, not_pid),
)

pub Agree-AllWoken :
    (now : ℕ) (m n t : ℕ → Task) (l : List ℕ)
    → Agree m n l
    → AllWoken now n t l
    → AllWoken now m t l
unfolding Agree AllWoken
Agree-AllWoken now m n t [] g h = tt
Agree-AllWoken now m n t (b ∷ l) (same, g) (here, h) = (
  subst (λ x. stopped x ≡ false → Wakes now x (t b)) (sym same) here,
  Agree-AllWoken now m n t l g h,
)

pub refresh-end :
    (k now p : ℕ) (s : Sched)
    → (s.task_at p).next ≡ 0
    → refresh (suc k) now p (s.task_at p).next s ≡ some s
unfolding refresh
refresh-end k now p s e =
    let done : ((s.task_at p).next == 0) ≡ true = ground (arith, e) in rw done refl

module _ (k now p b : ℕ) (s : Sched) (nz : b ≢ 0) (work : b ≢ s.idle) where
  -- The state behind a task that goes, and behind one that stays.
  abbrev pub reaped : Sched
  reaped =
      let s1 = write p (record (s.task_at p) { next = (s.task_at b).next }) s in
      record s1 { last = if b == s.last then p else s.last; destroyed = b ∷ s.destroyed }

  abbrev pub woken : Sched
  woken = write b (wake now (task_by_pid (suc k) s) (s.task_at b)) s

  pub refresh-reap :
      p ≢ 0
      → stopped (s.task_at b) ≡ true
      → (s.task_at b).pid ≢ 1
      → refresh (suc k) now p b s ≡ refresh k now p (reaped.task_at b).next reaped
  unfolding refresh visit reap
  refresh-reap pz stop ok =
      let not_idle : (b == s.idle) ≡ false = ground (arith, work) in
      let on : (b == 0) ≡ false = ground (arith, nz) in
      let valid : (p == 0) ≡ false = ground (arith, pz) in
      let child : ((s.task_at b).pid == 1) ≡ false = ground (arith, ok) in
      rw (on, not_idle, stop, valid, child) refl

  pub refresh-wake :
      stopped (s.task_at b) ≡ false
      → refresh (suc k) now p b s ≡ refresh k now b (woken.task_at b).next woken
  unfolding refresh visit
  refresh-wake stay =
      let not_idle : (b == s.idle) ≡ false = ground (arith, work) in
      let on : (b == 0) ≡ false = ground (arith, nz) in rw (on, not_idle, stay) refl
