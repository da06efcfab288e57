-- ===== src/Task/Reap.antt =====
-- The first loop of x86_task_switch over a whole list of tasks.
use ygg_kernel.Base.{
  Bool-cases, List, [], ap, arith, false, if◌then◌else◌, inl, inr, length, refl, some, subst, suc,
  sym, true, update, update-eq, update-ne, zero, ℕ, ◌<◌, ◌==◌, ◌∙◌, ◌∷◌, ◌≡◌, ◌≢◌,
}
use ygg_kernel.Task.{Sched, Task, refresh, task_by_pid, wake, write}
use ygg_kernel.Task.Refresh.{
  Agree-AllWoken, Agree-Links, Agree-NoInit, Agree-alive, Agree-dead, Agree-update, AllWoken,
  Different, NoInit, Refreshed, alive, dead_onto, last_of, reaped, refresh-end, refresh-reap,
  refresh-wake, stopped, wake-Wakes, wake-kept, woken,
}
use ygg_kernel.Task.Select.{Links, Without}

module _ (k now p b : ℕ) (l : List ℕ) (s : Sched) (nz : b ≢ 0) (work : b ≢ s.idle)
    (away : Without p l) (pb : b ≢ p) (own : Without b l) where
  reaped-Refreshed :
      (t : Sched)
      → stopped (s.task_at b) ≡ true
      → Refreshed (reaped k now p b s nz work) t p l
      → Refreshed s t p (b ∷ l)
  unfolding alive dead_onto last_of write Links Without
  reaped-Refreshed t stop r =
      let u = reaped k now p b s nz work in
      let agree =
        Agree-update s.task_at p (record (s.task_at p) { next = (s.task_at b).next }) l away in
      let same_alive = Agree-alive s.task_at u.task_at l agree in
      let same_dead = Agree-dead s.task_at u.task_at l (b ∷ s.destroyed) agree in
      record {
        links = rw stop (subst (Links t.task_at p) same_alive r.links);
        destroyed = rw stop (r.destroyed ∙ same_dead);
        last = rw stop (r.last ∙ ap (last_of p) same_alive);
        frame = λ x ne w.
            r.frame x ne w.1
            ∙ update-ne s.task_at p (record (s.task_at p) { next = (s.task_at b).next }) x
                (λ e. ne (sym e));
        flag =
            r.flag
            ∙ ap (λ v. v.flag)
                (update-eq s.task_at p (record (s.task_at p) { next = (s.task_at b).next }));
        same = r.same;
      }

  woken-Refreshed :
      (t : Sched)
      → stopped (s.task_at b) ≡ false
      → b ≡ (s.task_at p).next
      → Refreshed (woken k now p b s nz work) t b l
      → Refreshed s t p (b ∷ l)
  unfolding alive dead_onto last_of write Links Without
  woken-Refreshed t stay e r =
      let u = woken k now p b s nz work in
      let agree = Agree-update s.task_at b (wake now (task_by_pid (suc k) s) (s.task_at b)) l own in
      let same_alive = Agree-alive s.task_at u.task_at l agree in
      let same_dead = Agree-dead s.task_at u.task_at l s.destroyed agree in
      let kept : t.task_at p ≡ s.task_at p =
        r.frame p (λ e. pb (sym e)) away
        ∙ update-ne s.task_at b (wake now (task_by_pid (suc k) s) (s.task_at b)) p pb in
      record {
        links =
            rw stay
              (ap (λ v. v.next) kept ∙ sym e, (nz, subst (Links t.task_at b) same_alive r.links));
        destroyed = rw stay (r.destroyed ∙ same_dead);
        last = rw stay (r.last ∙ ap (last_of b) same_alive);
        frame = λ x ne w.
            r.frame x (λ e. w.0 (sym e)) w.1
            ∙ update-ne s.task_at b (wake now (task_by_pid (suc k) s) (s.task_at b)) x w.0;
        flag = ap (λ v. v.flag) kept;
        same = r.same;
      }

-- The state of a list of tasks on which the loop runs.
pub record Ready (s : Sched) (p : ℕ) (l : List ℕ) : Type 0 where
  pub links : Links s.task_at p l
  pub valid : p ≢ 0
  pub away : Without p l
  pub work : Without s.idle l
  pub different : Different l
  pub no_init : NoInit s.task_at l
  pub last : s.last ≡ last_of p l

last_of-ne : (b p : ℕ) (c : ℕ) (l : List ℕ) → Without b (c ∷ l) → last_of p (c ∷ l) ≢ b
unfolding last_of Without
last_of-ne b p c [] w = w.0
last_of-ne b p c (d ∷ l) w = last_of-ne b c d l w.1

last_reaped :
    (b p last : ℕ) (l : List ℕ)
    → Without b l
    → last ≡ last_of b l
    → (if b == last then p else last) ≡ last_of p l
unfolding last_of
last_reaped b p last [] w e = ground (arith, e)
last_reaped b p last (c ∷ l) w e = let ne = last_of-ne b b c l w in ground (arith, e, ne)

module _ (k now p b : ℕ) (l : List ℕ) (s : Sched) (h : Ready s p (b ∷ l)) where
  abbrev nonzero : b ≢ 0
  unfolding Links
  nonzero = h.links.1.0

  abbrev working : b ≢ s.idle
  unfolding Without
  working = h.work.0

  reaped-Ready : stopped (s.task_at b) ≡ true → Ready (reaped k now p b s nonzero working) p l
  unfolding Links Without Different NoInit last_of write
  reaped-Ready stop =
      let agree =
        Agree-update s.task_at p (record (s.task_at p) { next = (s.task_at b).next }) l h.away.1 in
      let u = reaped k now p b s nonzero working in
      record {
        links =
            Agree-Links s.task_at u.task_at b p l agree
              (ap (λ v. v.next)
                (update-eq s.task_at p (record (s.task_at p) { next = (s.task_at b).next })))
              h.links.1.1;
        valid = h.valid;
        away = h.away.1;
        work = h.work.1;
        different = h.different.1;
        no_init = Agree-NoInit s.task_at u.task_at l agree h.no_init.1;
        last = last_reaped b p s.last l h.different.0 h.last;
      }

  woken-Ready : stopped (s.task_at b) ≡ false → Ready (woken k now p b s nonzero working) b l
  unfolding Links Without Different NoInit last_of write
  woken-Ready stay =
      let agree =
        Agree-update s.task_at b (wake now (task_by_pid (suc k) s) (s.task_at b)) l h.different.0 in
      let u = woken k now p b s nonzero working in
      record {
        links =
            Agree-Links s.task_at u.task_at b b l agree
              (ap (λ v. v.next)
                  (update-eq s.task_at b (wake now (task_by_pid (suc k) s) (s.task_at b)))
                ∙ wake-kept now (task_by_pid (suc k) s) (s.task_at b))
              h.links.1.1;
        valid = nonzero;
        away = h.different.0;
        work = h.work.1;
        different = h.different.1;
        no_init = Agree-NoInit s.task_at u.task_at l agree h.no_init.1;
        last = h.last;
      }

  woken-AllWoken :
      (t : Sched)
      → Refreshed (woken k now p b s nonzero working) t b l
      → AllWoken now (woken k now p b s nonzero working).task_at t.task_at l
      → AllWoken now s.task_at t.task_at (b ∷ l)
  unfolding AllWoken write Without Different
  woken-AllWoken t r all =
      let to = wake now (task_by_pid (suc k) s) (s.task_at b) in
      let agree = Agree-update s.task_at b to l h.different.0 in
      let flag = r.flag ∙ ap (λ v. v.flag) (update-eq s.task_at b to) in
      (
        λ stay. wake-Wakes now (task_by_pid (suc k) s) (s.task_at b) (t.task_at b) flag,
        Agree-AllWoken now s.task_at (update s.task_at b to) t.task_at l agree all,
      )

  reaped-AllWoken :
      (t : Sched)
      → stopped (s.task_at b) ≡ true
      → AllWoken now (reaped k now p b s nonzero working).task_at t.task_at l
      → AllWoken now s.task_at t.task_at (b ∷ l)
  unfolding AllWoken write Without
  reaped-AllWoken t stop all =
      let to : Task = record (s.task_at p) { next = (s.task_at b).next } in
      (
        λ stay. absurd (ground (arith, stop, stay)),
        Agree-AllWoken now s.task_at (update s.task_at p to) t.task_at l
            (Agree-update s.task_at p to l h.away.1) all,
      )

-- With more rounds than tasks the loop ends.
pub refresh-Refreshed :
    (k now p : ℕ) (l : List ℕ) (s : Sched)
    → length l < k
    → Ready s p l
    → (t : Sched) × (refresh k now p (s.task_at p).next s ≡ some t)
      × Refreshed s t p l
      × AllWoken now s.task_at t.task_at l
unfolding Links Without Different NoInit AllWoken alive dead_onto last_of write
refresh-Refreshed zero now p l s lt h = absurd (omega arith)
refresh-Refreshed (suc k) now p [] s lt h = (
  s,
  refresh-end k now p s h.links,
  record {
    links = h.links;
    destroyed = refl;
    last = h.last;
    frame = λ x ne w. refl;
    flag = refl;
    same = (refl, refl, refl);
  },
  tt,
)
refresh-Refreshed (suc k) now p (b ∷ l) s lt h =
    let nz = nonzero k now p b l s h in
    let work = working k now p b l s h in
    let at : (s.task_at p).next ≡ b = h.links.0 in
    rw at (elim (Bool-cases (stopped (s.task_at b))) [
      | inl stop ↦
          let u = reaped k now p b s nz work in
          let (t, eq, r, all) =
            refresh-Refreshed k now p l u (omega arith) (reaped-Ready k now p b l s h stop) in
          let to : Task = record (s.task_at p) { next = (s.task_at b).next } in
          let from_b = ap (λ v. v.next) (update-ne s.task_at p to b (λ e. h.away.0 (sym e))) in
          let from_p = ap (λ v. v.next) (update-eq s.task_at p to) in
          (
            t,
            refresh-reap k now p b s nz work h.valid stop (h.no_init.0 stop)
                ∙ ap (λ a. refresh k now p a u) (from_b ∙ sym from_p)
                ∙ eq,
            reaped-Refreshed k now p b l s nz work h.away.1 h.away.0 h.different.0 t stop r,
            reaped-AllWoken k now p b l s h t stop all,
          )
      | inr stay ↦
          let u = woken k now p b s nz work in
          let (t, eq, r, all) =
            refresh-Refreshed k now b l u (omega arith) (woken-Ready k now p b l s h stay) in
          (
            t,
            refresh-wake k now p b s nz work stay ∙ eq,
            woken-Refreshed k now p b l s nz work h.away.1 h.away.0 h.different.0 t stay (sym at) r,
            woken-AllWoken k now p b l s h t r all,
          )
    ])
