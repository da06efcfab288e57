-- ===== src/Sys/Files/Slots.antt =====
-- Descriptors: what sys_open and sys_close do to them.
use mathlib.Core.Option.{some-injective}
use ygg_kernel.Base.{
  List, Option-cases, ap, arith, false, inl, inr, length, ltb, refl, some, subst, suc, sym, true,
  update, update-eq, update-ne, zero, ℕ, ℕ_discrete, ◌+◌, ◌<◌, ◌==◌, ◌∙◌, ◌≡◌, ◌≢◌, ◌≤◌,
}
use ygg_kernel.Sys.{Ops, Sys, fd_count, path_size}
use ygg_kernel.Sys.Files.{free_fd, open_path, opened_file, sys_close, sys_open}

-- The first free descriptor is free, in range, and no lower one is.
free_fd-first :
    (n i fd : ℕ) (fds : ℕ → ℕ)
    → free_fd n i fds ≡ some fd
    → (fds fd ≡ 0) × (i ≤ fd) × (fd < i + n) × ((j : ℕ) → i ≤ j → j < fd → fds j ≢ 0)
unfolding free_fd
free_fd-first zero i fd fds e = absurd (ground (arith, e))
free_fd-first (suc n) i fd fds e = elim (ℕ_discrete (fds i) 0) [
  | yes free ↦
      let same : i ≡ fd = ground (arith, e, free) in
      (subst (λ x. fds x ≡ 0) same free, omega arith, omega arith, λ j lo hi. absurd (omega arith))
  | no taken ↦
      let (free, lo, hi, below) = free_fd-first n (i + 1) fd fds (ground (arith, e, taken)) in
      (
        free,
        omega arith,
        omega arith,
        λ j jlo jhi. elim (ℕ_discrete j i) [
          | yes same ↦ (λ z. taken (subst (λ x. fds x ≡ 0) same z))
          | no ne ↦ below j (omega arith) jhi
        ],
      )
]

module _ {F M : Type 0} (ops : Ops F M) where
  -- The descriptor `fd` has a file, and the others are as before.
  abbrev Opened : ℕ → Sys F M → Sys F M → Type 0
  Opened fd s t = (file : ℕ) × (file ≢ 0) × (t.fds ≡ update s.fds fd file)

  open_path-Opened :
      (slot fd : ℕ) (path : List ℕ) (flags mode : ℕ) (s t : Sys F M)
      → open_path ops slot path flags mode s ≡ (fd, t)
      → fd < fd_count
      → (slot ≡ fd) × Opened fd s t
  unfolding open_path
  open_path-Opened slot fd path flags mode s t e small =
      let file = (opened_file ops path flags mode s.files).0 in
      elim (ℕ_discrete file 0) [
        | yes null ↦ absurd (ground (arith, e, null, small))
        | no valid ↦
            let on : (file == 0) ≡ false = ground (arith, valid) in
            let made = record s {
              files = (opened_file ops path flags mode s.files).1;
              fds = update s.fds slot file;
            } in
            let ran : open_path ops slot path flags mode s ≡ (slot, made) = rw on refl in
            let same : (slot, made) ≡ (fd, t) = sym ran ∙ e in
            let slot_fd = ap (λ r. r.0) same in
            (
              slot_fd,
              (file, valid, sym (ap (λ r. r.1.fds) same) ∙ ap (λ x. update s.fds x file) slot_fd),
            )
      ]

  sys_open-Opened :
      (path flags mode fd : ℕ) (s t : Sys F M)
      → sys_open ops path flags mode s ≡ some (fd, t)
      → fd < fd_count
      → (free_fd fd_count 0 s.fds ≡ some fd) × Opened fd s t
  unfolding sys_open
  sys_open-Opened path flags mode fd s t e small = elim (Option-cases (free_fd fd_count 0 s.fds)) [
    | inl full ↦ absurd (ground (arith, e, full, small))
    | inr (slot, found) ↦ elim (Option-cases (ops.strncpy_user_to_kernel path path_size s.memory)) [
      | inl failed ↦ absurd (ground (arith, e, found, failed))
      | inr ((text, memory), copied) ↦ elim (ℕ_discrete (length text) 0) [
        | yes empty ↦ absurd (ground (arith, e, found, copied, empty))
        | no filled ↦
            let go : (length text == 0) ≡ false = ground (arith, filled) in
            let s1 = record s { memory = memory } in
            let ran : sys_open ops path flags mode s
                ≡ some (open_path ops slot text flags mode s1) =
              rw (found, sys_open, copied, go) refl in
            let same = some-injective _ _ (sym ran ∙ e) in
            let (at, got) = open_path-Opened slot fd text flags mode s1 t same small in
            (found ∙ ap some at, got)
      ]
    ]
  ]

  -- Where sys_open gives a descriptor, it is the lowest that was free, the task's other descriptors
  -- are as before, and sys_close of it hands its file to vfs_close and leaves the task with the
  -- descriptors that it had.
  pub sys_open-sys_close :
      (path flags mode fd : ℕ) (s t : Sys F M)
      → sys_open ops path flags mode s ≡ some (fd, t)
      → fd < fd_count
      → (s.fds fd ≡ 0)
        × ((j : ℕ) → j < fd → s.fds j ≢ 0)
        × (t.fds fd ≢ 0)
        × ((j : ℕ) → j ≢ fd → t.fds j ≡ s.fds j)
        × ((j : ℕ) → (sys_close ops fd t).1.fds j ≡ s.fds j)
        × ((sys_close ops fd t).1.files ≡ ops.vfs_close (t.fds fd) t.files)
  unfolding sys_close
  sys_open-sys_close path flags mode fd s t e small =
      let (found, (file, valid, put)) = sys_open-Opened path flags mode fd s t e small in
      let (free, lo, hi, below) = free_fd-first fd_count 0 fd s.fds found in
      let at : t.fds fd ≡ file = ap (λ g. g fd) put ∙ update-eq s.fds fd file in
      let kept : (j : ℕ) → j ≢ fd → t.fds j ≡ s.fds j =
        λ j ne. ap (λ g. g j) put ∙ update-ne s.fds fd file j (λ q. ne (sym q)) in
      let inside : ltb fd fd_count ≡ true = ground (arith, small) in
      let there : (t.fds fd == 0) ≡ false = ground (arith, at, valid) in
      let back : (j : ℕ) → update t.fds fd 0 j ≡ s.fds j = λ j. elim (ℕ_discrete fd j) [
        | no ne ↦ update-ne t.fds fd 0 j ne ∙ kept j (λ q. ne (sym q))
        | yes q ↦ subst (λ x. update t.fds fd 0 x ≡ s.fds x) q (update-eq t.fds fd 0 ∙ sym free)
      ] in
      (
        free,
        λ j lt. below j (omega arith) lt,
        λ z. valid (sym at ∙ z),
        kept,
        λ j. rw (inside, there) (back j),
        rw (inside, there) refl,
      )
