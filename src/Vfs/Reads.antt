-- ===== src/Vfs/Reads.antt =====
-- Reads that wait for the terminal: vfs_read, tty_read and tty_type.
use mathlib.Core.List.{append_assoc}
use ygg_kernel.Base.{
  List, Option, Option-cases, [], ap, arith, bit_and, false, has_flag, inl, inr, length,
  length-append, ltb, none, refl, some, subst, true, ℕ, ◌%◌, ◌++◌, ◌+◌, ◌<◌, ◌==◌, ◌^◌, ◌∙◌, ◌∷◌,
  ◌≡◌,
}
use ygg_kernel.Vfs.{
  File, ReaderOps, copy_result, driver, file_type, flg_rd, minus_one, read_async, send_read_res,
  vfs_read, wake_reader,
}
use ygg_kernel.Vfs.Terminal.{Tty, tty_driver, tty_read, tty_type}

-- The keys are typed one after the other.
unfoldable pub type_all : {S : Type 0} → ReaderOps S → List ℕ → Tty → S → Option (Tty × S)
type_all ops [] t s = some (t, s)
type_all ops (c ∷ cs) t s = elim (tty_type ops c t s) [
  | none ↦ none
  | some (u, s1) ↦ type_all ops cs u s1
]

-- The characters are copied to the task one after the other, from the place `at` on.
unfoldable pub copy_all : {S : Type 0} → ReaderOps S → ℕ → ℕ → List ℕ → S → Option S
copy_all ops task at [] s = some s
copy_all ops task at (c ∷ cs) s = elim (copy_result ops task at (c ∷ []) s) [
  | none ↦ none
  | some s1 ↦ copy_all ops task (at + 1) cs s1
]

-- The terminal and the system behind a copy; with `over`, behind the last copy of a read.
unfoldable pub behind : {S : Type 0} → Tty → Option S → Option (Tty × S)
behind u none = none
behind u (some s) = some (u, s)

unfoldable pub over : {S : Type 0} → ReaderOps S → ℕ → Tty → Option S → Option (Tty × S)
over ops task u none = none
over ops task u (some s) = some (u, wake_reader ops task s)

-- A terminal on which a read of `len` bytes waits, of which `got` have come.
unfoldable pub Waits : Tty → ℕ → ℕ → List ℕ → Type 0
Waits t task len got =
    (t.pending ≡ true)
    × (t.file.task ≡ task)
    × (t.file.op_buf ≡ true)
    × (t.file.op_len ≡ len)
    × (t.file.op_res ≡ length got)
    × (t.file.received ≡ got)

-- A terminal on which no read waits, the last one having got `got`.
unfoldable pub Done : Tty → List ℕ → Type 0
Done t got = (t.pending ≡ false) × (t.file.op_buf ≡ false) × (t.file.received ≡ got)

-- The file that vfs_read hands to its driver.
unfoldable pub locked : File → ℕ → File
locked f len = record f {
  op_buf = true;
  op_res = 0;
  op_len = len;
  op_type = bit_and f.flags 3;
  received = [];
}

module _ {S : Type 0} (ops : ReaderOps S) (task len : ℕ) (small : len < minus_one) where
  type_more :
      (t : Tty) (c : ℕ) (got : List ℕ)
      → Waits t task len got
      → length got + 1 < len
      → (u : Tty) × ((s : S)
          → tty_type ops c t s ≡ behind u (copy_result ops task (length got) (c ∷ []) s))
        × Waits u task len (got ++ c ∷ [])
  unfolding tty_type send_read_res Waits behind
  type_more t c got (p, k, b, l, r, g) lt =
      let a : (t.file.op_res == minus_one) ≡ false = ground arith in
      let d : ltb t.file.op_len 1 ≡ false = ground arith in
      let m : (t.file.op_res + 1) % 2 ^ 32 ≡ t.file.op_res + 1 = omega arith in
      let n : (t.file.op_res + 1 == t.file.op_len) ≡ false = ground arith in
      let u : Tty = record t {
        pending = true;
        file = record t.file { received = t.file.received ++ (c ∷ []); op_res = t.file.op_res + 1 };
      } in
      let at : (s : S)
          → copy_result ops t.file.task t.file.op_res (c ∷ []) s
            ≡ copy_result ops task (length got) (c ∷ []) s =
        λ s.
          ap (λ x. copy_result ops x t.file.op_res (c ∷ []) s) k
          ∙ ap (λ x. copy_result ops task x (c ∷ []) s) r in
      (
        u,
        λ s. elim (Option-cases (copy_result ops task (length got) (c ∷ []) s)) [
          | inl nothing ↦ let e = at s ∙ nothing in rw (p, b, a, d, e, nothing) refl
          | inr (s1, copied) ↦
              let e = at s ∙ copied in
              rw (p, b, a, d, e, d, m, n, copied)
                (ap
                  (λ v. some (
                    record t {
                      pending = true;
                      file = record t.file {
                        received = t.file.received ++ (c ∷ []);
                        op_res = t.file.op_res + 1;
                        op_buf = v;
                      };
                    },
                    s1,
                  ))
                  b)
        ],
        (refl, k, b, l, omega (arith, length-append got (c ∷ [])), ap (λ xs. xs ++ c ∷ []) g),
      )

  type_last :
      (t : Tty) (c : ℕ) (got : List ℕ)
      → Waits t task len got
      → length got + 1 ≡ len
      → (u : Tty) × ((s : S)
          → tty_type ops c t s ≡ over ops task u (copy_result ops task (length got) (c ∷ []) s))
        × Done u (got ++ c ∷ [])
  unfolding tty_type send_read_res Waits Done over
  type_last t c got (p, k, b, l, r, g) lt =
      let a : (t.file.op_res == minus_one) ≡ false = ground arith in
      let d : ltb t.file.op_len 1 ≡ false = ground arith in
      let m : (t.file.op_res + 1) % 2 ^ 32 ≡ t.file.op_res + 1 = omega arith in
      let n : (t.file.op_res + 1 == t.file.op_len) ≡ true = ground arith in
      let u : Tty = record t {
        pending = false;
        file = record t.file {
          received = t.file.received ++ (c ∷ []);
          op_res = t.file.op_res + 1;
          op_buf = false;
        };
      } in
      let at : (s : S)
          → copy_result ops t.file.task t.file.op_res (c ∷ []) s
            ≡ copy_result ops task (length got) (c ∷ []) s =
        λ s.
          ap (λ x. copy_result ops x t.file.op_res (c ∷ []) s) k
          ∙ ap (λ x. copy_result ops task x (c ∷ []) s) r in
      (
        u,
        λ s. elim (Option-cases (copy_result ops task (length got) (c ∷ []) s)) [
          | inl nothing ↦ let e = at s ∙ nothing in rw (p, b, a, d, e, nothing) refl
          | inr (s1, copied) ↦
              let e = at s ∙ copied in
              rw (p, b, a, d, e, d, m, n, copied) (ap (λ x. some (u, wake_reader ops x s1)) k)
        ],
        (refl, refl, ap (λ xs. xs ++ c ∷ []) g),
      )

  type_rest :
      (cs got : List ℕ) (t : Tty)
      → Waits t task len got
      → length got + length cs ≡ len
      → 0 < length cs
      → (u : Tty) × ((s : S)
          → type_all ops cs t s ≡ over ops task u (copy_all ops task (length got) cs s))
        × Done u (got ++ cs)
  unfolding type_all copy_all behind over
  type_rest [] got t h e pos = absurd (omega arith)
  type_rest (c ∷ []) got t h e pos =
      let (u, eq, d) = type_last t c got h (omega arith) in
      (
        u,
        λ s. elim (Option-cases (copy_result ops task (length got) (c ∷ []) s)) [
          | inl nothing ↦ let one = eq s in rw (type_all, one, copy_all, nothing) refl
          | inr (s1, copied) ↦ let one = eq s in rw (type_all, one, copy_all, copied) refl
        ],
        d,
      )
  type_rest (c ∷ d ∷ cs) got t h e pos =
      let (u, eq, h') = type_more t c got h (omega arith) in
      let longer : length (got ++ c ∷ []) ≡ length got + 1 =
        omega (arith, length-append got (c ∷ [])) in
      let (v, eq', done) =
        type_rest (d ∷ cs) (got ++ c ∷ []) u h' (omega (arith, longer)) (omega arith) in
      (
        v,
        λ s. elim (Option-cases (copy_result ops task (length got) (c ∷ []) s)) [
          | inl nothing ↦ let one = eq s in rw (type_all, one, copy_all, nothing) refl
          | inr (s1, copied) ↦
              let one = eq s in
              rw (type_all, one, copy_all, copied)
                (eq' s1 ∙ ap (λ n. over ops task v (copy_all ops task n (d ∷ cs) s1)) longer)
        ],
        subst (Done v) (append_assoc got (c ∷ []) (d ∷ cs)) done,
      )

-- A read of a terminal of `length cs` bytes, at least one, by a task or by the kernel, waits. When
-- that many characters are typed, each is copied to the place behind the one before it in the
-- reader's buffer; if no copy fails, the task is no longer busy, the file has got exactly these
-- characters and is unlocked, and the terminal is free for the next read. A failed copy is the
-- failed assertion that stops the system.
pub read-type :
    {S : Type 0} (ops : ReaderOps S) (s : S) (t : Tty) (f : File) (cs : List ℕ)
    → t.pending ≡ false
    → has_flag f.flags flg_rd ≡ true
    → file_type f.flags ≡ 2
    → f.op_buf ≡ false
    → 0 < length cs
    → length cs < minus_one
    → (waiting done : Tty) × (tty_read t (locked f (length cs)) ≡ some (read_async, waiting))
      × (vfs_read none (some (tty_driver t)) f (length cs) ≡ some (read_async, waiting.file))
      × (type_all ops cs waiting s ≡ over ops f.task done (copy_all ops f.task 0 cs s))
      × Done done cs
unfolding tty_read vfs_read driver Waits locked
read-type ops s t f cs free rd kind unlocked pos w =
    let waiting : Tty = record t { pending = true; file = locked f (length cs) } in
    let (done, eq, ended) =
      type_rest ops f.task (length cs) w cs [] waiting (refl, refl, refl, refl, refl, refl)
        (omega arith) pos in
    (waiting, done, rw free refl, ground (arith, free, rd, kind, unlocked), eq s, ended)
