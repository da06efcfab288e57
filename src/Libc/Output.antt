-- ===== src/Libc/Output.antt =====
-- The output of vsnprintf, where the buffer holds it and where it is one byte too short.
use mathlib.Core.Option.{none-ne-some, some-injective}
use mathlib.Core.Option.{none-ne-some}
use ygg_kernel.Base.{
  Bool, Bool-cases, List, Option, Option-cases, [], ap, arith, false, if◌then◌else◌, inl, inr,
  length, length-append, none, refl, some, subst, suc, sym, update, update-eq, zero, ℕ, ◌++◌, ◌+◌,
  ◌-◌, ◌<◌, ◌==◌, ◌^◌, ◌∙◌, ◌∷◌, ◌≡◌, ◌≤◌,
}
use ygg_kernel.Format.Interpret.{Arg, str, width_of}
use ygg_kernel.Libc.{Padding, Sink, more, put_string}
use ygg_kernel.Libc.Fits.{
  after, after-append, after-nil, emit_all-after, lay, lay-append, output, put_string-after, spread,
  spread_all,
}
use ygg_kernel.Libc.Vsnprintf.{
  Emit, emit_all, emits, field, padding_of, round, vsnprintf, vsnprintf_loop, with_string,
}
use ygg_kernel.Text.{byte, strlen}
use ygg_kernel.Text.Compare.{strlen-length, text}

loop-after :
    (k len : ℕ) (fmt : List ℕ) (args : List Arg) (o : Sink) (l : List ℕ)
    → output k fmt args ≡ some l
    → o.pos + length l < len
    → len < 2 ^ 31
    → vsnprintf_loop k len fmt args o ≡ some (after o l)
unfolding vsnprintf_loop output
loop-after zero len fmt args o l e h hl = absurd (none-ne-some l e)
loop-after (suc k) len fmt args o l e h hl =
    let ahead : List Emit → Option (List ℕ) → Option (List ℕ) =
      λ es q. elim q [ none ↦ none | some r ↦ some (spread_all es ++ r) ] in
    let next : Option (List Emit × List Arg × List ℕ) → Option (List ℕ) =
      λ r. elim r [ none ↦ none | some (es, a, f) ↦ ahead es (output k f a) ] in
    let branch : Bool → Option (List ℕ) = λ b. if b then some [] else next (round fmt args) in
    elim (Bool-cases (byte fmt == 0)) [
      | inl end ↦
          let empty = some-injective _ _ (sym (ap branch end) ∙ e) in
          rw end (ap some (sym (after-nil o) ∙ ap (λ r. after o r) empty))
      | inr on ↦ elim (Option-cases (round fmt args)) [
        | inl failed ↦ absurd (none-ne-some l (sym (ap branch on ∙ ap next failed) ∙ e))
        | inr ((es, args', fmt'), sent) ↦ elim (Option-cases (output k fmt' args')) [
          | inl stuck ↦
              absurd (none-ne-some l (sym (ap branch on ∙ ap next sent ∙ ap (ahead es) stuck) ∙ e))
          | inr (rest, behind) ↦
              let whole =
                some-injective _ _ (sym (ap branch on ∙ ap next sent ∙ ap (ahead es) behind) ∙ e) in
              let size : length (spread_all es ++ rest) ≡ length l = ap length whole in
              let sum = length-append (spread_all es) rest in
              rw (on, sent, emit_all-after len es o (omega arith) hl)
                (loop-after k len fmt' args' (after o (spread_all es)) rest behind (omega arith) hl
                  ∙ ap some (after-append o (spread_all es) rest ∙ ap (λ r. after o r) whole))
        ]
      ]
    ]

-- Where the output of a format is shorter than the buffer of less than 2 ^ 31 bytes, vsnprintf
-- writes exactly its characters and a terminator, changes nothing else in memory, and returns their
-- number.
pub vsnprintf-output :
    (buf : ℕ → ℕ) (len : ℕ) (fmt : List ℕ) (args : List Arg) (l : List ℕ)
    → output (length fmt + 1) fmt args ≡ some l
    → length l < len
    → len < 2 ^ 31
    → vsnprintf buf len fmt args ≡ some (lay buf 0 (l ++ (0 ∷ [])), length l)
unfolding vsnprintf lay
vsnprintf-output buf len fmt args l e h hl =
    let start : Sink = record { buf = buf; pos = 0 } in
    rw (loop-after (length fmt + 1) len fmt args start l e (omega arith) hl, vsnprintf)
      (ap (λ n. some (update (lay buf 0 l) (0 + length l) 0, n)) (omega arith)
        ∙ ap (λ m. some (m, length l)) (sym (lay-append buf 0 l (0 ∷ []))))

-- A string of exactly as many characters as the buffer has bytes is copied whole by a `%s` with no
-- width, and the terminator is written one byte behind the buffer: vsnprintf returns the length of
-- the buffer and the byte behind it is 0 afterwards.
pub vsnprintf-overflow :
    (buf : ℕ → ℕ) (len : ℕ) (s : List ℕ)
    → strlen s ≡ len
    → len < 2 ^ 31
    → (vsnprintf buf len (b'%' ∷ b's' ∷ []) (str (some s) ∷ [])
        ≡ some (update (lay buf 0 (text s)) len 0, len))
      × (update (lay buf 0 (text s)) len 0 len ≡ 0)
unfolding round emits padding_of with_string width_of vsnprintf_loop emit_all spread vsnprintf text
vsnprintf-overflow buf len s e hl =
    let start : Sink = record { buf = buf; pos = 0 } in
    let plain : Padding = record { neg = false; width = 0; padc = b' ' } in
    let size = strlen-length s in
    let none_left : 0 - strlen s ≡ 0 = omega arith in
    let bare : spread (field plain s) ≡ text s = rw none_left refl in
    let all : 0 + length (text s) ≡ len = omega arith in
    let fits : 0 + length (spread (field plain s)) ≤ len =
      subst (λ l. 0 + length l ≤ len) (sym bare) (omega arith) in
    let sent : put_string len plain s start ≡ more (after start (text s)) =
      put_string-after len plain s start fits hl ∙ ap (λ l. more (after start l)) bare in
    let run : vsnprintf buf len (b'%' ∷ b's' ∷ []) (str (some s) ∷ [])
        ≡ some (update (lay buf 0 (text s)) (0 + length (text s)) 0, 0 + length (text s)) =
      rw (sent, vsnprintf) refl in
    (
      run ∙ ap (λ n. some (update (lay buf 0 (text s)) n 0, n)) all,
      update-eq (lay buf 0 (text s)) len 0,
    )
