-- ===== src/Libc/Fits.antt =====
-- __putc and __puts of vsnprintf on an output that is shorter than the buffer.
use native.Mathlib.Numerals.{add-one}
use ygg_kernel.Base.{
  Bool-cases, List, Option, [], add32, ap, arith, false, if◌then◌else◌, inl, inr, length,
  length-append, length-replicate, ltb, lt→ltb, none, not_ltb→le, refl, replicate, some, sub32,
  subst, suc, sym, true, update, zero, ℕ, ◌%◌, ◌++◌, ◌+◌, ◌-◌, ◌<◌, ◌==◌, ◌^◌, ◌∙◌, ◌∷◌, ◌≡◌, ◌≤◌,
}
use ygg_kernel.Format.Interpret.{Arg}
use ygg_kernel.Libc.{
  Padding, Sink, memset_at, more, put_char, put_padding, put_part, put_string, strncpy_at,
}
use ygg_kernel.Libc.Vsnprintf.{Emit, char, emit_all, field, round}
use ygg_kernel.Text.{byte, strlen}
use ygg_kernel.Text.Compare.{strlen-length, text}

-- The characters that a call stands for, with no limit.
unfoldable pub spread : Emit → List ℕ
spread (char c) = c % 2 ^ 8 ∷ []
spread (field sp s) =
    let pad = replicate (sp.width - strlen s) (sp.padc % 2 ^ 8) in
    if sp.neg then text s ++ pad else pad ++ text s

unfoldable pub spread_all : List Emit → List ℕ
unfolding spread
spread_all [] = []
spread_all (e ∷ es) = spread e ++ spread_all es

-- The output of a format with no limit, in `k` rounds.
unfoldable pub output : ℕ → List ℕ → List Arg → Option (List ℕ)
output zero fmt args = none
output (suc k) fmt args =
    let next : Option (List ℕ) = elim (round fmt args) [
      | none ↦ none
      | some (es, args', fmt') ↦ elim (output k fmt' args') [
        | none ↦ none
        | some l ↦ some (spread_all es ++ l)
      ]
    ] in
    if byte fmt == 0 then some [] else next

-- The bytes `l` written from place `p` on.
unfoldable pub lay : (ℕ → ℕ) → ℕ → List ℕ → ℕ → ℕ
lay m p [] = m
lay m p (c ∷ l) = lay (update m p c) (p + 1) l

pub lay-append :
    (m : ℕ → ℕ) (p : ℕ) (l r : List ℕ) → lay m p (l ++ r) ≡ lay (lay m p l) (p + length l) r
unfolding lay
lay-append m p [] r = let e : p ≡ p + 0 = omega arith in ap (λ q. lay m q r) e
lay-append m p (c ∷ l) r =
    let e : p + 1 + length l ≡ p + suc (length l) = omega arith in
    lay-append (update m p c) (p + 1) l r ∙ ap (λ q. lay (lay (update m p c) (p + 1) l) q r) e

memset_at-lay : (m : ℕ → ℕ) (p c n : ℕ) → memset_at m p c n ≡ lay m p (replicate n (c % 2 ^ 8))
unfolding memset_at lay
memset_at-lay m p c zero = refl
memset_at-lay m p c (suc n) = memset_at-lay (update m p (c % 2 ^ 8)) (p + 1) c n

strncpy_at-lay : (m : ℕ → ℕ) (p : ℕ) (s : List ℕ) → strncpy_at m p s (strlen s) ≡ lay m p (text s)
unfolding strncpy_at lay strlen text
strncpy_at-lay m p [] = refl
strncpy_at-lay m p (c ∷ s) = elim (Bool-cases (c == 0)) [
  | inl end ↦ rw end refl
  | inr on ↦ rw (on, add-one (strlen s)) (rw on (strncpy_at-lay (update m p c) (p + 1) s))
]

-- The sink with `l` behind what it has.
abbrev pub after : Sink → List ℕ → Sink
after o l = record { buf = lay o.buf o.pos l; pos = o.pos + length l }

pub after-append : (o : Sink) (l r : List ℕ) → after (after o l) r ≡ after o (l ++ r)
after-append o l r =
    let pos : o.pos + length l + length r ≡ o.pos + length (l ++ r) =
      omega (arith, length-append l r) in
    ap (λ q. record { buf = lay (lay o.buf o.pos l) (o.pos + length l) r; pos = q }) pos
    ∙ ap (λ b. record { buf = b; pos = o.pos + length (l ++ r) }) (sym (lay-append o.buf o.pos l r))

put_char-after :
    (len c : ℕ) (o : Sink)
    → o.pos + 1 < len
    → len < 2 ^ 31
    → put_char len c o ≡ more (after o (c % 2 ^ 8 ∷ []))
unfolding put_char lay
put_char-after len c o h hl =
    let test : (o.pos == sub32 len 1) ≡ false = ground arith in
    let up : add32 o.pos 1 ≡ o.pos + 1 = omega arith in rw (test, up) refl

put_part-more :
    (len n : ℕ) (write : (ℕ → ℕ) → ℕ → ℕ → ℕ → ℕ) (o : Sink)
    → o.pos + n ≤ len
    → len < 2 ^ 31
    → put_part len n write o ≡ more (record { buf = write o.buf o.pos n; pos = o.pos + n })
unfolding put_part
put_part-more len n write o h hl =
    let test : ltb (add32 o.pos n) (add32 len 1) ≡ true = lt→ltb _ _ (omega arith) in
    let up : add32 o.pos n ≡ o.pos + n = omega arith in rw (test, up) refl

pub after-nil : (o : Sink) → after o [] ≡ o
unfolding lay
after-nil o =
    let pos : o.pos + 0 ≡ o.pos = omega arith in ap (λ q. record { buf = o.buf; pos = q }) pos

pub laid :
    (o : Sink) (l : List ℕ) (b : ℕ → ℕ) (n : ℕ)
    → b ≡ lay o.buf o.pos l
    → n ≡ length l
    → more (record { buf = b; pos = o.pos + n }) ≡ more (after o l)
laid o l b n e f =
    ap (λ q. more (record { buf = b; pos = o.pos + q })) f
    ∙ ap (λ c. more (record { buf = c; pos = o.pos + length l })) e

-- The padding of a string of `l` characters.
abbrev pad_of : Padding → ℕ → List ℕ
pad_of sp l = replicate (sp.width - l) (sp.padc % 2 ^ 8)

put_padding-after :
    (len : ℕ) (sp : Padding) (l : ℕ) (o : Sink)
    → o.pos + length (pad_of sp l) ≤ len
    → len < 2 ^ 31
    → put_padding len sp l o ≡ more (after o (pad_of sp l))
unfolding put_padding
put_padding-after len sp l o h hl =
    let many = length-replicate (sp.width - l) (sp.padc % 2 ^ 8) in
    elim (Bool-cases (ltb l sp.width)) [
      | inl wide ↦ rw wide (
          put_part-more len (sp.width - l) (λ m p n. memset_at m p sp.padc n) o (omega arith) hl
          ∙ laid o (pad_of sp l) _ _ (memset_at-lay o.buf o.pos sp.padc (sp.width - l)) (sym many))
      | inr narrow ↦
          let none_left : sp.width - l ≡ 0 = omega (arith, not_ltb→le l sp.width narrow) in
          rw (narrow, none_left) (ap more (sym (after-nil o)))
    ]

body-after :
    (len : ℕ) (s : List ℕ) (o : Sink)
    → o.pos + length (text s) ≤ len
    → len < 2 ^ 31
    → put_part len (strlen s) (λ m p n. strncpy_at m p s n) o ≡ more (after o (text s))
body-after len s o h hl =
    let many = strlen-length s in
    put_part-more len (strlen s) (λ m p n. strncpy_at m p s n) o (omega arith) hl
    ∙ laid o (text s) _ _ (strncpy_at-lay o.buf o.pos s) many

pub put_string-after :
    (len : ℕ) (sp : Padding) (s : List ℕ) (o : Sink)
    → o.pos + length (spread (field sp s)) ≤ len
    → len < 2 ^ 31
    → put_string len sp s o ≡ more (after o (spread (field sp s)))
unfolding put_string spread put_padding lay text
put_string-after len sp s o h hl = elim (Bool-cases sp.neg) [
  | inl left ↦
      let pad = pad_of sp (strlen s) in
      let sizes : o.pos + length (text s ++ pad) ≤ len =
        subst (λ b. o.pos + length (if b then text s ++ pad else pad ++ text s) ≤ len) left h in
      let sum = length-append (text s) pad in
      rw
        (
          left,
          body-after len s o (omega arith) hl,
          put_padding-after len sp (strlen s) (after o (text s)) (omega arith) hl,
        )
        (ap (λ q. more q) (after-append o (text s) pad))
  | inr right ↦
      let pad = pad_of sp (strlen s) in
      let sizes : o.pos + length (pad ++ text s) ≤ len =
        subst (λ b. o.pos + length (if b then text s ++ pad else pad ++ text s) ≤ len) right h in
      let sum = length-append pad (text s) in
      rw
        (
          right,
          put_padding-after len sp (strlen s) o (omega arith) hl,
          body-after len s (after o pad) (omega arith) hl,
        )
        (ap (λ q. more q) (after-append o pad (text s)))
]

pub emit_all-after :
    (len : ℕ) (es : List Emit) (o : Sink)
    → o.pos + length (spread_all es) < len
    → len < 2 ^ 31
    → emit_all len es o ≡ more (after o (spread_all es))
unfolding emit_all spread_all
emit_all-after len [] o h hl = ap more (sym (after-nil o))
emit_all-after len (char c ∷ es) o h hl = rw (put_char-after len c o (omega arith) hl) (
    emit_all-after len es (after o (c % 2 ^ 8 ∷ [])) (omega arith) hl
    ∙ ap more (after-append o (c % 2 ^ 8 ∷ []) (spread_all es)))
emit_all-after len (field sp s ∷ es) o h hl =
    let first = spread (field sp s) in
    let sum = length-append first (spread_all es) in
    rw (put_string-after len sp s o (omega arith) hl) (
      emit_all-after len es (after o first) (omega arith) hl
      ∙ ap more (after-append o first (spread_all es)))
