-- ===== src/Libc/Vsnprintf.antt =====
-- vsnprintf of usr/lib/posix/vsnprintf.c. The arguments are those of Format, the digits are written
-- and turned round by the loops that sys/debug.c has too.
use ygg_kernel.Base.{
  Bool, List, Option, [], false, if◌then◌else◌, leb, length, none, set, some, suc, true, update,
  zero, ℕ, ◌++◌, ◌+◌, ◌-◌, ◌==◌, ◌^◌, ◌||◌, ◌∷◌,
}
use ygg_kernel.Format.{digit_fuel, digits, magnitude, turn, xs_set0, xs_set1}
use ygg_kernel.Format.Interpret.{Arg, num, str, take_num, text_or_null, width_of}
use ygg_kernel.Libc.{Flow, Padding, Sink, and_then, ended, more, put_char, put_string}
use ygg_kernel.Text.{byte, tail}

-- vsnprintf_ds
unfoldable pub vsnprintf_ds : ℕ → Bool → Bool → List ℕ
vsnprintf_ds x s sz =
    if x == 0
    then b'0' ∷ []
    else let (v, sign) = magnitude x s sz in
      turn (digits digit_fuel 10 (λ d. b'0' + d) v ++ (if sign then b'-' ∷ [] else []))

-- vsnprintf_xs
unfoldable pub vsnprintf_xs : ℕ → (ℕ → ℕ) → List ℕ
vsnprintf_xs v set = if v == 0 then b'0' ∷ [] else turn (digits digit_fuel 16 set v)

-- An `int` as the 64 bits of an `int64_t`.
abbrev pub sign_extend : ℕ → ℕ
sign_extend n = if leb (2 ^ 31) n then n + (2 ^ 64 - 2 ^ 32) else n

-- What a conversion sends to the buffer: a __putc, or a __puts with its padding.
pub data Emit : Type 0 where
  char : ℕ → Emit
  field : Padding → List ℕ → Emit

-- The flags and the width behind a `%`, and the format from the conversion character on.
unfoldable pub padding_of : List ℕ → Padding × List ℕ
padding_of fmt =
    let zeros = byte fmt == b'0' in
    let signed = if zeros then tail fmt else fmt in
    let left = byte signed == b'-' in
    let (n, rest) = width_of (if left then tail signed else signed) 0 in
    (record { neg = left; width = n; padc = if zeros then b'0' else b' ' }, rest)

-- A conversion with a number of 32 bits.
unfoldable pub with_number : (ℕ → List Emit) → List Arg → Option (List Emit × List Arg)
with_number show args = elim (take_num 32 args) [
  | none ↦ none
  | some (n, rest) ↦ some (show n, rest)
]

-- `%s`
unfoldable pub with_string : Padding → List Arg → Option (List Emit × List Arg)
with_string sp [] = none
with_string sp (num n ∷ args) = none
with_string sp (str s ∷ args) = some (field sp (text_or_null s) ∷ [], args)

-- `%p`: the prefix, and eight digits.
abbrev pub pointer_emits : ℕ → List Emit
pointer_emits n =
    char b'0'
    ∷ char b'x'
    ∷ field (record { neg = false; width = 8; padc = b'0' }) (vsnprintf_xs n xs_set0)
    ∷ []

-- The conversion of the character `c`; `none` is the failed assertion of `%l`, or an argument that
-- is missing or of another kind.
unfoldable pub emits : ℕ → Padding → List Arg → Option (List Emit × List Arg)
emits c sp args =
    if c == b'l'
    then none
    else if c == b's'
    then with_string sp args
    else if c == b'p'
    then with_number pointer_emits args
    else if c == b'i' || c == b'd'
    then with_number (λ n. field sp (vsnprintf_ds (sign_extend n) true true) ∷ []) args
    else if c == b'u'
    then with_number (λ n. field sp (vsnprintf_ds n false true) ∷ []) args
    else if c == b'x'
    then with_number (λ n. field sp (vsnprintf_xs n xs_set0) ∷ []) args
    else if c == b'X'
    then with_number (λ n. field sp (vsnprintf_xs n xs_set1) ∷ []) args
    else if c == b'c'
    then with_number (λ n. char n ∷ []) args
    else some (char b'%' ∷ char c ∷ [], args)

-- The calls of __putc and __puts in their order, until one of them ends the output.
unfoldable pub emit_all : ℕ → List Emit → Sink → Flow
emit_all len [] o = more o
emit_all len (char c ∷ es) o = and_then (put_char len c o) (emit_all len es)
emit_all len (field sp s ∷ es) o = and_then (put_string len sp s o) (emit_all len es)

-- One round of the loop: what is sent, the arguments and the format that are left.
unfoldable pub round : List ℕ → List Arg → Option (List Emit × List Arg × List ℕ)
round fmt args =
    let (sp, rest) = padding_of (tail fmt) in
    if byte fmt == b'%'
    then elim (emits (byte rest) sp args) [
      | none ↦ none
      | some (es, args') ↦ some (es, args', tail rest)
    ]
    else some (char (byte fmt) ∷ [], args, tail fmt)

-- The loop of vsnprintf, with fuel for its rounds; `none` is that of `emits` or the end of the fuel.
unfoldable pub vsnprintf_loop : ℕ → ℕ → List ℕ → List Arg → Sink → Option Sink
vsnprintf_loop zero len fmt args o = none
vsnprintf_loop (suc k) len fmt args o =
    let next : Option Sink = elim (round fmt args) [
      | none ↦ none
      | some (es, args', fmt') ↦ elim (emit_all len es o) [
        | more o' ↦ vsnprintf_loop k len fmt' args' o'
        | ended o' ↦ some o'
      ]
    ] in
    if byte fmt == 0 then some o else next

-- vsnprintf: the memory of the buffer afterwards and the value returned, with a round for each byte
-- of the format and one for its end.
unfoldable pub vsnprintf : (ℕ → ℕ) → ℕ → List ℕ → List Arg → Option ((ℕ → ℕ) × ℕ)
vsnprintf buf len fmt args =
    elim (vsnprintf_loop (length fmt + 1) len fmt args record { buf = buf; pos = 0 }) [
      | none ↦ none
      | some o ↦ some (update o.buf o.pos 0, o.pos)
    ]
