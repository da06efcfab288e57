-- ===== src/Format/Interpret.antt =====
-- The interpreter of format strings, debugfv of sys/debug.c.
use ygg_kernel.Base.{
  Bool, List, Option, [], false, if◌then◌else◌, leb, length, none, some, suc, true, zero, ℕ, ◌%◌,
  ◌&&◌, ◌*◌, ◌+◌, ◌-◌, ◌/◌, ◌==◌, ◌^◌, ◌∷◌,
}
use ygg_kernel.Format.{Output, debug_ds, debug_xs, debugc, debugsp, debugspl, xs_set0, xs_set1}
use ygg_kernel.Text.{byte, tail}

-- An argument of a call: a number of up to 64 bits, or a pointer to a string (`none` is NULL).
pub data Arg : Type 0 where
  num : ℕ → Arg
  str : Option (List ℕ) → Arg

-- `va_arg` at a type of `w` bits; `none` where the argument is missing or of the other kind.
unfoldable pub take_num : ℕ → List Arg → Option (ℕ × List Arg)
take_num w [] = none
take_num w (num n ∷ args) = some (n % 2 ^ w, args)
take_num w (str s ∷ args) = none

-- The digits of a width.
unfoldable pub width_of : List ℕ → ℕ → ℕ × List ℕ
width_of [] n = (n, [])
width_of (c ∷ s) n =
    let rest = width_of s (n * 10 + (c - b'0')) in
    if leb b'0' c && leb c b'9' then rest else (n, c ∷ s)

-- A conversion with its padding.
pub record Spec : Type 0 where
  pub padc : ℕ
  pub neg : Bool
  pub width : ℕ

unfoldable pub null_text : List ℕ
null_text = b'(' ∷ b'n' ∷ b'u' ∷ b'l' ∷ b'l' ∷ b')' ∷ []

abbrev pub text_or_null : Option (List ℕ) → List ℕ
text_or_null none = null_text
text_or_null (some s) = s

-- One conversion with a number of `w` bits, printed by `show` and padded.
unfoldable pub number : ℕ → (ℕ → List ℕ) → ℕ → Spec → List Arg → Output → Option (List Arg × Output)
number w show level sp args o = elim (take_num w args) [
  | none ↦ none
  | some (n, rest) ↦ some (rest, debugsp level (show n) sp.padc sp.neg sp.width o)
]

-- `%p` and `%lp`: the prefix, and as many digits as the type has.
unfoldable pub pointer : ℕ → ℕ → List Arg → Output → Option (List Arg × Output)
pointer w level args o = elim (take_num w args) [
  | none ↦ none
  | some (n, rest) ↦ some (
    rest,
    debugspl level (debug_xs n xs_set0) b'0' (w / 4) (debugc level b'x' (debugc level b'0' o)),
  )
]

-- The conversions behind `l`.
unfoldable pub long_conversion : ℕ → ℕ → Spec → List Arg → Output → Option (List Arg × Output)
long_conversion c level sp args o =
    if c == b'd'
    then number 64 (λ n. debug_ds n true true) level sp args o
    else if c == b'u'
    then number 64 (λ n. debug_ds n false true) level sp args o
    else if c == b'x'
    then number 64 (λ n. debug_xs n xs_set0) level sp args o
    else if c == b'X'
    then number 64 (λ n. debug_xs n xs_set1) level sp args o
    else if c == b'p'
    then pointer 64 level args o
    else some (args, debugc level c (debugc level b'l' (debugc level b'%' o)))

unfoldable pub char_conversion : ℕ → List Arg → Output → Option (List Arg × Output)
char_conversion level args o = elim (take_num 8 args) [
  | none ↦ none
  | some (n, rest) ↦ some (rest, debugc level n o)
]

unfoldable pub text_conversion : ℕ → Spec → List Arg → Output → Option (List Arg × Output)
text_conversion level sp [] o = none
text_conversion level sp (num n ∷ args) o = none
text_conversion level sp (str s ∷ args) o =
    some (args, debugsp level (text_or_null s) sp.padc sp.neg sp.width o)

-- The conversions of one character.
unfoldable pub conversion : ℕ → ℕ → Spec → List Arg → Output → Option (List Arg × Output)
conversion c level sp args o =
    if c == b'c'
    then char_conversion level args o
    else if c == b'd'
    then number 32 (λ n. debug_ds n true false) level sp args o
    else if c == b'u'
    then number 32 (λ n. debug_ds n false false) level sp args o
    else if c == b'x'
    then number 32 (λ n. debug_xs n xs_set0) level sp args o
    else if c == b'X'
    then number 32 (λ n. debug_xs n xs_set1) level sp args o
    else if c == b'p'
    then pointer 32 level args o
    else if c == b's'
    then text_conversion level sp args o
    else some (args, debugc level c (debugc level b'%' o))

-- What follows a `%`: the padding, and the format from the conversion character on.
unfoldable pub directive : List ℕ → Spec × List ℕ
directive fmt =
    let neg = byte fmt == b'-' in
    let (n, rest) = width_of (if neg then tail fmt else fmt) 0 in
    (record { padc = if byte fmt == b'0' then b'0' else b' '; neg = neg; width = n }, rest)

-- The conversion at the start of `fmt`, and the format behind it.
unfoldable pub convert : ℕ → Spec → List ℕ → List Arg → Output → List ℕ × Option (List Arg × Output)
convert level sp fmt args o =
    if byte fmt == b'l'
    then (tail (tail fmt), long_conversion (byte (tail fmt)) level sp args o)
    else (tail fmt, conversion (byte fmt) level sp args o)

-- The loop of debugfv; `none` is a missing argument or the end of the fuel.
unfoldable pub debugfv_loop : ℕ → ℕ → List ℕ → List Arg → Output → Option Output
debugfv_loop zero level fmt args o = none
debugfv_loop (suc k) level fmt args o =
    let (sp, spec) = directive (tail fmt) in
    let (after, done) = convert level sp spec args o in
    let plain = debugfv_loop k level (tail fmt) args (debugc level (byte fmt) o) in
    let next : Option Output = elim done [
      | none ↦ none
      | some (args', o') ↦ debugfv_loop k level after args' o'
    ] in
    if byte fmt == 0 then some o else if byte fmt == b'%' then next else plain

-- debugfv, with a round for each byte of the format and one for its end.
unfoldable pub debugfv : ℕ → List ℕ → List Arg → Output → Option Output
debugfv level fmt args o = debugfv_loop (length fmt + 1) level fmt args o
