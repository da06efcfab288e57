-- ===== src/Libc.antt =====
-- The user-space library, usr/lib/posix: the strings of string.c and the formatted output of
-- vsnprintf.c. A buffer is the memory from its first byte on, a family of bytes, so that what is
-- written behind its end is seen.
use ygg_kernel.Base.{
  Bool, List, [], add32, if◌then◌else◌, ltb, sub32, suc, update, zero, ℕ, ◌%◌, ◌+◌, ◌-◌, ◌==◌, ◌^◌,
  ◌∷◌,
}
use ygg_kernel.Text.{strlen}
pub mod Vsnprintf
pub mod Fits
pub mod Output
pub mod Enough
pub mod Tests

-- The buffer of vsnprintf and the number of characters in it, `buf` and `p`.
pub record Sink : Type 0 where
  pub buf : ℕ → ℕ
  pub pos : ℕ

-- Whether the output goes on, or `goto __end` was taken.
pub data Flow : Type 0 where
  more : Sink → Flow
  ended : Sink → Flow

abbrev pub and_then : Flow → (Sink → Flow) → Flow
and_then (more o) f = f o
and_then (ended o) f = ended o

-- memset, of `n` bytes from place `p` on.
unfoldable pub memset_at : (ℕ → ℕ) → ℕ → ℕ → ℕ → ℕ → ℕ
memset_at m p c zero = m
memset_at m p c (suc n) = memset_at (update m p (c % 2 ^ 8)) (p + 1) c n

-- strncpy of usr/lib/posix/string.c, to place `p` on; the terminator is written only where the
-- limit is not reached.
unfoldable pub strncpy_at : (ℕ → ℕ) → ℕ → List ℕ → ℕ → ℕ → ℕ
strncpy_at m p [] l = if l == 0 then m else update m p 0
strncpy_at m p (c ∷ s) zero = m
strncpy_at m p (c ∷ s) (suc l) =
    let rest = strncpy_at (update m p c) (p + 1) s l in if c == 0 then update m p 0 else rest

-- __putc, into a buffer of `len` bytes; a size_t has 32 bits.
unfoldable pub put_char : ℕ → ℕ → Sink → Flow
put_char len c o =
    if o.pos == sub32 len 1
    then ended o
    else more record { buf = update o.buf o.pos (c % 2 ^ 8); pos = add32 o.pos 1 }

-- One part of __puts: `n` bytes by `write`, or as many as are left before the last one.
unfoldable pub put_part : ℕ → ℕ → ((ℕ → ℕ) → ℕ → ℕ → ℕ → ℕ) → Sink → Flow
put_part len n write o =
    if ltb (add32 o.pos n) (add32 len 1)
    then more record { buf = write o.buf o.pos n; pos = add32 o.pos n }
    else ended record { buf = write o.buf o.pos (sub32 (sub32 len 1) o.pos); pos = sub32 len 1 }

-- padn, pads and padc: the width is the magnitude of padn.
pub record Padding : Type 0 where
  pub neg : Bool
  pub width : ℕ
  pub padc : ℕ

-- The padding of __puts for a string of `l` characters.
unfoldable pub put_padding : ℕ → Padding → ℕ → Sink → Flow
put_padding len sp l o =
    if ltb l sp.width
    then put_part len (sp.width - l) (λ m p n. memset_at m p sp.padc n) o
    else more o

-- __puts of the string `s`.
unfoldable pub put_string : ℕ → Padding → List ℕ → Sink → Flow
put_string len sp s o =
    let l = strlen s in
    let body : Sink → Flow = put_part len l (λ m p n. strncpy_at m p s n) in
    if sp.neg
    then and_then (body o) (put_padding len sp l)
    else and_then (put_padding len sp l o) body
