-- ===== src/Libc/Tests.antt =====
-- Runs of vsnprintf, and instances of its theorems.
use ygg_kernel.Base.{Bool, List, [], arith, length, refl, some, update, ℕ, ◌++◌, ◌-◌, ◌^◌, ◌∷◌, ◌≡◌}
use ygg_kernel.Format.{debug_ds, digits, magnitude, turn, turn_from, xor_swap}
use ygg_kernel.Format.Interpret.{Arg, num, str, take_num, width_of}
use ygg_kernel.Libc.Fits.{lay, output, spread, spread_all}
use ygg_kernel.Libc.Output.{vsnprintf-output, vsnprintf-overflow}
use ygg_kernel.Libc.Vsnprintf.{emits, padding_of, round, vsnprintf, vsnprintf_ds, with_number}
use ygg_kernel.Text.{strlen}
use ygg_kernel.Text.Compare.{text}

-- "%05d", and -42.
abbrev minus_format : List ℕ
minus_format = b'%' ∷ b'0' ∷ b'5' ∷ b'd' ∷ []

abbrev minus_args : List Arg
minus_args = num (2 ^ 32 - 42) ∷ []

abbrev minus_text : List ℕ
minus_text = b'0' ∷ b'0' ∷ b'-' ∷ b'4' ∷ b'2' ∷ []

abbrev zeros : ℕ → ℕ
zeros k = 0

minus_output : output 5 minus_format minus_args ≡ some minus_text
unfolding output round emits padding_of width_of with_number take_num vsnprintf_ds digits magnitude
    turn turn_from xor_swap spread_all spread text strlen
minus_output = refl

vsnprintf-output_example :
    vsnprintf zeros 16 minus_format minus_args
    ≡ some (lay zeros 0 (minus_text ++ (0 ∷ [])), length minus_text)
vsnprintf-output_example =
    vsnprintf-output zeros 16 minus_format minus_args minus_text minus_output (omega arith)
      (omega arith)

-- A string of four characters, for a buffer of four bytes.
abbrev four : List ℕ
four = b'a' ∷ b'b' ∷ b'c' ∷ b'd' ∷ []

four-size : strlen four ≡ 4
unfolding strlen
four-size = refl

vsnprintf-overflow_example :
    (vsnprintf zeros 4 (b'%' ∷ b's' ∷ []) (str (some four) ∷ [])
      ≡ some (update (lay zeros 0 (text four)) 4 0, 4))
    × (update (lay zeros 0 (text four)) 4 0 4 ≡ 0)
vsnprintf-overflow_example = vsnprintf-overflow zeros 4 four four-size (omega arith)

-- The digits are those of the kernel's formatted output.
vsnprintf_ds-debug_ds : (x : ℕ) (s sz : Bool) → vsnprintf_ds x s sz ≡ debug_ds x s sz
unfolding vsnprintf_ds debug_ds
vsnprintf_ds-debug_ds x s sz = refl
