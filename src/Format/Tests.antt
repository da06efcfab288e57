-- ===== src/Format/Tests.antt =====
-- Formatted output at concrete inputs.
use ygg_kernel.Base.{List, [], arith, false, refl, true, ℕ, ◌+◌, ◌-◌, ◌^◌, ◌∷◌, ◌≡◌}
use ygg_kernel.Format.{
  Output, debug_ds, debug_xs, debugc, digit_fuel, digits, magnitude, turn, turn_from, xor_swap,
  xs_set0,
}
use ygg_kernel.Format.Digits.{Writes, digits_decimal}
use ygg_kernel.Format.Dump.{dump_byte, dump_chars, dump_word, dump_words}
use ygg_kernel.Format.Sizes.{inet_ntoa}
use ygg_kernel.Text.{isprint}

abbrev silent : Output
silent = record { serial = []; display = []; serial_level = 0; disp_level = 3 }

number_tests :
    (debug_xs 0xBEEF xs_set0 ≡ b'b' ∷ b'e' ∷ b'e' ∷ b'f' ∷ [])
    × (debug_ds (2 ^ 32 - 120) true false ≡ b'-' ∷ b'1' ∷ b'2' ∷ b'0' ∷ [])
unfolding debug_xs debug_ds digits turn turn_from xor_swap magnitude
number_tests = (refl, refl)

address_test :
    inet_ntoa 0x0201_A8C0
    ≡ b'1' ∷ b'9' ∷ b'2' ∷ b'.' ∷ b'1' ∷ b'6' ∷ b'8' ∷ b'.' ∷ b'1' ∷ b'.' ∷ b'2' ∷ []
unfolding inet_ntoa debug_ds digits turn turn_from xor_swap magnitude
address_test = refl

digits_decimal_example : Writes 10 (λ d. b'0' + d) (digits digit_fuel 10 (λ d. b'0' + d) 1024) 1024
digits_decimal_example = digits_decimal (λ d. b'0' + d) 1024 (omega arith)

abbrev quiet : Output
quiet = record { serial = []; display = []; serial_level = 0; disp_level = 9 }

-- Three bytes at 0x10 fill two words of the line.
abbrev dumped : List ℕ
dumped = (dump_words 3 0 (b'A' ∷ b'B' ∷ 10 ∷ []) 0 quiet).serial

dump_test :
    (dumped
      ≡ b'4' ∷ b'1' ∷ b'4' ∷ b'2' ∷ b' ' ∷ b'0' ∷ b'A' ∷ b'0' ∷ b'0' ∷ b' ' ∷ b' ' ∷ b' ' ∷ b' '
        ∷ [])
    × ((dump_chars 0 (b'A' ∷ b'B' ∷ 10 ∷ []) quiet).serial ≡ b'A' ∷ b'B' ∷ b'.' ∷ [])
unfolding dump_words dump_word dump_byte dump_chars debugc isprint
dump_test = (refl, refl)
