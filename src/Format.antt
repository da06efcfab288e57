-- ===== src/Format.antt =====
-- The kernel's formatted output, sys/debug.c: numbers, padding and the devices. A string is the
-- list of its bytes, behind whose end memory reads as 0; output is the list of the characters sent
-- to the serial line and to the display, oldest first. Signed overflow wraps.
use ygg_kernel.Base.{
  Bool, List, [], bit_xor, false, get_or, if◌then◌else◌, leb, length, ltb, not, set, suc, true,
  zero, ℕ, ◌%◌, ◌&&◌, ◌++◌, ◌+◌, ◌-◌, ◌/◌, ◌==◌, ◌^◌, ◌∷◌,
}
use ygg_kernel.Text.{strlen}
pub mod Digits
pub mod Interpret
pub mod Dump
pub mod Sizes
pub mod Print
pub mod Tests

-- The digits that the loop of debug_xs or debug_ds writes, lowest first, on fuel that exceeds
-- their number.
unfoldable pub digits : ℕ → ℕ → (ℕ → ℕ) → ℕ → List ℕ
digits zero base set v = []
digits (suc k) base set v =
    let rest = digits k base set (v / base) in if v == 0 then [] else set (v % base) ∷ rest

-- `res[i] ^= res[j]; res[j] ^= res[i]; res[i] ^= res[j];`
unfoldable pub xor_swap : ℕ → ℕ → List ℕ → List ℕ
xor_swap i j l =
    let l1 = set l i (bit_xor (get_or l i 0) (get_or l j 0)) in
    let l2 = set l1 j (bit_xor (get_or l1 j 0) (get_or l1 i 0)) in
    set l2 i (bit_xor (get_or l2 i 0) (get_or l2 j 0))

-- The loop that turns the digits round, with fuel for its rounds.
unfoldable pub turn_from : ℕ → ℕ → ℕ → List ℕ → List ℕ
turn_from zero i j l = l
turn_from (suc k) i j l =
    let rest = turn_from k (i + 1) (j - 1) (xor_swap i j l) in if ltb i j then rest else l

unfoldable pub turn : List ℕ → List ℕ
turn l = turn_from (length l) 0 (length l - 1) l

-- s_debug_xs_set0 and s_debug_xs_set1
abbrev pub xs_set0 : ℕ → ℕ
xs_set0 d = if ltb d 10 then b'0' + d else b'a' + (d - 10)

abbrev pub xs_set1 : ℕ → ℕ
xs_set1 d = if ltb d 10 then b'0' + d else b'A' + (d - 10)

-- 64 digits are enough for every number of 64 bits.
abbrev pub digit_fuel : ℕ
digit_fuel = 64

-- debug_xs
unfoldable pub debug_xs : ℕ → (ℕ → ℕ) → List ℕ
unfolding digits turn turn_from xor_swap
debug_xs v set = if v == 0 then b'0' ∷ [] else turn (digits digit_fuel 16 set v)

-- The magnitude that debug_ds prints and whether it prints a sign, of the 64-bit pattern `x`.
unfoldable pub magnitude : ℕ → Bool → Bool → ℕ × Bool
magnitude x s sz =
    let low = x % 2 ^ 32 in
    if sz
    then (if s && leb (2 ^ 63) x then (2 ^ 64 - x, true) else (x, false))
    else if s && leb (2 ^ 31) low
    then ((if low == 2 ^ 31 then 2 ^ 64 - 2 ^ 31 else 2 ^ 32 - low), true)
    else (x, false)

-- debug_ds
unfoldable pub debug_ds : ℕ → Bool → Bool → List ℕ
unfolding digits turn turn_from xor_swap magnitude
debug_ds x s sz =
    if x == 0
    then b'0' ∷ []
    else let (v, sign) = magnitude x s sz in
      turn (digits digit_fuel 10 (λ d. b'0' + d) v ++ (if sign then b'-' ∷ [] else []))

-- What the two devices have been sent, and the levels from which on they are used.
pub record Output : Type 0 where
  pub serial : List ℕ
  pub display : List ℕ
  pub serial_level : ℕ
  pub disp_level : ℕ

-- debugc
unfoldable pub debugc : ℕ → ℕ → Output → Output
debugc level c o = record o {
  serial = if leb o.serial_level level then o.serial ++ (c ∷ []) else o.serial;
  display = if leb o.disp_level level then o.display ++ (c ∷ []) else o.display;
}

-- debugs: up to the terminator.
unfoldable pub debugs : ℕ → List ℕ → Output → Output
debugs level [] o = o
debugs level (c ∷ s) o = let rest = debugs level s (debugc level c o) in if c == 0 then o else rest

-- The padding loop, of `n` rounds.
unfoldable pub pad : ℕ → ℕ → ℕ → Output → Output
pad zero level p o = o
pad (suc n) level p o = pad n level p (debugc level p o)

-- debugspl and debugspr
unfoldable pub debugspl : ℕ → List ℕ → ℕ → ℕ → Output → Output
unfolding debugs pad debugc
debugspl level s p c o = debugs level s (pad (c - strlen s) level p o)

unfoldable pub debugspr : ℕ → List ℕ → ℕ → ℕ → Output → Output
unfolding debugs pad debugc
debugspr level s p c o = pad (c - strlen s) level p (debugs level s o)

-- debugsp; the signed width is its magnitude and whether it is negative.
unfoldable pub debugsp : ℕ → List ℕ → ℕ → Bool → ℕ → Output → Output
unfolding debugspl debugspr
debugsp level s padc neg width o =
    if not neg && ltb 0 width then debugspl level s padc width o else debugspr level s padc width o
