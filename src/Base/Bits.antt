-- ===== src/Base/Bits.antt =====
-- Families over numbers changed at one index, and a 32-bit word as the family of its bits.
use Prim.Native.Nat.{ℕ, zero, suc, ◌<◌, ◌+◌, ◌-◌, ◌%◌, ◌^◌, bit_and}
use mathlib.Core.Path.{◌≡◌}
use mathlib.Core.Bool.{Bool, true, false, not, ◌&&◌}
use native.Mathlib.Omega.{arith}
use ygg_kernel.Base.Tests.{◌==◌, if◌then◌else◌, Bool-cases}
use mathlib.Core.Logic.{◌≢◌, inl, inr}

-- Bit `j` of a `uint32_t`, for `j` below 32.
abbrev pub Word : Type 0
Word = ℕ → Bool

-- The family `f` with `a` at index `i`.
abbrev pub update {ℓ} : {A : Type ℓ} → (ℕ → A) → ℕ → A → ℕ → A
update f i a j = if i == j then a else f j

pub update-ne {ℓ} : {A : Type ℓ} (f : ℕ → A) (i : ℕ) (a : A) (j : ℕ) → i ≢ j → update f i a j ≡ f j
update-ne f i a j h = let other : (i == j) ≡ false = ground (arith, h) in rw other

pub update-eq {ℓ} : {A : Type ℓ} (f : ℕ → A) (i : ℕ) (a : A) → update f i a i ≡ a
update-eq f i a = let same : (i == i) ≡ true = ground arith in rw same

-- `flags & mask` as a condition.
abbrev pub has_flag : ℕ → ℕ → Bool
has_flag flags mask = not (bit_and flags mask == 0)

-- Every one of the lowest `n` bits is set: `w == 0xFFFFFFFF` at 32.
unfoldable pub is_full : ℕ → Word → Bool
is_full zero w = true
is_full (suc n) w = w n && is_full n w

-- Every one of the lowest `n` bits is clear: `w == 0` at 32.
unfoldable pub is_clear : ℕ → Word → Bool
is_clear zero w = true
is_clear (suc n) w = not (w n) && is_clear n w

pub is_full-bit : (n j : ℕ) (w : Word) → is_full n w ≡ true → j < n → w j ≡ true
unfolding is_full
is_full-bit zero j w h lt = absurd (omega arith)
is_full-bit (suc n) j w h lt = ground (arith, is_full-bit n j w)

pub is_clear-bit : (n j : ℕ) (w : Word) → is_clear n w ≡ true → j < n → w j ≡ false
unfolding is_clear
is_clear-bit zero j w h lt = absurd (omega arith)
is_clear-bit (suc n) j w h lt = ground (arith, is_clear-bit n j w)

-- A word that is not full has a clear bit.
pub is_full-false : (n : ℕ) (w : Word) → is_full n w ≡ false → (j : ℕ) × (j < n) × (w j ≡ false)
unfolding is_full
is_full-false zero w h = absurd (ground arith)
is_full-false (suc n) w h = elim (Bool-cases (w n)) [
  | inr clear ↦ (n, omega arith, clear)
  | inl taken ↦
      let (j, lt, clear) = is_full-false n w (ground (arith, taken)) in (j, omega arith, clear)
]

-- uint32_t a + b and a - b.
abbrev pub add32 : ℕ → ℕ → ℕ
add32 a b = (a + b) % 2 ^ 32

abbrev pub sub32 : ℕ → ℕ → ℕ
sub32 a b = (a + 2 ^ 32 - b) % 2 ^ 32

-- MM_ALIGN_UP at a power of two.
abbrev pub align_up : ℕ → ℕ → ℕ
align_up p a = add32 p (a - 1) - add32 p (a - 1) % a
