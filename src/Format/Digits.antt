-- ===== src/Format/Digits.antt =====
-- The digits of a number, as debug_ds and debug_xs write them.
use native.Mathlib.Omega.{pow_step}
use ygg_kernel.Base.{
  List, [], ap, arith, false, map, refl, set, suc, zero, ℕ, ℕ_discrete, ◌%◌, ◌*◌, ◌+◌, ◌/◌, ◌<◌,
  ◌==◌, ◌^◌, ◌∙◌, ◌∷◌, ◌≡◌,
}
use ygg_kernel.Format.{digit_fuel, digits}

-- The number whose digits in the base are these, lowest first.
unfoldable pub value : ℕ → List ℕ → ℕ
value base [] = 0
value base (d ∷ ds) = d + base * value base ds

unfoldable pub Below : ℕ → List ℕ → Type 0
Below base [] = Unit
Below base (d ∷ ds) = (d < base) × Below base ds

-- Characters that stand for the number in the base: each is the set's character of a digit.
unfoldable pub Writes : ℕ → (ℕ → ℕ) → List ℕ → ℕ → Type 0
Writes base set cs v = (ds : List ℕ) × (cs ≡ map set ds) × (value base ds ≡ v) × Below base ds

module _ (base : ℕ) (set : ℕ → ℕ) (parts : (v : ℕ) → v % base + base * (v / base) ≡ v)
    (small : (v : ℕ) → v % base < base) (shrinks : (v p : ℕ) → v < 2 * p → v / base < p) where
  digits_lem : (k v : ℕ) → v < 2 ^ k → Writes base set (digits k base set v) v
  unfolding digits Writes value Below
  digits_lem zero v lt = ([], refl, omega arith, tt)
  digits_lem (suc k) v lt = elim (ℕ_discrete v 0) [
    | yes none_left ↦ ([], ground (arith, none_left), omega arith, tt)
    | no more ↦
        let double : 2 ^ suc k ≡ 2 * 2 ^ k = pow_step 2 k in
        let go_on : (v == 0) ≡ false = ground (arith, more) in
        let (ds, e, val, below) =
          digits_lem k (v / base) (shrinks v (2 ^ k) (omega (arith, double))) in
        (
          v % base ∷ ds,
          rw (go_on, e) refl,
          ap (λ x. v % base + base * x) val ∙ parts v,
          (small v, below),
        )
  ]

-- For a number of 64 bits the loop of debug_ds writes its decimal digits, lowest first.
pub digits_decimal :
    (set : ℕ → ℕ) (v : ℕ) → v < 2 ^ 64 → Writes 10 set (digits digit_fuel 10 set v) v
digits_decimal set v lt =
    digits_lem 10 set (λ v. omega arith) (λ v. omega arith) (λ v p h. omega arith) 64 v lt

-- For a number of 64 bits the loop of debug_xs writes its hexadecimal digits, lowest first.
pub digits_hexadecimal :
    (set : ℕ → ℕ) (v : ℕ) → v < 2 ^ 64 → Writes 16 set (digits digit_fuel 16 set v) v
digits_hexadecimal set v lt =
    digits_lem 16 set (λ v. omega arith) (λ v. omega arith) (λ v p h. omega arith) 64 v lt
