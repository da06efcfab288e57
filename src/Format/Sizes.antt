-- ===== src/Format/Sizes.antt =====
-- Sizes and addresses as text: fmtsiz of sys/mem.c and net/inet.c.
use ygg_kernel.Base.{
  List, Option, [], bit_or, false, get_or, if◌then◌else◌, leb, none, some, suc, zero, ℕ, ◌%◌, ◌*◌,
  ◌++◌, ◌+◌, ◌-◌, ◌/◌, ◌==◌, ◌^◌, ◌∷◌,
}
use ygg_kernel.Format.{debug_ds}
use ygg_kernel.Text.{atoi, strchr, tail}

-- The loop of fmtsiz: the number left, its tenths and the power.
unfoldable pub fmtsiz_loop : ℕ → ℕ → ℕ → ℕ → Option (ℕ × ℕ × ℕ)
fmtsiz_loop zero f r pwr = none
fmtsiz_loop (suc k) f r pwr =
    let rest = fmtsiz_loop k (f / 1024) (f % 1024 * 10 / 1024) (pwr + 1) in
    if leb 1536 f then rest else some (f, r, pwr)

-- s_fmtsiz_pwrs
unfoldable pub power_char : ℕ → ℕ
power_char p = get_or (b'k' ∷ b'M' ∷ b'G' ∷ b'P' ∷ b'T' ∷ b'E' ∷ b'?' ∷ b'?' ∷ b'?' ∷ []) p 0

-- fmtsiz; four rounds are enough for 32 bits.
unfoldable pub fmtsiz : ℕ → Option (List ℕ)
unfolding fmtsiz_loop power_char
fmtsiz sz = elim (fmtsiz_loop 4 sz 0 0) [
  | none ↦ none
  | some (f, r, pwr) ↦ some (
      debug_ds f false false
      ++ (if pwr == 0 then [] else b'.' ∷ (b'0' + r) ∷ power_char (pwr - 1) ∷ b'i' ∷ [])
      ++ (b'B' ∷ []))
]

-- inet_ntoa: the octets, lowest first.
unfoldable pub inet_ntoa : ℕ → List ℕ
inet_ntoa a =
    debug_ds (a % 256) false false
    ++ (b'.' ∷ debug_ds (a / 2 ^ 8 % 256) false false)
    ++ (b'.' ∷ debug_ds (a / 2 ^ 16 % 256) false false)
    ++ (b'.' ∷ debug_ds (a / 2 ^ 24 % 256) false false)

-- The loop of inet_aton from octet `i` on, `n` octets left; `none` is the failed assertion.
unfoldable pub aton_from : ℕ → ℕ → List ℕ → ℕ → Option ℕ
aton_from zero i p r = some r
aton_from (suc n) i p r =
    let r' = bit_or r (atoi p % 2 ^ 8 * 2 ^ (8 * i)) in
    elim (strchr p b'.') [
      | none ↦ if i == 3 then some r' else none
      | some q ↦ aton_from n (i + 1) (if i == 3 then p else tail q) r'
    ]

-- inet_aton
unfoldable pub inet_aton : List ℕ → Option ℕ
unfolding aton_from
inet_aton s = aton_from 4 0 s 0
