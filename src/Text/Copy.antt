-- ===== src/Text/Copy.antt =====
-- Copies of C strings and of memory, sys/string.c and sys/mem.c.
use mathlib.Core.List.{append_assoc}
use native.Mathlib.Numerals.{add-one}
use ygg_kernel.Base.{
  List, [], ap, arith, drop, false, length, length-append, refl, set, suc, sym, true, zero, ℕ,
  ℕ_discrete, ◌++◌, ◌+◌, ◌<◌, ◌==◌, ◌∙◌, ◌∷◌, ◌≡◌, ◌≢◌,
}
use ygg_kernel.Text.{byte, strcpy, strcpy_from, strlen}
use ygg_kernel.Text.Compare.{text}

set-append :
    (pre : List ℕ) (i d v : ℕ) (ds : List ℕ)
    → i ≡ length pre
    → set (pre ++ d ∷ ds) i v ≡ (pre ++ v ∷ []) ++ ds
set-append [] zero d v ds e = refl
set-append [] (suc i) d v ds e = absurd (omega arith)
set-append (x ∷ pre) zero d v ds e = absurd (omega arith)
set-append (x ∷ pre) (suc i) d v ds e = ap (λ ys. x ∷ ys) (set-append pre i d v ds (omega arith))

-- What strcpy leaves of a destination: the characters, the terminator and the rest.
abbrev pub copied : List ℕ → List ℕ → List ℕ
copied dst src = text src ++ (0 ∷ drop (strlen src + 1) dst)

copied-nil : (d : ℕ) (dst : List ℕ) (src : List ℕ) → byte src ≡ 0 → copied (d ∷ dst) src ≡ 0 ∷ dst
unfolding text strlen
copied-nil d dst [] h = ground arith
copied-nil d dst (c ∷ src) h = ground arith

copied-cons : (d c : ℕ) (dst src : List ℕ) → c ≢ 0 → copied (d ∷ dst) (c ∷ src) ≡ c ∷ copied dst src
unfolding text strlen
copied-cons d c dst src h = ground (arith, add-one (strlen src), add-one (strlen src + 1))

strcpy_from-copied :
    (pre dst src : List ℕ) (i : ℕ)
    → i ≡ length pre
    → strlen src < length dst
    → strcpy_from i (pre ++ dst) src ≡ pre ++ copied dst src
unfolding strcpy_from
strcpy_from-copied pre [] src i e h = absurd (omega arith)
strcpy_from-copied pre (d ∷ dst) [] i e h =
    set-append pre i d 0 dst e
    ∙ append_assoc pre (0 ∷ []) dst
    ∙ ap (λ ys. pre ++ ys) (sym (copied-nil d dst [] refl))
strcpy_from-copied pre (d ∷ dst) (c ∷ src) i e h = elim (ℕ_discrete c 0) [
  | yes end ↦
      let stop : (c == 0) ≡ true = ground arith in
      rw stop (
        set-append pre i d 0 dst e
        ∙ append_assoc pre (0 ∷ []) dst
        ∙ ap (λ ys. pre ++ ys) (sym (copied-nil d dst (c ∷ src) end)))
  | no on ↦
      let go : (c == 0) ≡ false = ground arith in
      let shorter : strlen src < length dst = unfold strlen in ground arith in
      let next : i + 1 ≡ length (pre ++ c ∷ []) = omega (arith, length-append pre (c ∷ [])) in
      rw (go, set-append pre i d c dst e)
        (strcpy_from-copied (pre ++ c ∷ []) dst src (i + 1) next shorter
          ∙ append_assoc pre (c ∷ []) (copied dst src)
          ∙ ap (λ ys. pre ++ ys) (sym (copied-cons d c dst src on)))
]

-- In a destination with room for it strcpy writes the characters of the source and a terminator,
-- and leaves what is behind it.
pub strcpy-copied :
    (dst src : List ℕ)
    → strlen src < length dst
    → strcpy dst src ≡ text src ++ (0 ∷ drop (strlen src + 1) dst)
unfolding strcpy
strcpy-copied dst src h = strcpy_from-copied [] dst src 0 refl h
