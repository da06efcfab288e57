-- ===== src/Text/Compare.antt =====
-- Comparison and search of C strings, sys/string.c, against the characters of a string.
use ygg_kernel.Base.{
  List, [], arith, if◌then◌else◌, length, refl, suc, sym, take, take_all, zero, ℕ, ◌-◌, ◌<◌, ◌==◌,
  ◌^◌, ◌↔◌, ◌∙◌, ◌∷◌, ◌≡◌, ◌≢◌,
}
use ygg_kernel.Text.{byte, strcmp, strlen, strncmp, tail, user_strcmp}

-- The characters before the terminator.
unfoldable pub text : List ℕ → List ℕ
text [] = []
text (c ∷ s) = if c == 0 then [] else c ∷ text s

-- strlen counts the characters.
pub strlen-length : (s : List ℕ) → strlen s ≡ length (text s)
unfolding strlen text
strlen-length [] = refl
strlen-length (c ∷ s) = ground (arith, strlen-length s)

text-tail : (b : List ℕ) → byte b ≢ 0 → text b ≡ byte b ∷ text (tail b)
unfolding text
text-tail [] h = absurd (h refl)
text-tail (c ∷ b) h = ground arith

text-nil : (b : List ℕ) → byte b ≡ 0 → text b ≡ []
unfolding text
text-nil [] h = refl
text-nil (c ∷ b) h = ground arith

-- strncmp returns 0 exactly if the first `l` characters of the two strings are the same.
strncmp_iff : (a b : List ℕ) (l : ℕ) → (strncmp a b l ≡ 0) ↔ (take l (text a) ≡ take l (text b))
unfolding strncmp text
strncmp_iff [] b zero = (λ h. refl, λ h. refl)
strncmp_iff [] [] (suc l) = (λ h. refl, λ h. ground arith)
strncmp_iff [] (d ∷ b) (suc l) = (λ h. ground arith, λ h. ground arith)
strncmp_iff (c ∷ a) b zero = (λ h. refl, λ h. refl)
strncmp_iff (c ∷ a) [] (suc l) = (λ h. ground arith, λ h. ground arith)
strncmp_iff (c ∷ a) (d ∷ b) (suc l) =
    let pred : suc l - 1 ≡ l = omega arith in
    (λ h. ground (arith, pred, strncmp_iff a b l), λ h. ground (arith, pred, strncmp_iff a b l))

user_strcmp-strncmp : (a b : List ℕ) (l : ℕ) → length (text a) < l → user_strcmp a b ≡ strncmp a b l
unfolding user_strcmp strncmp text
user_strcmp-strncmp [] b l h = ground arith
user_strcmp-strncmp (c ∷ a) b l h = ground (arith, user_strcmp-strncmp a (tail b) (l - 1))

-- For strings of less than 2 ^ 32 characters strcmp returns 0 exactly if they are the same.
pub strcmp_iff :
    (a b : List ℕ) → strlen a < 2 ^ 32 → strlen b < 2 ^ 32 → (strcmp a b ≡ 0) ↔ (text a ≡ text b)
unfolding strcmp
strcmp_iff a b ha hb =
    let iff = strncmp_iff a b 0xFFFF_FFFF in
    let e = take_all 0xFFFF_FFFF (text a) (omega (arith, strlen-length a)) in
    let f = take_all 0xFFFF_FFFF (text b) (omega (arith, strlen-length b)) in
    (λ h. sym e ∙ iff.0 h ∙ f, λ h. iff.1 (e ∙ h ∙ sym f))

-- strcmp of the kernel, which is strncmp with the greatest limit, and strcmp of the user-space
-- library return the same, for a first string shorter than 2 ^ 32 - 1 characters.
strcmp-user_strcmp : (a b : List ℕ) → strlen a < 0xFFFF_FFFF → strcmp a b ≡ user_strcmp a b
unfolding strcmp
strcmp-user_strcmp a b h =
    sym (user_strcmp-strncmp a b 0xFFFF_FFFF (omega (arith, strlen-length a)))
