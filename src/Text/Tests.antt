-- ===== src/Text/Tests.antt =====
-- The C strings at concrete inputs.
use ygg_kernel.Base.{List, [], arith, length, refl, replicate, some, ℕ, ◌<◌, ◌^◌, ◌↔◌, ◌∷◌, ◌≡◌}
use ygg_kernel.Text.{
  atoi, atoi_from, islower, isupper, memcpy, memcpy_from, memset, memset_from, strchr, strcmp,
  strlen, strncmn, togglecase, tolower, toupper,
}
use ygg_kernel.Text.Compare.{strcmp_iff, text}

abbrev word : List ℕ
word = b'i' ∷ b'n' ∷ b'i' ∷ b't' ∷ 0 ∷ b'x' ∷ []

abbrev same : List ℕ
same = b'i' ∷ b'n' ∷ b'i' ∷ b't' ∷ []

abbrev other : List ℕ
other = b'i' ∷ b'n' ∷ b'e' ∷ b't' ∷ []

small : (strlen word < 2 ^ 32) × (strlen same < 2 ^ 32) × (strlen word < 0xFFFF_FFFF)
unfolding strlen
small = (omega arith, omega arith, omega arith)

strcmp_iff_example : (strcmp word same ≡ 0) ↔ (text word ≡ text same)
strcmp_iff_example = strcmp_iff word same small.0 small.1

abbrev block : List ℕ
block = replicate 8 7

room : strlen word < length block
unfolding strlen
room = omega arith

atoi_test : atoi (b'1' ∷ b'0' ∷ b'4' ∷ b'/' ∷ []) ≡ 104
unfolding atoi atoi_from
atoi_test = refl

strchr_test : strchr word b'n' ≡ some (b'n' ∷ b'i' ∷ b't' ∷ 0 ∷ b'x' ∷ [])
unfolding strchr
strchr_test = refl

strncmn_test : strncmn word other 9 ≡ 2
unfolding strncmn
strncmn_test = refl

mem_tests :
    (memset (1 ∷ 2 ∷ 3 ∷ []) 0x1FF 2 ≡ 0xFF ∷ 0xFF ∷ 3 ∷ [])
    × (memcpy (1 ∷ 2 ∷ 3 ∷ []) word 2 ≡ b'i' ∷ b'n' ∷ 3 ∷ [])
unfolding memset memset_from memcpy memcpy_from
mem_tests = (refl, refl)

case_tests : (togglecase b'a' ≡ b'A') × (togglecase b'Q' ≡ b'q') × (tolower b'[' ≡ b'[')
unfolding togglecase toupper tolower isupper islower
case_tests = (refl, refl, refl)
