-- ===== src/Text/Ctype.antt =====
-- Letters of both cases, sys/ctype.c.
use ygg_kernel.Base.{
  ==_iff, Bool, all_below-at, false, if◌then◌else◌, not, refl, sym, true, ℕ, ◌<◌, ◌==◌, ◌≡◌,
}
use ygg_kernel.Text.{islower, isupper, togglecase, toupper}

same_test : Bool → Bool → Bool
same_test a b = if a then b else not b

same_test-eq : (a b : Bool) → same_test a b ≡ true → a ≡ b
unfolding same_test
same_test-eq true b h = sym h
same_test-eq false true h = h
same_test-eq false false h = refl

-- For an ASCII character changing the case twice gives it back, and changing it once makes a lower
-- case letter exactly of an upper case letter, and the other way round.
togglecase-togglecase :
    (c : ℕ)
    → c < 128
    → (togglecase (togglecase c) ≡ c)
      × (islower (togglecase c) ≡ isupper c)
      × (isupper (togglecase c) ≡ islower c)
unfolding togglecase toupper isupper islower same_test
togglecase-togglecase c lt =
    let twice = all_below-at 128 (λ d. togglecase (togglecase d) == d) c refl lt in
    let lower = all_below-at 128 (λ d. same_test (islower (togglecase d)) (isupper d)) c refl lt in
    let upper = all_below-at 128 (λ d. same_test (isupper (togglecase d)) (islower d)) c refl lt in
    (
      (==_iff (togglecase (togglecase c)) c).0 twice,
      same_test-eq (islower (togglecase c)) (isupper c) lower,
      same_test-eq (isupper (togglecase c)) (islower c) upper,
    )
