-- ===== src/Vfs/Lines.antt =====
-- vfs_gets on a file whose characters come one after the other.
use ygg_kernel.Base.{
  List, Option, [], arith, false, if◌then◌else◌, length, none, refl, some, sub32, suc, zero, ℕ,
  ℕ_discrete, ◌+◌, ◌-◌, ◌<◌, ◌==◌, ◌^◌, ◌∷◌, ◌≡◌,
}
use ygg_kernel.Vfs.{gets_from, vfs_gets}

-- A file is the list of the characters that are left.
unfoldable pub next_char : List ℕ → Option (ℕ × List ℕ)
next_char [] = none
next_char (c ∷ s) = some (c, s)

-- The characters before the first newline, and what is behind that newline.
unfoldable pub line : List ℕ → List ℕ
line [] = []
line (c ∷ s) = if c == b'\n' then [] else c ∷ line s

unfoldable pub behind_line : List ℕ → List ℕ
behind_line [] = []
behind_line (c ∷ s) = if c == b'\n' then s else behind_line s

gets_from-line :
    (n : ℕ) (s : List ℕ) → length (line s) < n → gets_from next_char n s ≡ (line s, behind_line s)
unfolding gets_from next_char line behind_line
gets_from-line zero s h = absurd (omega arith)
gets_from-line (suc n) [] h = refl
gets_from-line (suc n) (c ∷ s) h = elim (ℕ_discrete c b'\n') [
  | yes end ↦ ground (arith, end)
  | no on ↦ let ih = gets_from-line n s (ground (arith, on)) in ground (arith, on, ih)
]

-- With a buffer that has room for it vfs_gets returns the first line of what is left, and leaves what
-- is behind its newline.
pub vfs_gets-line :
    (lim c : ℕ) (s : List ℕ)
    → length (line (c ∷ s)) + 1 < lim
    → lim < 2 ^ 32
    → vfs_gets next_char lim (c ∷ s) ≡ (some (line (c ∷ s)), behind_line (c ∷ s))
unfolding vfs_gets next_char
vfs_gets-line lim c s h w =
    let n : sub32 lim 1 ≡ lim - 1 = omega arith in
    let got = gets_from-line (lim - 1) (c ∷ s) (omega arith) in
    let room : (lim - 1 == 0) ≡ false = ground arith in rw (n, room, got) refl
