-- ===== src/Console/Rows.antt =====
-- The rows of the text console's screen against the lines of a page, for each change of the cells.
use native.Mathlib.Nat.{mul-le-mul_right}
use ygg_kernel.Base.{
  List, [], arith, bit_or, dec_lt, false, get_or, if◌then◌else◌, inl, inr, leb, length, ltb, lt→ltb,
  refl, suc, sym, true, update, ℕ, ◌&&◌, ◌*◌, ◌++◌, ◌+◌, ◌-◌, ◌<◌, ◌==◌, ◌∙◌, ◌∷◌, ◌≡◌, ◌≤◌, ◌⊎◌,
}
use ygg_kernel.Console.Page.{cell_of, cell_of-append, cell_of-shorter, page_newline, shorter, shown}

-- A row of cells ends where the next one begins.
pub row-below : (r n j w : ℕ) → r < n → j < w → r * w + j < n * w
row-below r n j w h g = let rows : suc r * w ≤ n * w = mul-le-mul_right w h in omega arith

order-cases : (a b : ℕ) → (a < b) ⊎ ((a ≡ b) ⊎ (b < a))
order-cases a b = ground arith

-- A write to one cell of the screen, seen by rows and columns.
pub update-cell :
    (m : ℕ → ℕ) (w y x v r j : ℕ)
    → j < w
    → x < w
    → update m (y * w + x) v (r * w + j) ≡ (if r == y && j == x then v else m (r * w + j))
update-cell m w y x v r j hj hx = elim (order-cases r y) [
  | inl less ↦
      let gap = row-below r y j w less hj in
      let other : (y * w + x == r * w + j) ≡ false = ground arith in rw other (ground arith)
  | inr (inl same) ↦ rw same (ground arith)
  | inr (inr more) ↦
      let gap = row-below y r x w more hx in
      let other : (y * w + x == r * w + j) ≡ false = ground arith in rw other (ground arith)
]

-- The cells of the screen show the page, with the cursor in row `y`.
abbrev pub Rows : List ℕ × List (List ℕ) → (ℕ → ℕ) → ℕ → ℕ → ℕ → Type 0
Rows page m w h y = (r j : ℕ) → r < h → j < w → m (r * w + j) ≡ shown page y r j

module _ (line : List ℕ) (past : List (List ℕ)) (y j : ℕ) where
  shown-above : (r : ℕ) → y < r → shown (line, past) y r j ≡ 0x0700
  shown-above r h = let above : leb r y ≡ false = ground arith in rw above refl

  shown-last : shown (line, past) y y j ≡ cell_of line j
  shown-last =
      let at : leb y y ≡ true = ground arith in
      let first : y - y ≡ 0 = omega arith in rw (at, first) refl

  shown-earlier :
      (r k : ℕ) → y ≡ r + suc k → shown (line, past) y r j ≡ cell_of (get_or past k []) j
  shown-earlier r k e =
      let below : leb r y ≡ true = ground arith in
      let back : y - r ≡ suc k = omega arith in rw (below, back) refl

pub Rows-put :
    (line : List ℕ) (past : List (List ℕ)) (m : ℕ → ℕ) (c w h y : ℕ)
    → Rows (line, past) m w h y
    → length line < w
    → Rows (line ++ (c ∷ []), past) (update m (y * w + length line) (bit_or 0x0700 c)) w h y
Rows-put line past m c w h y rows short r j hr hj =
    update-cell m w y (length line) (bit_or 0x0700 c) r j hj short ∙ elim (order-cases r y) [
      | inl less ↦
          let other : (r == y) ≡ false = ground arith in
          rw other (
            rows r j hr hj
            ∙ shown-earlier line past y j r (y - r - 1) (omega arith)
            ∙ sym (shown-earlier (line ++ (c ∷ [])) past y j r (y - r - 1) (omega arith)))
      | inr (inl same) ↦
          let at : m (y * w + j) ≡ cell_of line j =
            rows y j (omega arith) hj ∙ shown-last line past y j in
          rw (same, at, shown-last (line ++ (c ∷ [])) past y j, cell_of-append line c j)
            (ground arith)
      | inr (inr more) ↦
          let other : (r == y) ≡ false = ground arith in
          rw other (
            rows r j hr hj
            ∙ shown-above line past y j r more
            ∙ sym (shown-above (line ++ (c ∷ [])) past y j r more))
    ]

pub Rows-backspace :
    (line : List ℕ) (past : List (List ℕ)) (m : ℕ → ℕ) (w h y x : ℕ)
    → Rows (line, past) m w h y
    → length line < w
    → length line ≡ x + 1
    → Rows (shorter line, past) (update m (y * w + x) 0x0700) w h y
Rows-backspace line past m w h y x rows short e r j hr hj =
    update-cell m w y x 0x0700 r j hj (omega arith) ∙ elim (order-cases r y) [
      | inl less ↦
          let other : (r == y) ≡ false = ground arith in
          rw other (
            rows r j hr hj
            ∙ shown-earlier line past y j r (y - r - 1) (omega arith)
            ∙ sym (shown-earlier (shorter line) past y j r (y - r - 1) (omega arith)))
      | inr (inl same) ↦
          let at : m (y * w + j) ≡ cell_of line j =
            rows y j (omega arith) hj ∙ shown-last line past y j in
          rw (same, at, shown-last (shorter line) past y j, cell_of-shorter line j) (ground arith)
      | inr (inr more) ↦
          let other : (r == y) ≡ false = ground arith in
          rw other (
            rows r j hr hj
            ∙ shown-above line past y j r more
            ∙ sym (shown-above (shorter line) past y j r more))
    ]

newline-blank :
    (line : List ℕ) (past : List (List ℕ)) (y r j : ℕ)
    → y < r
    → shown ([], line ∷ past) (y + 1) r j ≡ 0x0700
unfolding cell_of
newline-blank line past y r j h = elim (order-cases r (y + 1)) [
  | inl less ↦ absurd (omega arith)
  | inr (inl same) ↦ rw same (shown-last [] (line ∷ past) (y + 1) j)
  | inr (inr more) ↦ shown-above [] (line ∷ past) (y + 1) j r more
]

pub Rows-newline :
    (page : List ℕ × List (List ℕ)) (m : ℕ → ℕ) (w h y : ℕ)
    → Rows page m w h y
    → Rows (page_newline page) m w h (y + 1)
Rows-newline (line, past) m w h y rows r j hr hj = elim (order-cases r y) [
  | inl less ↦
      rows r j hr hj
      ∙ shown-earlier line past y j r (y - r - 1) (omega arith)
      ∙ sym (shown-earlier [] (line ∷ past) (y + 1) j r (suc (y - r - 1)) (omega arith))
  | inr (inl same) ↦
      rows r j hr hj
      ∙ rw same (shown-last line past y j)
      ∙ sym (shown-earlier [] (line ∷ past) (y + 1) j r 0 (omega arith))
  | inr (inr more) ↦
      rows r j hr hj ∙ shown-above line past y j r more ∙ sym (newline-blank line past y r j more)
]

-- One row up, for the cursor and for the row that is looked at.
shown-shift :
    (line : List ℕ) (past : List (List ℕ)) (y r j z : ℕ)
    → y ≡ z + 1
    → r ≤ z
    → shown (line, past) y (r + 1) j ≡ shown (line, past) z r j
shown-shift line past y r j z e h =
    let here : leb (r + 1) y ≡ true = ground arith in
    let there : leb r z ≡ true = ground arith in
    let back : y - (r + 1) ≡ z - r = omega arith in rw (here, there, back) refl

pub Rows-scroll :
    (page : List ℕ × List (List ℕ)) (m n : ℕ → ℕ) (w h y : ℕ)
    → Rows page m w h y
    → y + 1 ≡ h
    → 2 ≤ h
    → ((k : ℕ)
        → n k ≡ (if ltb k ((h - 1) * w) then m (k + w) else if ltb k (h * w) then 0x0700 else m k))
    → Rows page n w h (h - 2)
Rows-scroll (line, past) m n w h y rows e low moved r j hr hj =
    moved (r * w + j) ∙ elim (dec_lt r (h - 1)) [
      | yes up ↦
          let low : r * w + j < (h - 1) * w = row-below r (h - 1) j w up hj in
          let test : ltb (r * w + j) ((h - 1) * w) ≡ true = lt→ltb _ _ low in
          let from : r * w + j + w ≡ (r + 1) * w + j = omega arith in
          rw (test, from)
            (rows (r + 1) j (omega arith) hj
              ∙ shown-shift line past y r j (h - 2) (omega arith) (omega arith))
      | no last ↦
          let end : r * w + j < h * w = row-below r h j w hr hj in
          let rows_up : (h - 1) * w ≤ r * w = mul-le-mul_right w (omega arith) in
          let past_rows : ltb (r * w + j) ((h - 1) * w) ≡ false = ground arith in
          let inside : ltb (r * w + j) (h * w) ≡ true = lt→ltb _ _ end in
          rw (past_rows, inside) (sym (shown-above line past (h - 2) j r (omega arith)))
    ]
