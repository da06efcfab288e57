-- ===== src/Console/Page.antt =====
-- The text console as a sequence of lines: what a reader of the screen sees. The head of a page is
-- the line that is being written, behind it are the earlier ones, the last one first.
use ygg_kernel.Base.{
  List, [], arith, bit_or, get_or, if◌then◌else◌, leb, length, ltb, refl, suc, zero, ℕ, ◌&&◌, ◌++◌,
  ◌+◌, ◌-◌, ◌==◌, ◌∙◌, ◌∷◌, ◌≡◌, ◌≤◌,
}

-- The cell that shows place `j` of a line.
unfoldable pub cell_of : List ℕ → ℕ → ℕ
cell_of [] j = 0x0700
cell_of (c ∷ l) zero = bit_or 0x0700 c
cell_of (c ∷ l) (suc j) = cell_of l j

pub cell_of-end : (l : List ℕ) (j : ℕ) → length l ≤ j → cell_of l j ≡ 0x0700
unfolding cell_of
cell_of-end [] j h = refl
cell_of-end (c ∷ l) zero h = absurd (omega arith)
cell_of-end (c ∷ l) (suc j) h = cell_of-end l j (omega arith)

pub cell_of-append :
    (l : List ℕ) (c j : ℕ)
    → cell_of (l ++ (c ∷ [])) j ≡ (if j == length l then bit_or 0x0700 c else cell_of l j)
unfolding cell_of
cell_of-append [] c zero = refl
cell_of-append [] c (suc j) = ground arith
cell_of-append (x ∷ l) c zero = ground arith
cell_of-append (x ∷ l) c (suc j) = cell_of-append l c j ∙ ground arith

-- A line without its last character.
unfoldable pub shorter : List ℕ → List ℕ
shorter [] = []
shorter (c ∷ []) = []
shorter (c ∷ d ∷ l) = c ∷ shorter (d ∷ l)

pub shorter-empty : (l : List ℕ) → length l ≡ 0 → shorter l ≡ l
unfolding shorter
shorter-empty [] h = refl
shorter-empty (c ∷ l) h = absurd (omega arith)

pub length-shorter : (l : List ℕ) → length (shorter l) ≡ length l - 1
unfolding shorter
length-shorter [] = omega arith
length-shorter (c ∷ []) = omega arith
length-shorter (c ∷ d ∷ l) = omega (arith, length-shorter (d ∷ l))

pub cell_of-shorter :
    (l : List ℕ) (j : ℕ)
    → cell_of (shorter l) j ≡ (if j + 1 == length l then 0x0700 else cell_of l j)
unfolding shorter cell_of
cell_of-shorter [] j = ground arith
cell_of-shorter (c ∷ []) zero = ground arith
cell_of-shorter (c ∷ []) (suc j) = ground arith
cell_of-shorter (c ∷ d ∷ l) zero = ground arith
cell_of-shorter (c ∷ d ∷ l) (suc j) = cell_of-shorter (d ∷ l) j ∙ ground arith

-- A character on a screen of `w` columns, of which the last one stays empty.
abbrev pub page_put : ℕ → ℕ → List ℕ × List (List ℕ) → List ℕ × List (List ℕ)
page_put w c (line, past) =
    if length line + 1 == w then (c ∷ [], line ∷ past) else (line ++ (c ∷ []), past)

abbrev pub page_newline : List ℕ × List (List ℕ) → List ℕ × List (List ℕ)
page_newline (line, past) = ([], line ∷ past)

abbrev pub page_backspace : List ℕ × List (List ℕ) → List ℕ × List (List ℕ)
page_backspace (line, past) = (shorter line, past)

-- What a byte means to a reader.
unfoldable pub page_putc : ℕ → ℕ → List ℕ × List (List ℕ) → List ℕ × List (List ℕ)
page_putc w c page =
    if leb b' ' c && ltb c 0x80
    then page_put w c page
    else if c == 0x0a
    then page_newline page
    else if c == 0x08
    then page_backspace page
    else page_put w b'?' page

-- The cell at row `r` and column `j` of a screen whose cursor is in row `y`.
abbrev pub shown : List ℕ × List (List ℕ) → ℕ → ℕ → ℕ → ℕ
shown (line, past) y r j = if leb r y then cell_of (get_or (line ∷ past) (y - r) []) j else 0x0700
