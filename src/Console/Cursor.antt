-- ===== src/Console/Cursor.antt =====
-- A text on the console: x86_con_putc for one byte after the other, from x86_con_init on.
use ygg_kernel.Base.{List, [], ℕ, ◌+◌, ◌<◌, ◌^◌, ◌∷◌, ◌≡◌, ◌≤◌}
use ygg_kernel.Console.{Console, con_putc}
use ygg_kernel.Console.Page.{page_putc}
use ygg_kernel.Console.Rows.{Rows}

-- A text sent to the console, and to a page of `w` columns.
unfoldable pub put_text : (ℕ → ℕ → ℕ) → List ℕ → Console → Console
unfolding con_putc
put_text font [] con = con
put_text font (c ∷ s) con = put_text font s (con_putc font c con)

unfoldable pub page_text : ℕ → List ℕ → List ℕ × List (List ℕ) → List ℕ × List (List ℕ)
unfolding page_putc
page_text w [] page = page
page_text w (c ∷ s) page = page_text w s (page_putc w c page)

-- The sizes that the refinement needs: two columns, two rows, and a cursor above the last row.
abbrev pub Usable : Console → Type 0
Usable con =
    (2 ≤ con.width)
    × (con.width < 2 ^ 16)
    × (2 ≤ con.height)
    × (con.height < 2 ^ 16)
    × (con.curx ≡ 0)
    × (con.cury + 2 ≤ con.height)
