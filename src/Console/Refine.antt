-- ===== src/Console/Refine.antt =====
-- The text console shows a page of lines: the steps of x86_con_putc that both take.
use ygg_kernel.Base.{
  List, [], arith, bit_or, false, length, length-append, refl, subst, sym, true, update, ℕ,
  ℕ_discrete, ◌%◌, ◌*◌, ◌++◌, ◌+◌, ◌-◌, ◌<◌, ◌==◌, ◌^◌, ◌∷◌, ◌≡◌, ◌≤◌,
}
use ygg_kernel.Console.{
  Console, con_scroll, draw_char, if_graphic, next_row, put_newline, scroll_at_end,
}
use ygg_kernel.Console.Draw.{con_scroll-erase, draw_char-erase, erase, if_graphic-erase, scrolled}
use ygg_kernel.Console.Page.{length-shorter, page_newline, shorter}
use ygg_kernel.Console.Rows.{Rows, Rows-backspace, Rows-newline, Rows-put, Rows-scroll}

-- The console's screen shows a page: its sizes are those of a screen, the cursor stands behind the
-- line that is being written, at least `slack` rows above the end, and every cell of the screen
-- shows its place of the page.
abbrev pub Screen : ℕ → ℕ → List ℕ × List (List ℕ) → Console → Type 0
Screen w slack page con =
    (con.width ≡ w)
    × (2 ≤ con.width)
    × (con.width < 2 ^ 16)
    × (2 ≤ con.height)
    × (con.height < 2 ^ 16)
    × (con.curx ≡ length (page.0))
    × (length (page.0) < con.width)
    × (con.cury + slack ≤ con.height)
    × Rows page con.cells con.width con.height con.cury

pub Screen-erase :
    (w slack : ℕ) (page : List ℕ × List (List ℕ)) (a b : Console)
    → erase a ≡ erase b
    → Screen w slack page b
    → Screen w slack page a
Screen-erase w slack page a b e h = subst (λ c. Screen w slack page c) (sym e) h

pub scroll_at_end-Screen :
    (w : ℕ) (font : ℕ → ℕ → ℕ) (page : List ℕ × List (List ℕ)) (con : Console)
    → Screen w 1 page con
    → Screen w 2 page (scroll_at_end font con)
unfolding scroll_at_end
scroll_at_end-Screen w font page con (we, w2, wm, h2, hm, cx, len, cy, rows) =
    elim (ℕ_discrete (con.cury + 1) con.height) [
      | yes end ↦
          let test : (con.cury + 1 == con.height) ≡ true = ground (arith, end) in
          let up : Console = record con { cury = (con.height + 2 ^ 16 - 2) % 2 ^ 16 } in
          let row : con.height - 2 ≡ up.cury = omega arith in
          let moved =
            Rows-scroll page con.cells (scrolled up) con.width con.height con.cury rows end h2
              (λ k. refl) in
          rw test (
            Screen-erase w 2 page (con_scroll font up) (record up { cells = scrolled up })
              (con_scroll-erase font up (omega arith))
              (
                we,
                w2,
                wm,
                h2,
                hm,
                cx,
                len,
                omega arith,
                subst (λ y. Rows page (scrolled up) con.width con.height y) row moved,
              ))
      | no within_screen ↦
          let test : (con.cury + 1 == con.height) ≡ false = ground (arith, within_screen) in
          rw test (we, w2, wm, h2, hm, cx, len, omega arith, rows)
    ]

pub next_row-Screen :
    (w : ℕ) (line : List ℕ) (past : List (List ℕ)) (con : Console)
    → Screen w 2 (line, past) con
    → Screen w 1 ([], line ∷ past) (record con { curx = 0; cury = (con.cury + 1) % 2 ^ 16 })
next_row-Screen w line past con (we, w2, wm, h2, hm, cx, len, cy, rows) =
    let down : con.cury + 1 ≡ (con.cury + 1) % 2 ^ 16 = omega arith in
    let below = Rows-newline (line, past) con.cells con.width con.height con.cury rows in
    (
      we,
      w2,
      wm,
      h2,
      hm,
      refl,
      omega arith,
      omega arith,
      subst (λ y. Rows ([], line ∷ past) con.cells con.width con.height y) down below,
    )

-- A character written to the end of a line with room for it and for the cursor.
pub write-Screen :
    (w : ℕ) (line : List ℕ) (past : List (List ℕ)) (c : ℕ) (con : Console)
    → Screen w 2 (line, past) con
    → length line + 1 < con.width
    → Screen w 2
        (line ++ (c ∷ []), past)
        (record con {
          cells = update con.cells (con.cury * con.width + con.curx) (bit_or 0x0700 c);
          curx = (con.curx + 1) % 2 ^ 16;
        })
write-Screen w line past c con (we, w2, wm, h2, hm, cx, len, cy, rows) room =
    let longer = length-append line (c ∷ []) in
    let put = Rows-put line past con.cells c con.width con.height con.cury rows len in
    (
      we,
      w2,
      wm,
      h2,
      hm,
      omega arith,
      omega arith,
      cy,
      subst
          (λ x.
            Rows (line ++ (c ∷ []), past)
              (update con.cells (con.cury * con.width + x) (bit_or 0x0700 c)) con.width con.height
              con.cury)
          (sym cx) put,
    )

pub erase-Screen :
    (w : ℕ) (line : List ℕ) (past : List (List ℕ)) (x : ℕ) (con : Console)
    → Screen w 2 (line, past) con
    → con.curx ≡ x + 1
    → Screen w 2
        (shorter line, past)
        (record con { curx = x; cells = update con.cells (con.cury * con.width + x) 0x0700 })
erase-Screen w line past x con (we, w2, wm, h2, hm, cx, len, cy, rows) e =
    let less = length-shorter line in
    (
      we,
      w2,
      wm,
      h2,
      hm,
      omega arith,
      omega arith,
      cy,
      Rows-backspace line past con.cells con.width con.height con.cury x rows len (omega arith),
    )

pub put_newline-Screen :
    (w : ℕ) (font : ℕ → ℕ → ℕ) (line : List ℕ) (past : List (List ℕ)) (con : Console)
    → Screen w 2 (line, past) con
    → Screen w 2 (page_newline (line, past)) (put_newline font con)
unfolding put_newline
put_newline-Screen w font line past con s =
    let next = next_row font con in
    let cell = con.cells (con.cury * con.width + con.curx) in
    let drawn = if_graphic font (draw_char font con.cury con.curx cell) next in
    scroll_at_end-Screen w font ([], line ∷ past) drawn
      (Screen-erase w 1 ([], line ∷ past) drawn next
        (if_graphic-erase font (draw_char font con.cury con.curx cell) next
          (draw_char-erase font con.cury con.curx cell next))
        (next_row-Screen w line past con s))
