-- ===== src/Console/Put.antt =====
-- The text console refines a page of lines: every branch of x86_con_putc.
use ygg_kernel.Base.{
  Bool, List, [], ap, arith, bit_or, false, if◌then◌else◌, leb, length, ltb, refl, subst, sym, true,
  update, ℕ, ℕ_discrete, ◌%◌, ◌&&◌, ◌*◌, ◌++◌, ◌+◌, ◌-◌, ◌<◌, ◌==◌, ◌^◌, ◌∙◌, ◌∷◌, ◌≡◌, ◌≢◌,
}
use ygg_kernel.Console.{
  Console, con_cursor, con_putc, draw_back, draw_char, draw_put, if_graphic, next_row,
  put_backspace, put_newline, put_visible, scroll_at_end, show_cursor, write_char,
}
use ygg_kernel.Console.Draw.{draw_char-erase, erase, if_graphic-erase}
use ygg_kernel.Console.Page.{
  page_backspace, page_newline, page_put, page_putc, shorter, shorter-empty,
}
use ygg_kernel.Console.Refine.{
  Screen, Screen-erase, erase-Screen, next_row-Screen, put_newline-Screen, scroll_at_end-Screen,
  write-Screen,
}

draw_put-erase :
    (font : ℕ → ℕ → ℕ) (c : ℕ) (con : Console) → erase (draw_put font c con) ≡ erase con
draw_put-erase font c con =
    let x = (con.curx + 2 ^ 16 - 1) % 2 ^ 16 in
    let old = draw_char font con.cury x (bit_or 0x0700 c) con in
    draw_char-erase font old.cury old.curx (old.cells (old.cury * old.width + old.curx)) old
    ∙ draw_char-erase font con.cury x (bit_or 0x0700 c) con

draw_back-erase : (font : ℕ → ℕ → ℕ) (con : Console) → erase (draw_back font con) ≡ erase con
draw_back-erase font con =
    let x = (con.curx + 1) % 2 ^ 16 in
    let cell = con.cells (con.cury * con.width + (con.curx + 1)) in
    let old = draw_char font con.cury x cell con in
    draw_char-erase font old.cury old.curx 0x0700 old ∙ draw_char-erase font con.cury x cell con

-- A character written where there is room for it and for the cursor.
write_char-Screen :
    (w : ℕ) (font : ℕ → ℕ → ℕ) (c : ℕ) (line : List ℕ) (past : List (List ℕ)) (con : Console)
    → Screen w 2 (line, past) con
    → length line + 1 < w
    → Screen w 2
        (line ++ (c ∷ []), past)
        (if_graphic font (draw_put font c) (write_char font c con))
write_char-Screen w font c line past con s room =
    let written = write_char font c con in
    let fits : length line + 1 < con.width = omega (arith, s.0) in
    Screen-erase w 2 (line ++ (c ∷ []), past) (if_graphic font (draw_put font c) written) written
      (if_graphic-erase font (draw_put font c) written (draw_put-erase font c written))
      (write-Screen w line past c con s fits)

-- The two ways of put_visible, by whether the line is full.
put_visible-by :
    (w : ℕ) (font : ℕ → ℕ → ℕ) (c : ℕ) (line : List ℕ) (past : List (List ℕ)) (con : Console)
    → Screen w 2 (line, past) con
    → (full : Bool) → full ≡ (length line + 1 == w)
    → Screen w 2 (if full then (c ∷ [], line ∷ past) else (line ++ (c ∷ []), past)) (
        if_graphic font
          (draw_put font c)
          (write_char font c (scroll_at_end font (if full then next_row font con else con))))
put_visible-by w font c line past con s true e =
    let row =
      scroll_at_end-Screen w font ([], line ∷ past) (next_row font con)
        (next_row-Screen w line past con s) in
    write_char-Screen w font c [] (line ∷ past) (scroll_at_end font (next_row font con)) row
      (omega (arith, s.0, s.1))
put_visible-by w font c line past con (we, w2, wm, h2, hm, cx, len, cy, rows) false e =
    let row =
      scroll_at_end-Screen w font (line, past) con
        (we, w2, wm, h2, hm, cx, len, omega arith, rows) in
    let room : length line + 1 ≢ w = ground arith in
    write_char-Screen w font c line past (scroll_at_end font con) row (omega arith)

-- A character that is written where the line has no room for it and the cursor, or at its end.
put_visible-Screen :
    (w : ℕ) (font : ℕ → ℕ → ℕ) (c : ℕ) (line : List ℕ) (past : List (List ℕ)) (con : Console)
    → Screen w 2 (line, past) con
    → Screen w 2 (page_put w c (line, past)) (put_visible font c con)
unfolding put_visible
put_visible-Screen w font c line past con s =
    let test : (length line + 1 == w) ≡ (con.curx + 1 == con.width) =
      ap (λ a. a + 1 == w) (sym s.5) ∙ ap (λ b. con.curx + 1 == b) (sym s.0) in
    subst
      (λ b. Screen w 2 (page_put w c (line, past)) (
        if_graphic font (draw_put font c)
          (write_char font c (scroll_at_end font (if b then next_row font con else con)))))
      test (put_visible-by w font c line past con s (length line + 1 == w) refl)

put_backspace-Screen :
    (w : ℕ) (font : ℕ → ℕ → ℕ) (line : List ℕ) (past : List (List ℕ)) (con : Console)
    → Screen w 2 (line, past) con
    → Screen w 2 (shorter line, past) (put_backspace font con)
unfolding put_backspace
put_backspace-Screen w font line past con s = elim (ℕ_discrete con.curx 0) [
  | yes start ↦
      let test : (con.curx == 0) ≡ true = ground (arith, start) in
      let empty = shorter-empty line (omega (arith, s.5)) in rw (test, empty) s
  | no behind ↦
      let test : (con.curx == 0) ≡ false = ground (arith, behind) in
      let x = con.curx - 1 in
      let after : Console = record con {
        curx = x;
        cells = update con.cells (con.cury * con.width + x) 0x0700;
      } in
      rw test (
        Screen-erase w 2 (shorter line, past) (if_graphic font (draw_back font) after) after
          (if_graphic-erase font (draw_back font) after (draw_back-erase font after))
          (erase-Screen w line past x con s (omega arith)))
]

-- The branches of x86_con_putc, by the outcome of its tests.
branch-Screen :
    (w : ℕ) (font : ℕ → ℕ → ℕ) (c : ℕ) (line : List ℕ) (past : List (List ℕ)) (con : Console)
    → Screen w 2 (line, past) con
    → (visible feed back : Bool)
    → Screen w 2
        (if visible
          then page_put w c (line, past)
          else if feed
          then page_newline (line, past)
          else if back
          then page_backspace (line, past)
          else page_put w b'?' (line, past))
        (show_cursor font (
          if visible
          then put_visible font c con
          else if feed
          then put_newline font con
          else if back
          then put_backspace font con
          else show_cursor font (put_visible font b'?' con)))
unfolding con_cursor
branch-Screen w font c line past con s true feed back = put_visible-Screen w font c line past con s
branch-Screen w font c line past con s false true back = put_newline-Screen w font line past con s
branch-Screen w font c line past con s false false true =
    put_backspace-Screen w font line past con s
branch-Screen w font c line past con s false false false =
    put_visible-Screen w font b'?' line past con s

-- The screen goes on showing the page when a character is put to both.
pub con_putc-Screen :
    (w : ℕ) (font : ℕ → ℕ → ℕ) (c : ℕ) (page : List ℕ × List (List ℕ)) (con : Console)
    → Screen w 2 page con
    → Screen w 2 (page_putc w c page) (con_putc font c con)
unfolding con_putc page_putc
con_putc-Screen w font c (line, past) con s =
    branch-Screen w font c line past con s (leb b' ' c && ltb c 0x80) (c == 0x0a) (c == 0x08)
