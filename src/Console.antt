-- ===== src/Console.antt =====
-- The text console, arch/x86/hw/console.c with the frame buffer of ENABLE_VESA_FBCON: the cells of
-- the screen, the cursor, and the pixels that are drawn of them. A `char` is its byte, 0 to 255, of
-- which those from 0x80 on are negative. The screen memory at con_data is a family of `uint16_t` by
-- index, the frame buffer one of bytes by address, two areas that do not meet.
use ygg_kernel.Base.{
  List, [], bit_or, bit_xor, get_or, has_flag, if◌then◌else◌, leb, ltb, suc, update, zero, ℕ, ◌%◌,
  ◌&&◌, ◌*◌, ◌++◌, ◌+◌, ◌-◌, ◌/◌, ◌==◌, ◌^◌, ◌∷◌,
}
pub mod Scroll
pub mod Draw
pub mod Cursor
pub mod Startup
pub mod Page
pub mod Rows
pub mod Refine
pub mod Put
pub mod Tests

-- `n` rounds of a loop over a state, with the index from `i` on.
unfoldable pub rounds {ℓ} : {S : Type ℓ} → ℕ → ℕ → (ℕ → S → S) → S → S
rounds zero i f s = s
rounds (suc n) i f s = rounds n (i + 1) f (f i s)

-- memsetw of sys/mem.c, at index `at` of a memory of words.
unfoldable pub memsetw : (ℕ → ℕ) → ℕ → ℕ → ℕ → ℕ → ℕ
unfolding rounds
memsetw m at v len = rounds len 0 (λ i w. update w (at + i) (v % 2 ^ 16)) m

-- A `uint32_t` written to the four bytes at an address.
abbrev pub store32 : (ℕ → ℕ) → ℕ → ℕ → ℕ → ℕ
store32 m a p =
    update
      (update (update (update m a (p % 2 ^ 8)) (a + 1) (p / 2 ^ 8 % 2 ^ 8)) (a + 2)
        (p / 2 ^ 16 % 2 ^ 8))
      (a + 3) (p / 2 ^ 24 % 2 ^ 8)

-- The fields of struct vesa_mode_info that are used.
pub record ModeInfo : Type 0 where
  pub pitch : ℕ
  pub x_res : ℕ
  pub y_res : ℕ
  pub bpp : ℕ
  pub physbase : ℕ

-- The file's variables: con_data, con_width, con_height, con_cury, con_curx, vesa_fb_base and
-- vesa_mode_info; the frame buffer's memory; and the bytes sent to ports, oldest first.
pub record Console : Type 0 where
  pub cells : ℕ → ℕ
  pub width : ℕ
  pub height : ℕ
  pub cury : ℕ
  pub curx : ℕ
  pub fb_base : ℕ
  pub mode : ModeInfo
  pub pixels : ℕ → ℕ
  pub ports : List (ℕ × ℕ)

-- vesa_char_width and vesa_char_height
abbrev pub char_width : ℕ
char_width = 8

abbrev pub char_height : ℕ
char_height = 8

-- vesa_attrcol
abbrev pub attrcol : List ℕ
attrcol =
    0x00000000 ∷ 0x000000AA ∷ 0x0000AA00 ∷ 0x0000AAAA ∷ 0x00AA0000 ∷ 0x00AA00AA ∷ 0x00AA5500
    ∷ 0xAAAAAAAA ∷ 0x00555555 ∷ 0x005555FF ∷ 0x0055FF55 ∷ 0x0055FFFF ∷ 0x00FF5555 ∷ 0x00FF55FF
    ∷ 0x00FFFF55 ∷ 0x00FFFFFF ∷ []

-- The bytes that x86_con_cursor sends for a position.
abbrev pub cursor_bytes : ℕ → List (ℕ × ℕ)
cursor_bytes pos =
    (0x03D4, 0x0F) ∷ (0x03D5, pos % 2 ^ 8) ∷ (0x03D4, 0x0E) ∷ (0x03D5, pos / 2 ^ 8 % 2 ^ 8) ∷ []

-- x86_con_cursor
unfoldable pub con_cursor : ℕ → ℕ → Console → Console
con_cursor row col con = record con {
  ports = con.ports ++ cursor_bytes ((row * 80 + col) % 2 ^ 16);
}

-- x86_vesa_set
unfoldable pub vesa_set : ℕ → ℕ → ℕ → Console → Console
vesa_set x y p con =
    let at = con.fb_base + y * con.mode.pitch + x * (con.mode.bpp / 8) in
    record con { pixels = store32 con.pixels (at % 2 ^ 32) p }

-- `fg ^= bg; bg ^= fg; fg ^= bg;`
abbrev pub xor_colours : ℕ × ℕ → ℕ × ℕ
xor_colours (fg, bg) = let fg1 = bit_xor fg bg in let bg1 = bit_xor bg fg1 in (bit_xor fg1 bg1, bg1)

-- The two colours that x86_vesa_draw_char uses, swapped where the cursor is.
abbrev pub colours_at : Console → ℕ → ℕ → ℕ → ℕ × ℕ
colours_at con y x c =
    let plain : ℕ × ℕ = (c / 2 ^ 8 % 16, c / 2 ^ 12 % 16) in
    if con.cury == y && con.curx == x then xor_colours plain else plain

-- The operations that draw take the font: the byte of a row of a character, vesa_font_8x8.
module _ (font : ℕ → ℕ → ℕ) where
  -- One pixel of x86_vesa_draw_char.
  abbrev pub draw_pixel : ℕ → ℕ → ℕ → ℕ × ℕ → ℕ → ℕ → Console → Console
  draw_pixel y x ch (fg, bg) j i con =
      let colour = if has_flag (font ch j) (2 ^ i) then fg else bg in
      vesa_set ((x * char_width + i) % 2 ^ 16) ((y * char_height + j) % 2 ^ 16)
        (get_or attrcol colour 0) con

  -- One row of pixels of x86_vesa_draw_char.
  abbrev pub draw_row : ℕ → ℕ → ℕ → ℕ × ℕ → ℕ → Console → Console
  draw_row y x ch colours j = rounds char_width 0 (draw_pixel y x ch colours j)

  -- x86_vesa_draw_char. A `char` is never 0x80 or more, so that the test for it has no effect.
  unfoldable pub draw_char : ℕ → ℕ → ℕ → Console → Console
  unfolding rounds vesa_set
  draw_char y x c con = rounds char_height 0 (draw_row y x (c % 2 ^ 8) (colours_at con y x c)) con

  -- `if (vesa_fb_base) { ... }`
  abbrev pub if_graphic : (Console → Console) → Console → Console
  if_graphic draw con = if con.fb_base == 0 then con else draw con

  -- The redrawing of every cell in x86_con_scroll, and of one row and one cell of them.
  abbrev pub redraw_cell : ℕ → ℕ → Console → Console
  redraw_cell i j con = draw_char i j (con.cells (con.width * i + j)) con

  abbrev pub redraw_row : ℕ → Console → Console
  redraw_row i con = rounds con.width 0 (redraw_cell i) con

  abbrev pub redraw : Console → Console
  redraw con = rounds con.height 0 redraw_row con

  -- x86_con_scroll
  unfoldable pub con_scroll : Console → Console
  unfolding rounds memsetw draw_char
  con_scroll con =
      let w = con.width in
      let moved =
        rounds (con.height - 1) 0
          (λ i. rounds w 0 (λ j m. update m (i * w + j) (m ((i + 1) * w + j)))) con.cells in
      if_graphic redraw record con { cells = memsetw moved (con.height * w - w) 0x0700 w }

  -- `if (con_cury == con_height - 1) { con_cury = con_height - 2; x86_con_scroll(); }`
  unfoldable pub scroll_at_end : Console → Console
  unfolding con_scroll
  scroll_at_end con =
      if con.cury + 1 == con.height
      then con_scroll record con { cury = (con.height + 2 ^ 16 - 2) % 2 ^ 16 }
      else con

  -- `con_curx = 0; ++con_cury;`
  abbrev pub next_row : Console → Console
  next_row con = record con { curx = 0; cury = (con.cury + 1) % 2 ^ 16 }

  -- The drawing of a new character and of the cursor behind it.
  abbrev pub draw_put : ℕ → Console → Console
  draw_put c con =
      let old = draw_char con.cury ((con.curx + 2 ^ 16 - 1) % 2 ^ 16) (bit_or 0x0700 c) con in
      draw_char old.cury old.curx (old.cells (old.cury * old.width + old.curx)) old

  -- The write of a character at the cursor.
  abbrev pub write_char : ℕ → Console → Console
  write_char c con = record con {
    cells = update con.cells (con.cury * con.width + con.curx) (bit_or 0x0700 c);
    curx = (con.curx + 1) % 2 ^ 16;
  }

  -- x86_con_putc, a character from the space on.
  unfoldable pub put_visible : ℕ → Console → Console
  unfolding scroll_at_end draw_char
  put_visible c con =
      if_graphic (draw_put c)
        (write_char c (scroll_at_end (if con.curx + 1 == con.width then next_row con else con)))

  -- x86_con_putc, a line feed.
  unfoldable pub put_newline : Console → Console
  unfolding scroll_at_end draw_char
  put_newline con = scroll_at_end (
      if_graphic (draw_char con.cury con.curx (con.cells (con.cury * con.width + con.curx)))
        (next_row con))

  -- The drawing of the place where the cursor was and of the one where it is.
  abbrev pub draw_back : Console → Console
  draw_back con =
      let at = con.cury * con.width + (con.curx + 1) in
      let old = draw_char con.cury ((con.curx + 1) % 2 ^ 16) (con.cells at) con in
      draw_char old.cury old.curx 0x0700 old

  -- x86_con_putc, a backspace.
  unfoldable pub put_backspace : Console → Console
  unfolding draw_char
  put_backspace con =
      if con.curx == 0
      then con
      else let x = con.curx - 1 in
        if_graphic draw_back
          (record con { curx = x; cells = update con.cells (con.cury * con.width + x) 0x0700 })

  -- The end of x86_con_putc.
  abbrev pub show_cursor : Console → Console
  show_cursor con = con_cursor con.cury con.curx con

  -- x86_con_putc
  unfoldable pub con_putc : ℕ → Console → Console
  unfolding put_visible put_newline put_backspace con_cursor
  con_putc c con = show_cursor (
      if leb b' ' c && ltb c 0x80
      then put_visible c con
      else if c == 0x0a
      then put_newline con
      else if c == 0x08
      then put_backspace con
      else show_cursor (put_visible b'?' con))

-- x86_con_init
unfoldable pub con_init : Console → Console
unfolding memsetw
con_init con = record con { cells = memsetw con.cells 0 0x0700 (con.width * con.height) }
