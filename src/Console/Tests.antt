-- ===== src/Console/Tests.antt =====
-- Runs of the console, and instances of its theorems.
use ygg_kernel.Base.{
  List, Option, [], arith, false, none, refl, some, true, ℕ, ◌+◌, ◌/◌, ◌<◌, ◌∷◌, ◌≡◌, ◌≤◌,
}
use ygg_kernel.Console.{
  Console, ModeInfo, con_cursor, con_init, con_putc, con_scroll, memsetw, put_visible, rounds,
  scroll_at_end,
}
use ygg_kernel.Console.Cursor.{page_text, put_text}
use ygg_kernel.Console.Page.{page_putc}
use ygg_kernel.Console.Startup.{
  BootVideo, cells_at, fb_pages, fb_size, map_fb, mapped, vesa_con_init, vesa_con_init-fits,
}
use ygg_kernel.Mm.Map.{map_linear_from, map_range_linear, map_range_pages}
use ygg_kernel.Mm.Pool.{MmState, map_huge_pages}

-- A font whose every pixel is set, and a screen of 3 columns and 2 rows, before x86_con_init.
abbrev solid : ℕ → ℕ → ℕ
solid ch row = 255

abbrev text_mode : ModeInfo
text_mode = record { pitch = 0; x_res = 0; y_res = 0; bpp = 0; physbase = 0 }

abbrev small_screen : Console
small_screen = record {
  cells = λ k. 0;
  width = 3;
  height = 2;
  cury = 0;
  curx = 0;
  fb_base = 0;
  mode = text_mode;
  pixels = λ a. 0;
  ports = [];
}

-- "ab", wrapped after two columns and scrolled; a third character stands on the second line.
small_screen-page :
    page_text 3 (b'a' ∷ b'b' ∷ b'c' ∷ []) ([], []) ≡ (b'c' ∷ [], (b'a' ∷ b'b' ∷ []) ∷ [])
unfolding page_text page_putc
small_screen-page = refl

small_screen-cell :
    (put_text solid (b'a' ∷ b'b' ∷ b'c' ∷ []) (con_init small_screen)).cells 0 ≡ 0x0763
unfolding put_text con_init con_putc put_visible con_cursor scroll_at_end con_scroll memsetw rounds
small_screen-cell = refl

-- 640 by 480 pixels of 32 bits.
abbrev graphic_mode : BootVideo
graphic_mode = record {
  has_vbe = true;
  vbe_mode = 0x112;
  vbe_mode_info = 0x9000;
  mode_info = record { pitch = 2560; x_res = 640; y_res = 480; bpp = 32; physbase = 0xFD000000 };
}

-- An address space in which nothing is mapped.
abbrev empty_space : MmState
empty_space = record {
  words = λ _ _. 0;
  ram = λ _. 0;
  phys = record { bitmap = λ i j. false; alloc_last = 0; page_count = 0 };
  pools = λ _. record { bitmap = λ _ _. false; index_last = 0; vaddr = 0; paddr = 0 };
  kernel = 0x1000;
}

-- The directory's entries of the two large pages of the frame buffer, and the one behind them.
abbrev fb_entries : Option MmState → List ℕ
fb_entries none = []
fb_entries (some t) = t.words 0x1000 1012 ∷ t.words 0x1000 1013 ∷ t.words 0x1000 1014 ∷ []

map_fb_test :
    fb_entries (map_fb graphic_mode.mode_info empty_space) ≡ 0xFD000083 ∷ 0xFD400083 ∷ 0 ∷ []
unfolding map_fb map_range_linear map_linear_from map_range_pages map_huge_pages fb_pages fb_size
map_fb_test = refl

vesa_con_init-fits_example :
    (after : Console) × (vesa_con_init graphic_mode (λ a k. a) [] small_screen empty_space
      ≡ mapped after (map_fb graphic_mode.mode_info empty_space))
    × (after.width ≡ 640 / 8)
    × (after.height ≡ 480 / 8)
    × (after.curx ≡ 0)
    × (after.curx < after.width)
    × (after.cury ≡ 0 + 16)
    × (after.cury + 2 ≤ after.height)
    × ((k : ℕ) → after.cells k ≡ cells_at graphic_mode.mode_info)
vesa_con_init-fits_example =
    (vesa_con_init-fits graphic_mode (λ a k. a) [] small_screen empty_space refl (omega arith)
        (omega arith) (omega arith)).1
      (omega arith)
