-- ===== src/Console/Startup.antt =====
-- The change of the console to a VESA frame buffer: memsetl of sys/mem.c and x86_vesa_con_init of
-- arch/x86/hw/console.c. What the boot loader reports, the cells that the memory holds at an address
-- and the picture, logo_header_data, are parameters; the picture has characters from 33 on.
use ygg_kernel.Base.{
  Bool, List, Option, Option-cases, align_up, all_below-at, ap, arith, bit_or, drop, false, get_or,
  if◌then◌else◌, inl, inr, leb, le→leb, ltb, lt→not_leb, none, not, refl, some, true, ℕ, ◌%◌, ◌&&◌,
  ◌*◌, ◌+◌, ◌-◌, ◌/◌, ◌<◌, ◌==◌, ◌^◌, ◌∙◌, ◌≡◌, ◌≤◌,
}
use ygg_kernel.Console.{Console, ModeInfo, char_height, char_width, rounds, store32, vesa_set}
use ygg_kernel.Console.Draw.{erase, rounds-keeps}
use ygg_kernel.Mm.Map.{map_range_linear}
use ygg_kernel.Mm.Phys.{flg_ps}
use ygg_kernel.Mm.Pool.{MmState}

-- memsetl, at an address of a memory of bytes.
unfoldable pub memsetl : (ℕ → ℕ) → ℕ → ℕ → ℕ → ℕ → ℕ
unfolding rounds
memsetl m at v len = rounds len 0 (λ i b. store32 b (at + 4 * i) v) m

-- The fields of the Multiboot structure that are used, with what vbe_mode_info points to.
pub record BootVideo : Type 0 where
  pub has_vbe : Bool
  pub vbe_mode : ℕ
  pub vbe_mode_info : ℕ
  pub mode_info : ModeInfo

abbrev pub vesa_fb_virt : ℕ
vesa_fb_virt = 0xFD000000

-- Bytes of the frame buffer, and large pages that hold them.
unfoldable pub fb_size : ModeInfo → ℕ
fb_size info = info.y_res * info.pitch % 2 ^ 32

unfoldable pub fb_pages : ModeInfo → ℕ
unfolding fb_size
fb_pages info = align_up (fb_size info) 0x400000 / 0x400000

-- What mm_map_range_linear is asked for: the first address, the first physical address and the
-- number of large pages.
abbrev pub fb_mapping : ModeInfo → ℕ × ℕ × ℕ
fb_mapping info = (vesa_fb_virt, info.physbase - info.physbase % 0x400000, fb_pages info + 1)

-- `con_data`, behind the frame buffer.
unfoldable pub cells_at : ModeInfo → ℕ
unfolding fb_pages
cells_at info = (vesa_fb_virt + fb_pages info * 0x400000) % 2 ^ 32

-- mm_map_range_linear of the frame buffer, with MM_FLG_WR and MM_FLG_PS.
unfoldable pub map_fb : ModeInfo → MmState → Option MmState
unfolding fb_pages
map_fb info s =
    let (start, pstart, count) = fb_mapping info in
    map_range_linear s.kernel start pstart count (flg_ps + 2) s

-- The console in a graphic mode, with the screen's cells in the memory `fresh`.
unfoldable pub enter_mode : ModeInfo → (ℕ → ℕ → ℕ) → Console → Console
unfolding memsetl fb_size cells_at
enter_mode info fresh con =
    let base = bit_or vesa_fb_virt (info.physbase % 2 ^ 12) in
    record con {
      mode = info;
      fb_base = base;
      cells = fresh (cells_at info);
      width = info.x_res / char_width;
      height = info.y_res / char_height;
      pixels = memsetl con.pixels base 0 (fb_size info / 4);
    }

-- LOGO_HEADER_PIXEL at the four characters of a pixel, as the value that is drawn.
abbrev pub logo_pixel : List ℕ → ℕ
logo_pixel logo =
    let a = get_or logo 0 0 - 33 in
    let b = get_or logo 1 0 - 33 in
    let c = get_or logo 2 0 - 33 in
    let d = get_or logo 3 0 - 33 in
    let red = bit_or (a * 4) (b / 16) % 2 ^ 8 in
    let green = bit_or (b % 16 * 16) (c / 4) % 2 ^ 8 in
    let blue = bit_or (c % 4 * 64) d % 2 ^ 8 in bit_or (bit_or (red * 2 ^ 16) (green * 2 ^ 8)) blue

-- One pixel of the picture, drawn as two by two, at the characters that are left.
abbrev pub draw_logo_pixel : ℕ → ℕ → List ℕ × Console → List ℕ × Console
draw_logo_pixel y x (logo, con) = (
  drop 4 logo,
  rounds 2 0 (λ i. rounds 2 0 (λ j c. vesa_set (x * 2 + i) (y * 2 + j) (logo_pixel logo) c)) con,
)

abbrev pub logo_width : ℕ
logo_width = 64

abbrev pub logo_height : ℕ
logo_height = 64

unfoldable pub draw_logo : List ℕ → Console → Console
unfolding rounds vesa_set
draw_logo logo con =
    (rounds logo_height 0 (λ y. rounds logo_width 0 (draw_logo_pixel y)) (logo, con)).1

-- `if (vesa_fb_base) { ... }`: the picture, and the cursor below it.
unfoldable pub show_logo : List ℕ → Console → Console
unfolding draw_logo
show_logo logo con =
    if con.fb_base == 0
    then con
    else let drawn = draw_logo logo con in
      record drawn { cury = (drawn.cury + logo_height * 2 / char_height) % 2 ^ 16 }

-- x86_vesa_con_init; `none` is the panic, or a failed assertion of the mapping.
unfoldable pub vesa_con_init :
    BootVideo → (ℕ → ℕ → ℕ) → List ℕ → Console → MmState → Option (Console × MmState)
unfolding enter_mode show_logo map_fb
vesa_con_init boot fresh logo con s =
    if boot.has_vbe && ltb 0x1F boot.vbe_mode
    then if leb 0x400000 boot.vbe_mode_info then none else elim (map_fb boot.mode_info s) [
      | none ↦ none
      | some t ↦ some (show_logo logo (enter_mode boot.mode_info fresh con), t)
    ]
    else some (show_logo logo con, s)

-- The console `con`, behind a mapping.
unfoldable pub mapped : Console → Option MmState → Option (Console × MmState)
mapped con none = none
mapped con (some t) = some (con, t)

draw_logo-erase : (logo : List ℕ) (con : Console) → erase (draw_logo logo con) ≡ erase con
unfolding draw_logo vesa_set
draw_logo-erase logo con =
    rounds-keeps (λ (s : List ℕ × Console). erase (s.1)) logo_height 0
      (λ y. rounds logo_width 0 (draw_logo_pixel y)) (logo, con)
      (λ y s.
        rounds-keeps (λ (t : List ℕ × Console). erase (t.1)) logo_width 0 (draw_logo_pixel y) s
          (λ x t. refl))

-- The frame buffer of every mode lies in the large pages that are mapped for it, from the place in
-- the first of them where vesa_fb_base stands.
pub fb_mapping-covers :
    (info : ModeInfo)
    → info.x_res < 2 ^ 16
    → info.y_res * info.pitch < 2 ^ 31
    → info.physbase % 2 ^ 12 + fb_size info ≤ (fb_mapping info).2 * 0x400000
unfolding fb_pages fb_size
fb_mapping-covers info hx hs = omega arith

base_set : (p : ℕ) → p < 2 ^ 12 → (bit_or vesa_fb_virt p == 0) ≡ false
base_set p h =
    let all = all_below-at (2 ^ 12) (λ q. not (bit_or vesa_fb_virt q == 0)) p refl h in
    ground (arith, all)

-- The console after the picture.
abbrev below_logo : List ℕ → Console → Console
below_logo logo con =
    let drawn = draw_logo logo con in
    record drawn { cury = (drawn.cury + logo_height * 2 / char_height) % 2 ^ 16 }

show_logo-graphic :
    (logo : List ℕ) (con : Console)
    → (con.fb_base == 0) ≡ false
    → show_logo logo con ≡ below_logo logo con
unfolding show_logo
show_logo-graphic logo con h = ap (λ b. if b then con else below_logo logo con) h

started :
    (info : ModeInfo) (fresh : ℕ → ℕ → ℕ) (logo : List ℕ) (con after : Console) (s : MmState)
    → show_logo logo (enter_mode info fresh con) ≡ after
    → elim (map_fb info s) [
      | none ↦ none
      | some t ↦ some (show_logo logo (enter_mode info fresh con), t)
    ]
      ≡ mapped after (map_fb info s)
unfolding mapped
started info fresh logo con after s e = elim (Option-cases (map_fb info s)) [
  | inl nothing ↦ rw (nothing, mapped) refl
  | inr (t, done) ↦ rw (done, mapped) (ap (λ c. some (c, t)) e)
]

-- A graphic mode whose screen has 18 rows more than the rows above the cursor, and more columns
-- than stand left of the cursor, in a mode structure below 0x400000, is entered by
-- x86_vesa_con_init if mm_map_range_linear maps the frame buffer, and the address space is what the
-- mapping made of it; where the mapping fails, so does the start. The screen has a column for each 8
-- pixels and a row for each 8 lines, the cursor keeps its column and moves 16 rows down, behind the
-- picture and above the last row, and the screen's cells are those that the memory holds behind the
-- large pages of the frame buffer. A mode structure from 0x400000 on is a panic.
pub vesa_con_init-fits :
    (boot : BootVideo) (fresh : ℕ → ℕ → ℕ) (logo : List ℕ) (con : Console) (s : MmState)
    → boot.has_vbe && ltb 0x1F boot.vbe_mode ≡ true
    → boot.mode_info.y_res < 2 ^ 16
    → con.curx * 8 + 8 ≤ boot.mode_info.x_res
    → (con.cury + 18) * 8 ≤ boot.mode_info.y_res
    → (0x400000 ≤ boot.vbe_mode_info → vesa_con_init boot fresh logo con s ≡ none)
      × (boot.vbe_mode_info < 0x400000
          → (after : Console) × (vesa_con_init boot fresh logo con s
              ≡ mapped after (map_fb boot.mode_info s))
            × (after.width ≡ boot.mode_info.x_res / 8)
            × (after.height ≡ boot.mode_info.y_res / 8)
            × (after.curx ≡ con.curx)
            × (after.curx < after.width)
            × (after.cury ≡ con.cury + 16)
            × (after.cury + 2 ≤ after.height)
            × ((k : ℕ) → after.cells k ≡ fresh (cells_at boot.mode_info) k))
unfolding vesa_con_init
vesa_con_init-fits boot fresh logo con s hv hy hx hr =
    let entered = enter_mode boot.mode_info fresh con in
    let going : Option (Console × MmState) = elim (map_fb boot.mode_info s) [
      | none ↦ none
      | some t ↦ some (show_logo logo entered, t)
    ] in
    let found =
      ap
        (λ b.
          if b
          then (if leb 0x400000 boot.vbe_mode_info then none else going)
          else some (show_logo logo con, s))
        hv in
    let drawn = draw_logo logo entered in
    let same = draw_logo-erase logo entered in
    let after = below_logo logo entered in
    let graphic : (entered.fb_base == 0) ≡ false =
      base_set (boot.mode_info.physbase % 2 ^ 12) (omega arith) in
    let width : drawn.width ≡ entered.width = ap (λ (c : Console). c.width) same in
    let height : drawn.height ≡ entered.height = ap (λ (c : Console). c.height) same in
    let row : drawn.cury ≡ con.cury = ap (λ (c : Console). c.cury) same in
    let column : drawn.curx ≡ con.curx = ap (λ (c : Console). c.curx) same in
    (
      λ high.
          let test : leb 0x400000 boot.vbe_mode_info ≡ true =
            le→leb 0x400000 boot.vbe_mode_info high in
          found ∙ ap (λ b. if b then none else going) test,
      λ low.
          let test : leb 0x400000 boot.vbe_mode_info ≡ false =
            lt→not_leb 0x400000 boot.vbe_mode_info low in
          let shown_logo =
            found
            ∙ ap (λ b. if b then none else going) test
            ∙ started boot.mode_info fresh logo con after s
                (show_logo-graphic logo entered graphic) in
          (
            after,
            shown_logo,
            width,
            height,
            column,
            omega arith,
            omega arith,
            omega arith,
            λ k. ap (λ (c : Console). c.cells k) same,
          ),
    )
