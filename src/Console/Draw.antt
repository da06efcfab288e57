-- ===== src/Console/Draw.antt =====
-- Drawing changes nothing but pixels, and x86_con_scroll as a whole.
use mathlib.Core.Path.{fun_ext}
use ygg_kernel.Base.{
  Bool-cases, ap, arith, if◌then◌else◌, inl, inr, ltb, refl, subst, suc, update, zero, ℕ, ◌%◌, ◌*◌,
  ◌+◌, ◌-◌, ◌==◌, ◌^◌, ◌∙◌, ◌≡◌, ◌≢◌,
}
use ygg_kernel.Console.{
  Console, char_height, char_width, colours_at, con_scroll, draw_char, draw_pixel, draw_row,
  if_graphic, memsetw, redraw, redraw_cell, redraw_row, rounds, vesa_set,
}
use ygg_kernel.Console.Scroll.{fill-at, rows-at, within}

pub rounds-keeps {ℓ κ} :
    {S : Type ℓ} {A : Type κ} (p : S → A) (n i : ℕ) (f : ℕ → S → S) (s : S)
    → ((j : ℕ) (t : S) → p (f j t) ≡ p t)
    → p (rounds n i f s) ≡ p s
unfolding rounds
rounds-keeps p zero i f s keeps = refl
rounds-keeps p (suc n) i f s keeps = rounds-keeps p n (i + 1) f (f i s) keeps ∙ keeps i s

-- The console without its pixels.
abbrev pub erase : Console → Console
erase con = record con { pixels = λ a. 0 }

pub draw_char-erase :
    (font : ℕ → ℕ → ℕ) (y x c : ℕ) (con : Console) → erase (draw_char font y x c con) ≡ erase con
unfolding draw_char vesa_set
draw_char-erase font y x c con =
    let row = draw_row font y x (c % 2 ^ 8) (colours_at con y x c) in
    let pixel = draw_pixel font y x (c % 2 ^ 8) (colours_at con y x c) in
    rounds-keeps erase char_height 0 row con
      (λ j s. rounds-keeps erase char_width 0 (pixel j) s (λ i t. refl))

redraw-erase : (font : ℕ → ℕ → ℕ) (con : Console) → erase (redraw font con) ≡ erase con
redraw-erase font con = rounds-keeps erase con.height 0 (redraw_row font) con (λ i s.
    rounds-keeps erase s.width 0 (redraw_cell font i) s
      (λ j t. draw_char-erase font i j (t.cells (t.width * i + j)) t))

pub if_graphic-erase :
    (font : ℕ → ℕ → ℕ) (draw : Console → Console) (con : Console)
    → erase (draw con) ≡ erase con
    → erase (if_graphic font draw con) ≡ erase con
if_graphic-erase font draw con h = elim (Bool-cases (con.fb_base == 0)) [
  | inl absent ↦ rw absent refl
  | inr there ↦ rw there h
]

-- The memory after both loops of x86_con_scroll.
scroll-cells :
    (w h rest : ℕ) (m : ℕ → ℕ) (k : ℕ)
    → h ≡ suc rest
    → memsetw
        (rounds rest 0 (λ i. rounds w 0 (λ j m. update m (i * w + j) (m ((i + 1) * w + j)))) m)
        (h * w - w)
        0x0700
        w
        k
      ≡ (if ltb k (rest * w) then m (k + w) else if ltb k (h * w) then 0x0700 else m k)
unfolding memsetw
scroll-cells w h rest m k e =
    let moved : ℕ → ℕ =
      rounds rest 0 (λ i. rounds w 0 (λ j m. update m (i * w + j) (m ((i + 1) * w + j)))) m in
    let all : h * w ≡ rest * w + w = ap (λ n. n * w) e ∙ omega arith in
    let last : h * w - w + 0 ≡ rest * w = omega arith in
    let first : 0 * w ≡ 0 = omega arith in
    let up : moved k ≡ (if within 0 (rest * w) k then m (k + w) else m k) =
      subst (λ a. moved k ≡ (if within a (rest * w) k then m (k + w) else m k)) first
        (rows-at w rest 0 m k) in
    fill-at 0x0700 (h * w - w) w 0 moved k ∙ rw (up, last, all) (ground arith)

-- What x86_con_scroll leaves at index `k` of the screen's memory.
abbrev pub scrolled : Console → ℕ → ℕ
scrolled con k =
    if ltb k ((con.height - 1) * con.width)
    then con.cells (k + con.width)
    else if ltb k (con.height * con.width)
    then 0x0700
    else con.cells k

-- x86_con_scroll moves every row of the screen up by one, leaves the last row blank, and changes
-- neither the memory behind the screen nor anything else but the pixels.
pub con_scroll-erase :
    (font : ℕ → ℕ → ℕ) (con : Console)
    → con.height ≢ 0
    → erase (con_scroll font con) ≡ erase record con { cells = scrolled con }
unfolding con_scroll
con_scroll-erase font con h =
    let w = con.width in
    let rest = con.height - 1 in
    let s : Console = record con {
      cells =
          memsetw
            (rounds rest 0 (λ i. rounds w 0 (λ j m. update m (i * w + j) (m ((i + 1) * w + j))))
              con.cells)
            (con.height * w - w) 0x0700 w;
    } in
    let moved : (k : ℕ) → s.cells k ≡ scrolled con k =
      λ k. scroll-cells w con.height rest con.cells k (omega arith) in
    if_graphic-erase font (redraw font) s (redraw-erase font s)
    ∙ ap (λ (m : ℕ → ℕ). erase record con { cells = m }) (fun_ext moved)
