-- ===== src/Format/Print.antt =====
-- Strings on the two devices: debugc, debugs and the padding of debugsp.
use mathlib.Core.List.{append-nil, append_assoc}
use mathlib.Core.Path.{ap₂}
use ygg_kernel.Base.{
  Bool, Bool-cases, List, [], false, if◌then◌else◌, inl, inr, leb, ltb, not, refl, replicate, suc,
  sym, true, zero, ℕ, ◌&&◌, ◌++◌, ◌-◌, ◌==◌, ◌∙◌, ◌∷◌, ◌≡◌,
}
use ygg_kernel.Format.{Output, debugc, debugs, debugsp, debugspl, debugspr, pad}
use ygg_kernel.Text.{strlen}
use ygg_kernel.Text.Compare.{text}

-- What a device has been sent behind `old` when `l` is printed at a level that it shows or not.
abbrev pub shown : Bool → List ℕ → List ℕ → List ℕ
shown true old l = old ++ l
shown false old l = old

-- Between `o` and `o'` the characters `l` were printed at the level.
unfoldable pub Printed : ℕ → Output → List ℕ → Output → Type 0
Printed level o l o' =
    (o'.serial ≡ shown (leb o.serial_level level) o.serial l)
    × (o'.display ≡ shown (leb o.disp_level level) o.display l)
    × (o'.serial_level ≡ o.serial_level)
    × (o'.disp_level ≡ o.disp_level)

shown-nil : (b : Bool) (old : List ℕ) → old ≡ shown b old []
shown-nil true old = sym (append-nil old)
shown-nil false old = refl

shown-append : (b : Bool) (old l m : List ℕ) → shown b (shown b old l) m ≡ shown b old (l ++ m)
shown-append true old l m = append_assoc old l m
shown-append false old l m = refl

Printed-nil : (level : ℕ) (o : Output) → Printed level o [] o
unfolding Printed
Printed-nil level o = (
  shown-nil (leb o.serial_level level) o.serial,
  shown-nil (leb o.disp_level level) o.display,
  refl,
  refl,
)

Printed-append :
    (level : ℕ) (o p q : Output) (l m : List ℕ)
    → Printed level o l p
    → Printed level p m q
    → Printed level o (l ++ m) q
unfolding Printed
Printed-append level o p q l m (s, d, sl, dl) (s', d', sl', dl') = (
  s'
      ∙ ap₂ (λ x y. shown (leb x level) y m) sl s
      ∙ shown-append (leb o.serial_level level) o.serial l m,
  d'
      ∙ ap₂ (λ x y. shown (leb x level) y m) dl d
      ∙ shown-append (leb o.disp_level level) o.display l m,
  sl' ∙ sl,
  dl' ∙ dl,
)

if-shown : (b : Bool) (old l : List ℕ) → (if b then old ++ l else old) ≡ shown b old l
if-shown true old l = refl
if-shown false old l = refl

debugc-Printed : (level c : ℕ) (o : Output) → Printed level o (c ∷ []) (debugc level c o)
unfolding Printed debugc
debugc-Printed level c o = (
  if-shown (leb o.serial_level level) o.serial (c ∷ []),
  if-shown (leb o.disp_level level) o.display (c ∷ []),
  refl,
  refl,
)

debugs-Printed : (level : ℕ) (s : List ℕ) (o : Output) → Printed level o (text s) (debugs level s o)
unfolding debugs text
debugs-Printed level [] o = Printed-nil level o
debugs-Printed level (c ∷ s) o = elim (Bool-cases (c == 0)) [
  | inl end ↦ rw end (Printed-nil level o)
  | inr on ↦
      let first = debugc-Printed level c o in
      let rest = debugs-Printed level s (debugc level c o) in
      rw on (
        Printed-append level o (debugc level c o) (debugs level s (debugc level c o)) (c ∷ [])
          (text s) first rest)
]

pad-Printed : (n level p : ℕ) (o : Output) → Printed level o (replicate n p) (pad n level p o)
unfolding pad
pad-Printed zero level p o = Printed-nil level o
pad-Printed (suc n) level p o =
    Printed-append level o (debugc level p o) (pad n level p (debugc level p o)) (p ∷ [])
      (replicate n p) (debugc-Printed level p o) (pad-Printed n level p (debugc level p o))

-- The characters that a padded string consists of.
unfoldable pub padded : List ℕ → ℕ → Bool → ℕ → List ℕ
padded s padc neg width =
    if not neg && ltb 0 width
    then replicate (width - strlen s) padc ++ text s
    else text s ++ replicate (width - strlen s) padc

-- debugsp prints the string padded to the width, on the left for a positive width and on the right
-- for a negative one, on each device that shows the level, and nothing on the other.
debugsp-padded :
    (level : ℕ) (s : List ℕ) (padc : ℕ) (neg : Bool) (width : ℕ) (o : Output)
    → Printed level o (padded s padc neg width) (debugsp level s padc neg width o)
unfolding debugsp debugspl debugspr padded
debugsp-padded level s padc neg width o =
    let n = width - strlen s in
    elim (Bool-cases (not neg && ltb 0 width)) [
      | inl left ↦ rw left (
          Printed-append level o (pad n level padc o) (debugs level s (pad n level padc o))
            (replicate n padc) (text s) (pad-Printed n level padc o)
            (debugs-Printed level s (pad n level padc o)))
      | inr right ↦ rw right (
          Printed-append level o (debugs level s o) (pad n level padc (debugs level s o)) (text s)
            (replicate n padc) (debugs-Printed level s o)
            (pad-Printed n level padc (debugs level s o)))
    ]
