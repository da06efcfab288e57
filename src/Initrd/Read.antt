-- ===== src/Initrd/Read.antt =====
-- Reading a file of the initial ramdisk piece by piece.
use ygg_kernel.Base.{
  List, [], ap, arith, if◌then◌else◌, ltb, min, refl, suc, zero, ℕ, ◌++◌, ◌+◌, ◌-◌, ◌∙◌, ◌∷◌, ◌≡◌,
}
use ygg_kernel.Initrd.{Open, bytes_at, initramfs_read}

bytes_at-append :
    (mem : ℕ → ℕ) (n m a : ℕ) → bytes_at mem a n ++ bytes_at mem (a + n) m ≡ bytes_at mem a (n + m)
unfolding bytes_at
bytes_at-append mem zero m a =
    let here : a + 0 ≡ a = omega arith in
    let there : 0 + m ≡ m = omega arith in rw (here, there) refl
bytes_at-append mem (suc n) m a =
    let ih = bytes_at-append mem n m (a + 1) in
    let start : a + suc n ≡ a + 1 + n = omega arith in
    let count : suc n + m ≡ suc (n + m) = omega arith in rw (start, count) (ap (λ l. mem a ∷ l) ih)

abbrev place : ℕ → ℕ → Open
place p q = record { pos0 = p; pos1 = q }

bytes_at-joined :
    (mem : ℕ → ℕ) (p q l k t : ℕ)
    → l + k ≡ t
    → ◌≡◌ {A = List ℕ × Open}
        (bytes_at mem p l ++ bytes_at mem (p + l) k, place (p + l + k) (q - l - k))
        (bytes_at mem p t, place (p + t) (q - t))
bytes_at-joined mem p q l k t e =
    let up : p + l + k ≡ p + t = omega arith in
    let down : q - l - k ≡ q - t = omega arith in rw (bytes_at-append mem l k p, up, down, e) refl

-- The pieces that reads of the lengths `lens` return, joined, and the file behind them.
unfoldable pub read_all : (ℕ → ℕ) → Open → List ℕ → List ℕ × Open
read_all mem f [] = ([], f)
read_all mem f (n ∷ lens) =
    let (piece, g) = initramfs_read mem f n in
    let (rest, h) = read_all mem g lens in (piece ++ rest, h)

unfoldable pub sum : List ℕ → ℕ
sum [] = 0
sum (n ∷ lens) = n + sum lens

-- Reads of any lengths return together the first bytes of the file, as many as they ask for but no
-- more than the file has, and advance the file by that many.
pub read_all-bytes_at :
    (mem : ℕ → ℕ) (f : Open) (lens : List ℕ)
    → read_all mem f lens ≡ (
      bytes_at mem f.pos0 (min (sum lens) f.pos1),
      record { pos0 = f.pos0 + min (sum lens) f.pos1; pos1 = f.pos1 - min (sum lens) f.pos1 },
    )
unfolding read_all initramfs_read sum
read_all-bytes_at mem f [] =
    let nothing : min 0 f.pos1 ≡ 0 = omega arith in
    let here : f.pos0 + 0 ≡ f.pos0 = omega arith in
    let whole : f.pos1 - 0 ≡ f.pos1 = omega arith in rw (nothing, here, whole) refl
read_all-bytes_at mem f (n ∷ lens) =
    let l : ℕ = if ltb f.pos1 n then f.pos1 else n in
    let total : l + min (sum lens) (f.pos1 - l) ≡ min (n + sum lens) f.pos1 = ground arith in
    ap (λ r. (bytes_at mem f.pos0 l ++ r.0, r.1))
      (read_all-bytes_at mem (place (f.pos0 + l) (f.pos1 - l)) lens)
    ∙ bytes_at-joined mem f.pos0 f.pos1 l (min (sum lens) (f.pos1 - l)) (min (n + sum lens) f.pos1)
        total
