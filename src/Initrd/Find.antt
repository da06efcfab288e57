-- ===== src/Initrd/Find.antt =====
-- initrd_find_file as a search of the archive's list of entries.
use ygg_kernel.Base.{
  List, [], arith, false, if◌then◌else◌, length, refl, suc, zero, ℕ, ◌+◌, ◌==◌, ◌∷◌, ◌≡◌, ◌≢◌, ◌≤◌,
}
use ygg_kernel.Initrd.{Found, Header, at, find_file, find_from, is_file_named, missing, stride}
use ygg_kernel.Text.{byte}

-- The headers at the places of the list stand one behind the other from block `it` on, and two empty
-- blocks end the archive.
unfoldable pub Archive : (ℕ → Header) → ℕ → List Header → Type 0
Archive blocks it [] = (byte (blocks it).name ≡ 0) × (byte (blocks (it + 1)).name ≡ 0)
Archive blocks it (h ∷ hs) = (blocks it ≡ h) × (byte h.name ≢ 0) × Archive blocks (it + stride h) hs

-- The place of the first file whose name is `name`.
unfoldable pub first_file : List ℕ → ℕ → List Header → Found
first_file name it [] = missing
first_file name it (h ∷ hs) =
    let rest = first_file name (it + stride h) hs in if is_file_named name h then at it else rest

find_from-first_file :
    (k : ℕ) (blocks : ℕ → Header) (name : List ℕ) (it : ℕ) (hs : List Header)
    → length hs + 2 ≤ k
    → Archive blocks it hs
    → find_from k blocks name it false ≡ first_file name it hs
unfolding find_from Archive first_file
find_from-first_file zero blocks name it hs le h = absurd (omega arith)
find_from-first_file (suc zero) blocks name it [] le h = absurd (omega arith)
find_from-first_file (suc (suc k)) blocks name it [] le (e, f) = rw (e, f) refl
find_from-first_file (suc k) blocks name it (h ∷ hs) le (e, ne, rest) =
    let filled : (byte h.name == 0) ≡ false = ground (arith, ne) in
    let ih = find_from-first_file k blocks name (it + stride h) hs (omega arith) rest in
    rw (e, filled, ih) refl

-- On an archive of `length hs` entries find_file returns, with fuel for two blocks more than that,
-- the place of the first file that has the name, or says that there is none.
pub find_file-first_file :
    (k : ℕ) (blocks : ℕ → Header) (name : List ℕ) (hs : List Header)
    → length hs + 2 ≤ k
    → Archive blocks 0 hs
    → find_file k blocks name ≡ first_file name 0 hs
unfolding find_file
find_file-first_file k blocks name hs le h = find_from-first_file k blocks name 0 hs le h
