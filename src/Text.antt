-- ===== src/Text.antt =====
-- The C strings of the kernel: sys/string.c, sys/ctype.c, sys/atoi.c, sys/mem.c, and strcmp of the
-- user-space library, usr/lib/posix/string.c. A pointer to characters is the list of the bytes from
-- there on, behind whose end memory reads as 0; a character is a byte, 0 to 255.
use ygg_kernel.Base.{
  Bool, List, Option, [], bit_and, bit_or, get_or, if◌then◌else◌, leb, ltb, none, not, set, some,
  suc, zero, ℕ, ◌%◌, ◌&&◌, ◌*◌, ◌+◌, ◌-◌, ◌==◌, ◌^◌, ◌||◌, ◌∷◌,
}
pub mod Compare
pub mod Copy
pub mod Ctype
pub mod Tests

-- `*s` and `s + 1`.
abbrev pub byte : List ℕ → ℕ
byte [] = 0
byte (c ∷ s) = c

abbrev pub tail : List ℕ → List ℕ
tail [] = []
tail (c ∷ s) = s

unfoldable pub strlen : List ℕ → ℕ
strlen [] = 0
strlen (c ∷ s) = if c == 0 then 0 else strlen s + 1

-- The int that a comparison returns.
unfoldable pub strncmp : List ℕ → List ℕ → ℕ → ℕ
strncmp [] b l = if l == 0 then 0 else if byte b == 0 then 0 else 1
strncmp (c ∷ a) b l =
    let rest = strncmp a (tail b) (l - 1) in
    if l == 0
    then 0
    else if c == 0 || byte b == 0
    then (if c == byte b then 0 else 1)
    else if c == byte b
    then rest
    else 1

unfoldable pub strcmp : List ℕ → List ℕ → ℕ
strcmp a b = strncmp a b 0xFFFF_FFFF

-- strcmp of usr/lib/posix/string.c
unfoldable pub user_strcmp : List ℕ → List ℕ → ℕ
user_strcmp [] b = if byte b == 0 then 0 else 1
user_strcmp (c ∷ a) b =
    let rest = user_strcmp a (tail b) in if c == byte b then (if c == 0 then 0 else rest) else 1

-- The number of characters that two strings share at their start, among the first `n`.
unfoldable pub strncmn : List ℕ → List ℕ → ℕ → ℕ
strncmn [] b n = 0
strncmn (c ∷ a) b n =
    let rest = strncmn a (tail b) (n - 1) in
    if n == 0 || c == 0 || byte b == 0 then 0 else if c == byte b then rest + 1 else 0

-- The loop of strcpy from index `i` on: `src` is what is left of the source.
strcpy_from : ℕ → List ℕ → List ℕ → List ℕ
strcpy_from i dst [] = set dst i 0
strcpy_from i dst (c ∷ src) =
    let rest = strcpy_from (i + 1) (set dst i c) src in if c == 0 then set dst i 0 else rest

unfoldable pub strcpy : List ℕ → List ℕ → List ℕ
unfolding strcpy_from
strcpy dst src = strcpy_from 0 dst src

-- The loop of strncpy; the terminator is written only where the limit is not reached.
strncpy_from : ℕ → List ℕ → List ℕ → ℕ → List ℕ
strncpy_from i dst [] l = if i == l then dst else set dst i 0
strncpy_from i dst (c ∷ src) l =
    let rest = strncpy_from (i + 1) (set dst i c) src l in
    if c == 0 || not (ltb i l) then (if i == l then dst else set dst i 0) else rest

unfoldable pub strncpy : List ℕ → List ℕ → ℕ → List ℕ
unfolding strncpy_from
strncpy dst src l = strncpy_from 0 dst src l

-- The string from the first `c` on; `none` is NULL.
unfoldable pub strchr : List ℕ → ℕ → Option (List ℕ)
strchr [] c = none
strchr (d ∷ s) c =
    let rest = strchr s c in if d == 0 then none else if d == c then some (d ∷ s) else rest

unfoldable pub strchrnul : List ℕ → ℕ → List ℕ
strchrnul [] c = []
strchrnul (d ∷ s) c =
    let rest = strchrnul s c in if d == 0 then d ∷ s else if d == c then d ∷ s else rest

-- sys/mem.c: the loops from index `i` on with `n` bytes left. A block is the list of its bytes, and
-- a write behind it has no effect in the model.
memset_from : ℕ → ℕ → ℕ → List ℕ → List ℕ
memset_from zero i v block = block
memset_from (suc n) i v block = memset_from n (i + 1) v (set block i (v % 2 ^ 8))

unfoldable pub memset : List ℕ → ℕ → ℕ → List ℕ
unfolding memset_from
memset block v len = memset_from len 0 v block

memcpy_from : ℕ → ℕ → List ℕ → List ℕ → List ℕ
memcpy_from zero i dst src = dst
memcpy_from (suc n) i dst src = memcpy_from n (i + 1) (set dst i (get_or src i 0)) src

unfoldable pub memcpy : List ℕ → List ℕ → ℕ → List ℕ
unfolding memcpy_from
memcpy dst src len = memcpy_from len 0 dst src

-- sys/ctype.c
unfoldable pub isspace : ℕ → Bool
isspace c = c == 0x0a || c == 0x09 || c == b' '

unfoldable pub isprint : ℕ → Bool
isprint c = leb 0x20 c && leb c 0x7F

unfoldable pub islower : ℕ → Bool
islower c = leb b'a' c && leb c b'z'

unfoldable pub isupper : ℕ → Bool
isupper c = leb b'A' c && leb c b'Z'

unfoldable pub tolower : ℕ → ℕ
unfolding isupper
tolower c = if isupper c then bit_or c 0x20 else c

unfoldable pub toupper : ℕ → ℕ
unfolding islower
toupper c = if islower c then bit_and c 0x5F else c

unfoldable pub togglecase : ℕ → ℕ
unfolding isupper toupper
togglecase c = if isupper c then bit_or c 0x20 else toupper c

-- sys/atoi.c: the loop with the value so far, an int that wraps.
atoi_from : ℕ → List ℕ → ℕ
atoi_from r [] = r
atoi_from r (c ∷ s) =
    let rest = atoi_from ((r * 10 % 2 ^ 32 + (c - b'0')) % 2 ^ 32) s in
    if c == 0 then r else if leb b'0' c && leb c b'9' then rest else r

unfoldable pub atoi : List ℕ → ℕ
unfolding atoi_from
atoi s = atoi_from 0 s
