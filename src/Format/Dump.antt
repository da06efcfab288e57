-- ===== src/Format/Dump.antt =====
-- debug_dump of sys/debug.c, built with DEBUG_DUMP_WORDS for the x86: a block is the list of its bytes,
-- behind whose end memory reads as 0, and its address.
use ygg_kernel.Base.{
  List, Option, [], drop, get_or, if◌then◌else◌, length, ltb, none, some, suc, take, zero, ℕ, ◌%◌,
  ◌+◌, ◌/◌, ◌^◌, ◌∷◌,
}
use ygg_kernel.Format.{Output, debugc, xs_set1}
use ygg_kernel.Format.Interpret.{debugfv, num}
use ygg_kernel.Text.{isprint}

-- DEBUG_DUMP_LINE
abbrev pub dump_line : ℕ
dump_line = 16

-- The format strings of the first line, of the address in front of a line, and of the last line.
abbrev pub dump_start : List ℕ
dump_start =
    b'-' ∷ b'-' ∷ b'-' ∷ b' ' ∷ b'M' ∷ b'e' ∷ b'm' ∷ b'o' ∷ b'r' ∷ b'y' ∷ b' ' ∷ b'd' ∷ b'u' ∷ b'm'
    ∷ b'p' ∷ b' ' ∷ b'a' ∷ b't' ∷ b' ' ∷ b'%' ∷ b'p' ∷ b',' ∷ b' ' ∷ b'%' ∷ b'u' ∷ b'B' ∷ b' '
    ∷ b'-' ∷ b'-' ∷ b'-' ∷ b'\n' ∷ []

abbrev pub dump_address : List ℕ
dump_address = b'%' ∷ b'p' ∷ b':' ∷ b' ' ∷ []

abbrev pub dump_end : List ℕ
dump_end =
    b'-' ∷ b'-' ∷ b'-' ∷ b' ' ∷ b'E' ∷ b'n' ∷ b'd' ∷ b' ' ∷ b'd' ∷ b'u' ∷ b'm' ∷ b'p' ∷ b' ' ∷ b'-'
    ∷ b'-' ∷ b'-' ∷ b'\n' ∷ []

-- The two digits of a byte.
unfoldable pub dump_byte : ℕ → ℕ → Output → Output
unfolding debugc
dump_byte level b o = debugc level (xs_set1 (b % 16)) (debugc level (xs_set1 (b / 16 % 16)) o)

-- The word at byte `j`, its low byte first, or blanks behind the end.
unfoldable pub dump_word : ℕ → List ℕ → ℕ → Output → Output
unfolding dump_byte debugc
dump_word level block j o =
    let low = dump_byte level (get_or block j 0) o in
    let word = dump_byte level (get_or block (j + 1) 0) low in
    let blanks = debugc level b' ' (debugc level b' ' o) in
    debugc level b' ' (if ltb j (length block) then word else blanks)

-- `n` words from byte `j` on.
unfoldable pub dump_words : ℕ → ℕ → List ℕ → ℕ → Output → Output
unfolding dump_word
dump_words zero level block j o = o
dump_words (suc n) level block j o = dump_words n level block (j + 2) (dump_word level block j o)

-- The characters of a line.
unfoldable pub dump_chars : ℕ → List ℕ → Output → Output
unfolding debugc
dump_chars level [] o = o
dump_chars level (c ∷ s) o = dump_chars level s (debugc level (if isprint c then c else b'.') o)

-- One line, from byte `i` on; the address is printed by debugfv.
unfoldable pub dump_row : ℕ → ℕ → List ℕ → ℕ → Output → Option Output
unfolding dump_words dump_chars debugc
dump_row level address block i o =
    elim (debugfv level dump_address (num ((address + i) % 2 ^ 32) ∷ []) o) [
      | none ↦ none
      | some o1 ↦
          let o2 = debugc level b' ' (dump_words 8 level block i o1) in
          some (debugc level b'\n' (dump_chars level (take dump_line (drop i block)) o2))
    ]

-- The lines, `n` of them from byte `i` on.
unfoldable pub dump_rows : ℕ → ℕ → ℕ → List ℕ → ℕ → Output → Option Output
unfolding dump_row
dump_rows zero level address block i o = some o
dump_rows (suc n) level address block i o = elim (dump_row level address block i o) [
  | none ↦ none
  | some o1 ↦ dump_rows n level address block (i + dump_line) o1
]

-- debug_dump
unfoldable pub debug_dump : ℕ → ℕ → List ℕ → Output → Option Output
unfolding dump_rows
debug_dump level address block o =
    elim (debugfv level dump_start (num address ∷ num (length block) ∷ []) o) [
      | none ↦ none
      | some o1 ↦ elim (dump_rows ((length block + 15) / dump_line) level address block 0 o1) [
        | none ↦ none
        | some o2 ↦ debugfv level dump_end [] o2
      ]
    ]
