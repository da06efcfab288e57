-- ===== src/Net/Config.antt =====
-- The configuration file of the network, net_load_config of dev/net.c. `none` is a failed assertion or
-- a panic; a write behind the buffer has no effect in the model.
use ygg_kernel.Base.{
  List, Option, [], drop, get_or, if◌then◌else◌, length, none, replicate, set, some, suc, zero, ℕ,
  ◌%◌, ◌-◌, ◌==◌, ◌^◌, ◌∷◌,
}
use ygg_kernel.Format.Sizes.{inet_aton}
use ygg_kernel.Net.{Net, find_iface, inaddr_add, route_add}
use ygg_kernel.Text.{atoi, strchr, strcpy, strncmp, strncpy, tail}
use ygg_kernel.Vfs.{minus_one, vfs_gets}

-- The variables of net_load_config, and the network.
pub record Config : Type 0 where
  pub net : Net
  pub iface : Option ℕ
  pub mask : ℕ
  pub buffer : List ℕ

-- The sizes of `linebuf` and `buf0`.
abbrev pub line_size : ℕ
line_size = 128

abbrev pub buffer_size : ℕ
buffer_size = 64

-- The first `n` characters of a string in the buffer.
unfoldable pub head_in : List ℕ → List ℕ → ℕ → List ℕ
head_in buffer s n = set (strncpy buffer s n) n 0

-- An address that has to be different from 0.
unfoldable pub parse_addr : List ℕ → Option ℕ
parse_addr s = elim (inet_aton s) [ none ↦ none | some a ↦ if a == 0 then none else some a ]

-- `mask = atoi(p + 1)`
abbrev pub parse_mask : List ℕ → ℕ
parse_mask p = atoi (tail p) % 2 ^ 8

-- A line that starts with a bracket: the interface that the next lines are for.
unfoldable pub section_line : List ℕ → Config → Option Config
unfolding head_in
section_line line c = elim (strchr line b']') [
  | none ↦ none
  | some e ↦
      let buffer = head_in c.buffer (tail line) (length line - length e - 1) in
      some (record c { buffer = buffer; iface = find_iface c.net buffer })
]

-- The address of a line `inet=`, in the buffer, and the mask, which stays where none is given.
unfoldable pub inet_parts : List ℕ → Config → Config
unfolding head_in
inet_parts e c = elim (strchr e b'/') [
  | none ↦ record c { buffer = strcpy c.buffer e }
  | some p ↦ record c { mask = parse_mask p; buffer = head_in c.buffer e (length e - length p) }
]

unfoldable pub inet_line : List ℕ → ℕ → Config → Option Config
unfolding inet_parts parse_addr
inet_line line iface c =
    let c1 = inet_parts (drop 5 line) c in
    elim (parse_addr c1.buffer) [
      | none ↦ none
      | some addr ↦ elim (inaddr_add iface addr c1.mask c1.net) [
        | none ↦ none
        | some net ↦ some (record c1 { net = net })
      ]
    ]

-- The destination of a line `route `, which ends at a slash or else at the space `n`.
unfoldable pub route_parts : List ℕ → List ℕ → Config → Config
unfolding head_in
route_parts e n c = elim (strchr e b'/') [
  | none ↦ record c { buffer = head_in c.buffer e (length e - length n) }
  | some p ↦ record c { mask = parse_mask p; buffer = head_in c.buffer e (length e - length p) }
]

unfoldable pub route_line : List ℕ → ℕ → Config → Option Config
unfolding route_parts parse_addr
route_line line iface c =
    let e = drop 6 line in
    elim (strchr e b' ') [
      | none ↦ none
      | some n ↦
          let c1 = route_parts e n c in
          elim (parse_addr c1.buffer) [
            | none ↦ none
            | some addr ↦ elim (parse_addr (tail n)) [
              | none ↦ none
              | some via ↦ elim (route_add addr via iface c1.mask c1.net) [
                | none ↦ none
                | some net ↦ some (record c1 { net = net })
              ]
            ]
          ]
    ]

-- "inet=" and "route "
abbrev pub word_inet : List ℕ
word_inet = b'i' ∷ b'n' ∷ b'e' ∷ b't' ∷ b'=' ∷ []

abbrev pub word_route : List ℕ
word_route = b'r' ∷ b'o' ∷ b'u' ∷ b't' ∷ b'e' ∷ b' ' ∷ []

-- One line; the lines of addresses and routes count only behind the name of an interface.
unfoldable pub config_line : List ℕ → Config → Option Config
unfolding section_line inet_line route_line
config_line line c =
    let for_iface : (ℕ → Option Config) → Option Config =
      λ f. elim c.iface [ none ↦ some c | some i ↦ f i ] in
    if get_or line 0 0 == b'['
    then section_line line c
    else if strncmp line word_inet 5 == 0
    then for_iface (λ i. inet_line line i c)
    else if strncmp line word_route 6 == 0
    then for_iface (λ i. route_line line i c)
    else some c

-- The loop over the lines of the file, on fuel that exceeds their number; `read1` reads a character.
-- It ends at the end of the file and at an empty line.
unfoldable pub config_from : {S : Type 0} → (S → Option (ℕ × S)) → ℕ → S → Config → Option Config
unfolding config_line
config_from read1 zero s c = none
config_from read1 (suc k) s c =
    let (got, s1) = vfs_gets read1 line_size s in
    elim got [
      | none ↦ some c
      | some line ↦
          let rest : Option Config = elim (config_line line c) [
            | none ↦ none
            | some c1 ↦ config_from read1 k s1 c1
          ] in
          if length line == 0 then some c else rest
    ]

-- net_load_config, of the file that vfs_open gives, if any.
unfoldable pub load_config :
    {S : Type 0} → (S → Option (ℕ × S)) → ℕ → Option S → Net → Option (ℕ × Net)
unfolding config_from
load_config read1 fuel none n = some (minus_one, n)
load_config read1 fuel (some s) n =
    elim (config_from read1 fuel s
      (record { net = n; iface = none; mask = 0; buffer = replicate buffer_size 0 })) [
        | none ↦ none
        | some c ↦ some (0, c.net)
      ]
