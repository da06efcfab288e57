-- ===== src/Net/Tests.antt =====
-- The network at concrete inputs.
use ygg_kernel.Base.{List, Option, [], arith, none, refl, some, ℕ, ◌++◌, ◌+◌, ◌^◌, ◌∷◌, ◌≡◌, ◌≢◌}
use ygg_kernel.Format.Sizes.{aton_from, inet_aton}
use ygg_kernel.Net.{
  Frame, Net, Netdev, RouteSpec, add_inaddr, add_route, find_iface, find_iface_from, flg_eth,
  flg_set, inaddr_add, resolve, route_add, route_resolve, send,
}
use ygg_kernel.Net.Arp.{handle_packet, request}
use ygg_kernel.Net.Config.{
  config_from, config_line, head_in, inet_line, inet_parts, load_config, parse_addr, route_line,
  route_parts, section_line,
}
use ygg_kernel.Net.Route.{AllRoutes, Resolved, add_route-resolve, filled, request-reply}
use ygg_kernel.Text.{atoi, strchr, strcmp, strcpy, strncmp, strncpy}
use ygg_kernel.Vfs.{gets_from, vfs_gets}

abbrev mac_a : List ℕ
mac_a = 2 ∷ 0 ∷ 0 ∷ 0 ∷ 0 ∷ 1 ∷ []

abbrev mac_b : List ℕ
mac_b = 2 ∷ 0 ∷ 0 ∷ 0 ∷ 0 ∷ 2 ∷ []

abbrev netdev : List ℕ → Netdev
netdev mac = record { name = b'e' ∷ []; mac = mac; flags = flg_eth; inaddrs = [] }

abbrev no_route : RouteSpec
no_route = record { flags = 0; addr = 0; dev = 0; dst = 0; dst_hwaddr = [] }

abbrev taken_route : RouteSpec
taken_route = record { flags = flg_set; addr = 1; dev = 0; dst = 9; dst_hwaddr = [] }

abbrev system : List ℕ → Net
system mac = record { devices = netdev mac ∷ []; eth_last = 1; routes = no_route ∷ []; sent = [] }

abbrev new_routes : List RouteSpec
new_routes = taken_route ∷ record no_route { flags = 2 ^ 31 + 24; addr = 8; dst = 7 } ∷ []

added : add_route 8 7 0 24 (taken_route ∷ no_route ∷ []) ≡ some new_routes
unfolding add_route
added = refl

add_route-resolve_example :
    (front back : List RouteSpec) × (q : RouteSpec) × (taken_route ∷ no_route ∷ []
      ≡ front ++ (q ∷ back))
    × (q.flags ≡ 0)
    × AllRoutes (λ r. r.flags ≢ 0) front
    × (new_routes ≡ front ++ (filled 8 7 0 24 q ∷ back))
    × (us : List RouteSpec) × (resolve 0 7 mac_b new_routes ≡ some us)
    × Resolved 0 7 mac_b front (filled 8 7 0 24 q) back us
add_route-resolve_example =
    add_route-resolve 8 7 0 24 mac_b (taken_route ∷ no_route ∷ []) new_routes (omega arith) added

abbrev asked : Net
unfolding request
asked = elim (request 0 7 8 (system mac_a)) [ none ↦ system [] | some m ↦ m ]

requested : request 0 7 8 (system mac_a) ≡ some asked
unfolding request asked
requested = refl

request-reply_example :
    (ask : Frame) × (answer : Frame) × (asked.sent ≡ (0, ask) ∷ [])
    × (handle_packet 0 ask (system mac_b) ≡ some (send 0 answer (system mac_b)))
    × (handle_packet 0 answer asked ≡ route_resolve 0 7 mac_b asked)
request-reply_example =
    request-reply 0 0 7 8 (system mac_a) asked (system mac_b) (netdev mac_a) (netdev mac_b) refl
      (omega arith) refl requested

-- A configuration file: "[e]", "inet=1.0.0.2/24", and "route 3.0.0.0/8 1.0.0.4".
abbrev file_bytes : List ℕ
file_bytes =
    b'[' ∷ b'e' ∷ b']' ∷ b'\n' ∷ b'i' ∷ b'n' ∷ b'e' ∷ b't' ∷ b'=' ∷ b'1' ∷ b'.' ∷ b'0' ∷ b'.' ∷ b'0'
    ∷ b'.' ∷ b'2' ∷ b'/' ∷ b'2' ∷ b'4' ∷ b'\n' ∷ b'r' ∷ b'o' ∷ b'u' ∷ b't' ∷ b'e' ∷ b' ' ∷ b'3'
    ∷ b'.' ∷ b'0' ∷ b'.' ∷ b'0' ∷ b'.' ∷ b'0' ∷ b'/' ∷ b'8' ∷ b' ' ∷ b'1' ∷ b'.' ∷ b'0' ∷ b'.'
    ∷ b'0' ∷ b'.' ∷ b'4' ∷ b'\n' ∷ []

abbrev next_byte : List ℕ → Option (ℕ × List ℕ)
next_byte [] = none
next_byte (c ∷ s) = some (c, s)

abbrev with_slot : Net
with_slot = record (system mac_a) {
  devices = record (netdev mac_a) { inaddrs = record { flags = 0; addr = 0 } ∷ [] } ∷ [];
}

abbrev configured : Option (ℕ × Net) → Option (List Netdev × List RouteSpec)
configured none = none
configured (some (r, n)) = some (n.devices, n.routes)

config_test :
    configured (load_config next_byte 5 (some file_bytes) with_slot)
    ≡ some (
      record (netdev mac_a) { inaddrs = record { flags = flg_set + 24; addr = 0x0200_0001 } ∷ [] }
          ∷ [],
      record no_route { flags = flg_set + 8; addr = 3; dst = 0x0400_0001 } ∷ [],
    )
unfolding load_config config_from config_line section_line inet_line route_line inet_parts
    route_parts parse_addr head_in find_iface find_iface_from inaddr_add add_inaddr route_add
    add_route vfs_gets gets_from strchr strncmp strcmp strncpy strcpy inet_aton aton_from atoi
config_test = refl
