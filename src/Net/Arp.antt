-- ===== src/Net/Arp.antt =====
-- Address resolution, net/arp.c, and its callers in dev/net.c. A driver's tx succeeds.
use ygg_kernel.Base.{
  List, Option, [], bit_or, get_elem?, has_flag, if◌then◌else◌, none, replicate, set, some, ℕ, ◌%◌,
  ◌==◌, ◌∷◌,
}
use ygg_kernel.Net.{
  ArpMsg, Frame, InaddrSpec, Net, RouteSpec, flg_awaits, htons, route_resolve, same_subnet, send,
}

-- The packet that arp_reply makes.
unfoldable pub reply : List ℕ → ArpMsg → Frame
unfolding htons
reply mac ask = record {
  dst_mac = ask.sha;
  src_mac = mac;
  ethertype = htons 0x0806;
  arp = record ask { oper = htons 2; sha = mac; spa = ask.tpa; tha = ask.sha; tpa = ask.spa };
}

-- arp_handle_packet
unfoldable pub handle_arp : ℕ → ArpMsg → Net → Option Net
unfolding htons send reply route_resolve
handle_arp i msg n = elim (get_elem? n.devices i) [
  | none ↦ none
  | some d ↦
      if htons msg.oper == 1
      then some (send i (reply d.mac msg) n)
      else if htons msg.oper == 2
      then (if has_flag d.flags flg_awaits then route_resolve i msg.spa msg.sha n else some n)
      else some n
]

-- net_handle_packet
unfoldable pub handle_packet : ℕ → Frame → Net → Option Net
unfolding htons handle_arp
handle_packet i f n = if htons f.ethertype == 0x0806 then handle_arp i f.arp n else some n

-- arp_request_in_hwaddr
unfoldable pub request : ℕ → ℕ → ℕ → Net → Option Net
unfolding htons send
request i inaddr src n = elim (get_elem? n.devices i) [
  | none ↦ none
  | some d ↦ some (
      send i
        (record {
          dst_mac = replicate 6 0xFF;
          src_mac = d.mac;
          ethertype = htons 0x0806;
          arp = record {
            htype = htons 1;
            ptype = htons 0x0800;
            hlen = 6;
            plen = 4;
            oper = htons 1;
            sha = d.mac;
            spa = src;
            tha = replicate 6 0;
            tpa = inaddr;
          };
        })
        (record n { devices = set n.devices i (record d { flags = bit_or d.flags flg_awaits }) }))
]

-- The inner loop of net_post_config: the address from which the request goes out, if any.
unfoldable pub source_of : ℕ → List InaddrSpec → Option (Option ℕ)
unfolding same_subnet
source_of dst [] = some none
source_of dst (s ∷ ss) =
    let rest = source_of dst ss in
    if s.flags == 0 then some none else elim (same_subnet (s.flags % 256) s.addr dst) [
      | none ↦ none
      | some same ↦ if same then some (some s.addr) else rest
    ]

-- One round of net_post_config.
unfoldable pub post_route : RouteSpec → Net → Option Net
unfolding source_of request
post_route r n = elim (get_elem? n.devices r.dev) [
  | none ↦ none
  | some d ↦ elim (source_of r.dst d.inaddrs) [
    | none ↦ none
    | some none ↦ some n
    | some (some src) ↦ request r.dev r.dst src n
  ]
]

-- The loop of net_post_config.
unfoldable pub post_routes : List RouteSpec → Net → Option Net
unfolding post_route source_of request
post_routes [] n = some n
post_routes (r ∷ rs) n =
    let rest : Option Net = elim (post_route r n) [ none ↦ none | some m ↦ post_routes rs m ] in
    if r.flags == 0 then some n else rest

-- net_post_config
unfoldable pub post_config : Net → Option Net
unfolding post_routes
post_config n = post_routes n.routes n
