-- ===== src/Net.antt =====
-- Interfaces, their addresses and routes, dev/net.c. A device is the
-- number of its slot in s_devices; a hardware address is the list of its bytes. `none` is a panic or
-- a failed assertion.
use ygg_kernel.Base.{
  Bool, List, Option, [], bit_and, bit_or, cons_found, get_elem?, has_flag, if◌then◌else◌, length,
  ltb, none, replicate, set, some, take, ℕ, ◌%◌, ◌&&◌, ◌*◌, ◌++◌, ◌+◌, ◌/◌, ◌==◌, ◌^◌, ◌∷◌,
}
use ygg_kernel.Text.{strcmp}
pub mod Arp
pub mod Config
pub mod Route
pub mod Tests

-- struct net_inaddr_spec
pub record InaddrSpec : Type 0 where
  pub flags : ℕ
  pub addr : ℕ

-- struct net_inaddr_route_spec
pub record RouteSpec : Type 0 where
  pub flags : ℕ
  pub addr : ℕ
  pub dev : ℕ
  pub dst : ℕ
  pub dst_hwaddr : List ℕ

-- netdev_t with its private structure, of which `inaddrs` has four slots.
pub record Netdev : Type 0 where
  pub name : List ℕ
  pub mac : List ℕ
  pub flags : ℕ
  pub inaddrs : List InaddrSpec

-- struct arp_msg, its fields as the processor reads them.
pub record ArpMsg : Type 0 where
  pub htype : ℕ
  pub ptype : ℕ
  pub hlen : ℕ
  pub plen : ℕ
  pub oper : ℕ
  pub sha : List ℕ
  pub spa : ℕ
  pub tha : List ℕ
  pub tpa : ℕ

-- A packet with an Ethernet header and an ARP message.
pub record Frame : Type 0 where
  pub dst_mac : List ℕ
  pub src_mac : List ℕ
  pub ethertype : ℕ
  pub arp : ArpMsg

-- The variables of dev/net.c, and the packets handed to the drivers, newest first.
pub record Net : Type 0 where
  pub devices : List Netdev
  pub eth_last : ℕ
  pub routes : List RouteSpec
  pub sent : List (ℕ × Frame)

abbrev pub flg_eth : ℕ
flg_eth = 1

abbrev pub flg_awaits : ℕ
flg_awaits = 2 ^ 30

abbrev pub flg_set : ℕ
flg_set = 2 ^ 31

-- inet_htons
unfoldable pub htons : ℕ → ℕ
htons x = x % 256 * 256 + x / 256 % 256

-- net_inaddr_mask
unfoldable pub inaddr_mask : ℕ → Option ℕ
inaddr_mask n =
    if n == 0
    then some 0
    else if n == 8
    then some 0xFF
    else if n == 16
    then some 0xFFFF
    else if n == 24
    then some 0xFF_FFFF
    else if n == 32
    then some 0xFFFF_FFFF
    else none

-- NET_SAME_SUBNET
unfoldable pub same_subnet : ℕ → ℕ → ℕ → Option Bool
unfolding inaddr_mask
same_subnet mask a b = elim (inaddr_mask mask) [
  | none ↦ none
  | some m ↦ some (bit_and a m == bit_and b m)
]

-- net_find_iface: the index of the first device of that name.
unfoldable pub find_iface_from : ℕ → List Netdev → List ℕ → Option ℕ
find_iface_from i [] name = none
find_iface_from i (d ∷ ds) name =
    let rest = find_iface_from (i + 1) ds name in if strcmp name d.name == 0 then some i else rest

unfoldable pub find_iface : Net → List ℕ → Option ℕ
unfolding find_iface_from
find_iface n name = find_iface_from 0 n.devices name

-- The loop of net_inaddr_add.
unfoldable pub add_inaddr : ℕ → ℕ → List InaddrSpec → Option (List InaddrSpec)
add_inaddr addr flags [] = none
add_inaddr addr flags (s ∷ ss) =
    let rest = add_inaddr addr flags ss in
    if s.addr == 0 && (s.flags == 0)
    then some (record { flags = bit_or flags flg_set; addr = addr } ∷ ss)
    else cons_found s rest

-- net_inaddr_add
unfoldable pub inaddr_add : ℕ → ℕ → ℕ → Net → Option Net
unfolding add_inaddr
inaddr_add i addr flags n = elim (get_elem? n.devices i) [
  | none ↦ none
  | some d ↦ elim (add_inaddr addr flags d.inaddrs) [
    | none ↦ none
    | some slots ↦ some (record n { devices = set n.devices i (record d { inaddrs = slots }) })
  ]
]

-- The loop of net_route_add; the hardware address of the slot stays.
unfoldable pub add_route : ℕ → ℕ → ℕ → ℕ → List RouteSpec → Option (List RouteSpec)
add_route addr via dev flags [] = none
add_route addr via dev flags (r ∷ rs) =
    let rest = add_route addr via dev flags rs in
    if r.flags == 0
    then some (record r { flags = bit_or flags flg_set; addr = addr; dev = dev; dst = via } ∷ rs)
    else cons_found r rest

-- net_route_add
unfoldable pub route_add : ℕ → ℕ → ℕ → ℕ → Net → Option Net
unfolding add_route
route_add addr via dev flags n =
    if bit_and flags 7 == 0
    then elim (add_route addr via dev flags n.routes) [
      | none ↦ none
      | some rs ↦ some (record n { routes = rs })
    ]
    else none

-- The loop of net_route_resolve, which ends at the first empty slot.
unfoldable pub resolve : ℕ → ℕ → List ℕ → List RouteSpec → Option (List RouteSpec)
resolve dev inaddr hwaddr [] = none
resolve dev inaddr hwaddr (r ∷ rs) =
    let rest = resolve dev inaddr hwaddr rs in
    if r.flags == 0
    then none
    else if r.dev == dev && (r.dst == inaddr)
    then some (record r { dst_hwaddr = take 6 hwaddr } ∷ rs)
    else cons_found r rest

-- net_route_resolve
unfoldable pub route_resolve : ℕ → ℕ → List ℕ → Net → Option Net
unfolding resolve
route_resolve dev inaddr hwaddr n = elim (resolve dev inaddr hwaddr n.routes) [
  | none ↦ none
  | some rs ↦ some (record n { routes = rs })
]

-- net_init: the slots for routes are cleared.
unfoldable pub net_init : Net → Net
net_init n = record n {
  routes =
      replicate (length n.routes)
        (record { flags = 0; addr = 0; dev = 0; dst = 0; dst_hwaddr = replicate 6 0 });
}

-- net_register; the devices have eight slots, as the private structures have.
unfoldable pub register : Netdev → Net → Option Net
register d n =
    if has_flag d.flags flg_eth && ltb (length n.devices) 8
    then some (record n {
      devices =
          n.devices
          ++ (record d {
            name = b'e' ∷ b't' ∷ b'h' ∷ (n.eth_last + b'0') ∷ 0 ∷ [];
            inaddrs = replicate 4 (record { flags = 0; addr = 0 });
          }
              ∷ []);
      eth_last = n.eth_last + 1;
    })
    else none

-- net_inaddr_from
unfoldable pub inaddr_from : Netdev → Option ℕ
inaddr_from d = elim (get_elem? d.inaddrs 0) [
  | none ↦ none
  | some s ↦ if s.flags == 0 then none else some s.addr
]

unfoldable pub send : ℕ → Frame → Net → Net
send dev f n = record n { sent = (dev, f) ∷ n.sent }
