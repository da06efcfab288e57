-- ===== src/Net/Route.antt =====
-- Routes and their resolution by ARP, dev/net.c and net/arp.c.
use ygg_kernel.Base.{
  Bool-cases, List, Option-cases, [], all_below-at, ap, arith, bit_or, false, get_elem?, has_flag,
  inl, inr, not, refl, replicate, set, some, subst, suc, take, true, zero, ℕ, ℕ_discrete, ◌&&◌,
  ◌++◌, ◌<◌, ◌==◌, ◌∙◌, ◌∷◌, ◌≡◌, ◌≢◌, ◌⊎◌,
}
use ygg_kernel.Net.{
  Frame, Net, Netdev, RouteSpec, add_route, flg_awaits, flg_set, htons, resolve, route_resolve,
  send,
}
use ygg_kernel.Net.Arp.{handle_arp, handle_packet, reply, request}

flagged : (flags : ℕ) → flags < 256 → (bit_or flags flg_set == 0) ≡ false
flagged flags lt =
    let h = all_below-at 256 (λ f. not (bit_or f flg_set == 0)) flags refl lt in ground (arith, h)

-- The slot `q` with a route in it, as net_route_add fills it, and as net_route_resolve does.
abbrev pub filled : ℕ → ℕ → ℕ → ℕ → RouteSpec → RouteSpec
filled addr via dev flags q = record q {
  flags = bit_or flags flg_set;
  addr = addr;
  dev = dev;
  dst = via;
}

abbrev pub resolved : List ℕ → RouteSpec → RouteSpec
resolved hw r = record r { dst_hwaddr = take 6 hw }

-- A route is of another device or has another gateway.
abbrev pub Other : ℕ → ℕ → RouteSpec → Type 0
Other dev via r = ¬ ((r.dev ≡ dev) × (r.dst ≡ via))

-- `P` holds of every route of the list.
abbrev pub AllRoutes : (RouteSpec → Type 0) → List RouteSpec → Type 0
AllRoutes P [] = Unit
AllRoutes P (r ∷ l) = P r × AllRoutes P l

-- The routes behind a resolution, where `front` stands before the route `new`, which is one of the
-- device with the gateway: the first such route is resolved.
abbrev pub Resolved :
    ℕ → ℕ → List ℕ → List RouteSpec → RouteSpec → List RouteSpec → List RouteSpec → Type 0
Resolved dev via hw front new back us =
    (AllRoutes (Other dev via) front × (us ≡ front ++ (resolved hw new ∷ back)))
    ⊎ ((a b : List RouteSpec) × (r : RouteSpec) × (front ≡ a ++ (r ∷ b))
        × (r.dev ≡ dev)
        × (r.dst ≡ via)
        × AllRoutes (Other dev via) a
        × (us ≡ a ++ (resolved hw r ∷ (b ++ (new ∷ back)))))

resolve-here :
    (dev via : ℕ) (hw : List ℕ) (r : RouteSpec) (l : List RouteSpec)
    → r.flags ≢ 0
    → r.dev ≡ dev
    → r.dst ≡ via
    → resolve dev via hw (r ∷ l) ≡ some (resolved hw r ∷ l)
unfolding resolve
resolve-here dev via hw r l taken d v = ground (arith, taken, d, v)

resolve-there :
    (dev via : ℕ) (hw : List ℕ) (r : RouteSpec) (l us : List RouteSpec)
    → r.flags ≢ 0
    → (r.dev == dev && (r.dst == via)) ≡ false
    → resolve dev via hw l ≡ some us
    → resolve dev via hw (r ∷ l) ≡ some (r ∷ us)
unfolding resolve
resolve-there dev via hw r l us taken other more = ground (arith, taken, other, more)

resolve-first :
    (dev via : ℕ) (hw : List ℕ) (new : RouteSpec) (front back : List RouteSpec)
    → AllRoutes (λ r. r.flags ≢ 0) front
    → new.flags ≢ 0
    → new.dev ≡ dev
    → new.dst ≡ via
    → (us : List RouteSpec) × (resolve dev via hw (front ++ (new ∷ back)) ≡ some us)
      × Resolved dev via hw front new back us
resolve-first dev via hw new [] back taken used d v =
    (resolved hw new ∷ back, resolve-here dev via hw new back used d v, inl (tt, refl))
resolve-first dev via hw new (r ∷ front) back (taken, rest) used d v =
    elim (Bool-cases (r.dev == dev && (r.dst == via))) [
      | inl here ↦
          let rd : r.dev ≡ dev = ground (arith, here) in
          let rv : r.dst ≡ via = ground (arith, here) in
          (
            resolved hw r ∷ (front ++ (new ∷ back)),
            resolve-here dev via hw r (front ++ (new ∷ back)) taken rd rv,
            inr ([], front, r, refl, rd, rv, tt, refl),
          )
      | inr not_here ↦
          let (us, more, o) = resolve-first dev via hw new front back rest used d v in
          let other : Other dev via r = λ same. absurd (ground (arith, not_here, same.0, same.1)) in
          (
            r ∷ us,
            resolve-there dev via hw r (front ++ (new ∷ back)) us taken not_here more,
            elim o [
              | inl (others, e) ↦ inl ((other, others), ap (λ l. r ∷ l) e)
              | inr (a, b, x, split, xd, xv, others, e) ↦
                  inr
                    (r ∷ a, b, x, ap (λ l. r ∷ l) split, xd, xv, (other, others), ap (λ l. r ∷ l) e)
            ],
          )
    ]

-- net_route_add fills the first free slot.
add_route-filled :
    (addr via dev flags : ℕ) (rs ts : List RouteSpec)
    → add_route addr via dev flags rs ≡ some ts
    → (front back : List RouteSpec) × (q : RouteSpec) × (rs ≡ front ++ (q ∷ back))
      × (q.flags ≡ 0)
      × AllRoutes (λ r. r.flags ≢ 0) front
      × (ts ≡ front ++ (filled addr via dev flags q ∷ back))
unfolding add_route
add_route-filled addr via dev flags [] ts e = absurd (ground arith)
add_route-filled addr via dev flags (r ∷ rs) ts e = elim (ℕ_discrete r.flags 0) [
  | yes empty ↦
      let ts_is : ts ≡ filled addr via dev flags r ∷ rs = ground (arith, e, empty) in
      ([], rs, r, refl, empty, tt, ts_is)
  | no taken ↦ elim (Option-cases (add_route addr via dev flags rs)) [
    | inl nothing ↦ absurd (ground (arith, nothing, taken))
    | inr (l, found) ↦
        let (front, back, q, split, free_slot, used, l_is) =
          add_route-filled addr via dev flags rs l found in
        let ts_is : ts ≡ r ∷ l = ground (arith, e, taken, found) in
        (
          r ∷ front,
          back,
          q,
          ap (λ x. r ∷ x) split,
          free_slot,
          (taken, used),
          ts_is ∙ ap (λ x. r ∷ x) l_is,
        )
  ]
]

-- net_route_add of a route to a subnet, its mask below 256, fills the first free slot and no other.
-- When the address of the gateway is resolved, net_route_resolve gives the first 6 bytes of the
-- hardware address to the first route of that device and gateway and changes no other one: to the
-- added route if no route before it has the same device and gateway, and else to such an earlier one.
pub add_route-resolve :
    (addr via dev flags : ℕ) (hw : List ℕ) (rs ts : List RouteSpec)
    → flags < 256
    → add_route addr via dev flags rs ≡ some ts
    → (front back : List RouteSpec) × (q : RouteSpec) × (rs ≡ front ++ (q ∷ back))
      × (q.flags ≡ 0)
      × AllRoutes (λ r. r.flags ≢ 0) front
      × (ts ≡ front ++ (filled addr via dev flags q ∷ back))
      × (us : List RouteSpec) × (resolve dev via hw ts ≡ some us)
      × Resolved dev via hw front (filled addr via dev flags q) back us
add_route-resolve addr via dev flags hw rs ts lt e =
    let (front, back, q, split, free_slot, used, ts_is) =
      add_route-filled addr via dev flags rs ts e in
    let skip : bit_or flags flg_set ≢ 0 = λ z. absurd (ground (arith, flagged flags lt, z)) in
    let (us, eq, o) =
      resolve-first dev via hw (filled addr via dev flags q) front back used skip refl refl in
    (front, back, q, split, free_slot, used, ts_is, us, ap (resolve dev via hw) ts_is ∙ eq, o)

get_set :
    (xs : List Netdev) (i : ℕ) (d e : Netdev)
    → get_elem? xs i ≡ some d
    → get_elem? (set xs i e) i ≡ some e
get_set [] i d e h = absurd (ground (arith, h))
get_set (x ∷ xs) zero d e h = refl
get_set (x ∷ xs) (suc i) d e h = get_set xs i d e h

awaits : (flags : ℕ) → flags < 256 → has_flag (bit_or flags flg_awaits) flg_awaits ≡ true
awaits flags lt = all_below-at 256 (λ f. has_flag (bit_or f flg_awaits) flg_awaits) flags refl lt

-- A device that asks for an address, its own flags being below 256, waits for an answer; if the
-- device `j` of another system gets the request, it answers, and the asking one resolves its route
-- to that address to the hardware address of `j`.
pub request-reply :
    (i j inaddr src : ℕ) (n m other : Net) (asker d : Netdev)
    → get_elem? n.devices i ≡ some asker
    → asker.flags < 256
    → get_elem? other.devices j ≡ some d
    → request i inaddr src n ≡ some m
    → (ask : Frame) × (answer : Frame) × (m.sent ≡ (i, ask) ∷ n.sent)
      × (handle_packet j ask other ≡ some (send j answer other))
      × (handle_packet i answer m ≡ route_resolve i inaddr d.mac m)
unfolding request handle_packet handle_arp reply send htons
request-reply i j inaddr src n m other asker d a lt e h =
    let ask : Frame = record {
      dst_mac = replicate 6 0xFF;
      src_mac = asker.mac;
      ethertype = htons 0x0806;
      arp = record {
        htype = htons 1;
        ptype = htons 0x0800;
        hlen = 6;
        plen = 4;
        oper = htons 1;
        sha = asker.mac;
        spa = src;
        tha = replicate 6 0;
        tpa = inaddr;
      };
    } in
    let waiting : Netdev = record asker { flags = bit_or asker.flags flg_awaits } in
    let m' : Net = send i ask (record n { devices = set n.devices i waiting }) in
    let done : m' ≡ m = ground (arith, a, h) in
    let there : get_elem? (set n.devices i waiting) i ≡ some waiting =
      get_set n.devices i asker waiting a in
    let up = awaits asker.flags lt in
    subst
      (λ m.
        (ask : Frame) × (answer : Frame) × (m.sent ≡ (i, ask) ∷ n.sent)
        × (handle_packet j ask other ≡ some (send j answer other))
        × (handle_packet i answer m ≡ route_resolve i inaddr d.mac m))
      done (ask, reply d.mac ask.arp, refl, ground (arith, e), ground (arith, there, up))
