-- ===== src/Proxy/Server/Regions/Routes.antt =====
-- src/proxy/server.rs: the forward and the pool for a request, and the counts of each region.
use unroxy.Base.{
  ℕ, zero, suc, Bool, true, false, Option, none, some, List, [], ◌∷◌, map, if◌then◌else◌, ◌≡◌, refl,
  arith, Bool-cases, inl, inr,
}
use unroxy.Base.Text.{Text}
use unroxy.Proxy.Pool.{
  Protocol, ssh, vpn, same_protocol, ProxyPool, proxy_pool, Children, no_child, child, count,
  tunnel_count, usable_count,
}
use unroxy.Proxy.Server.Regions.{
  Heap, Region, Proxy, new_pool, region_pool, region_forward, protocols, route_of, region_named,
  set_route, set_protocol_route,
}

abbrev pub second_of : Option (Protocol × ℕ) → Option ℕ
second_of none = none
second_of (some (p, target)) = some target

-- The forward of a protocol, or the default without a protocol.
unfoldable pub shared_forward : Option Protocol → Proxy → Option ℕ
shared_forward (some p) proxy = second_of (route_of p proxy.protocol_forwards)
shared_forward none proxy = proxy.default_forward

-- `Proxy::forward_for`
unfoldable pub forward_for : Text → Option Protocol → Proxy → Option ℕ
unfolding region_named region_forward shared_forward
forward_for username protocol proxy = elim (region_named username proxy.regions) [
  | none ↦ shared_forward protocol proxy
  | some region ↦ elim (region_forward protocol region) [
    | some forward ↦ some forward
    | none ↦ shared_forward protocol proxy
  ]
]

-- The pool of a protocol, which is a new one where none is known, or the default.
unfoldable pub shared_pool : Option Protocol → Proxy → Heap → ℕ × Heap
unfolding new_pool
shared_pool (some p) proxy heap = elim (route_of p proxy.protocol_pools) [
  | some (q, pool) ↦ (pool, heap)
  | none ↦ new_pool heap
]
shared_pool none proxy heap = (proxy.default_pool, heap)

-- `Proxy::pool_for`
unfoldable pub pool_for : Text → Option Protocol → Proxy → Heap → ℕ × Heap
unfolding region_named region_pool shared_pool
pool_for username protocol proxy heap = elim (region_named username proxy.regions) [
  | some region ↦ region_pool protocol region heap
  | none ↦ shared_pool protocol proxy heap
]

unfoldable pub children_of : List ProxyPool → Children
children_of [] = no_child
children_of (pool ∷ pools) = child pool (children_of pools)

-- The tree of pools at an address. The fuel is the count of addresses: a chain of pools, each below
-- the one before it, has no pool twice and is no longer than that.
unfoldable pub pool_at : ℕ → Heap → ℕ → ProxyPool
unfolding children_of
pool_at zero heap id = proxy_pool id (heap.proxies id) no_child
pool_at (suc n) heap id =
    proxy_pool id (heap.proxies id) (children_of (map (pool_at n heap) (heap.children id)))

pub record PoolStat : Type 0 where
  pub name : Text
  pub protocols : List Protocol
  pub proxies : ℕ
  pub tunnels : ℕ
  pub usable : ℕ

abbrev stat_of : Heap → Region → PoolStat
stat_of heap region =
    let pool = pool_at heap.next heap region.merged in
    record {
      name = region.name;
      protocols = protocols region;
      proxies = count pool;
      tunnels = tunnel_count pool;
      usable = usable_count pool;
    }

-- `Proxy::stats`
unfoldable pub stats : Proxy → Heap → List PoolStat
unfolding count tunnel_count usable_count pool_at
stats proxy heap = map (stat_of heap) proxy.regions

same_protocol_refl : (p : Protocol) → same_protocol p p ≡ true
same_protocol_refl ssh = refl
same_protocol_refl vpn = refl

route_of-set_route :
    (p : Protocol) (target : ℕ) (routes : List (Protocol × ℕ))
    → route_of p (set_route p target routes) ≡ some (p, target)
unfolding set_route
route_of-set_route p target [] = rw (same_protocol_refl p) refl
route_of-set_route p target ((q, other) ∷ routes) = elim (Bool-cases (same_protocol q p)) [
  | inl e ↦ rw (e) (route_of-set_route p target routes)
  | inr e ↦ rw (e, e) (route_of-set_route p target routes)
]

route_of-set_route_other :
    (p q : Protocol) (target : ℕ) (routes : List (Protocol × ℕ))
    → same_protocol p q ≡ false
    → route_of q (set_route p target routes) ≡ route_of q routes
unfolding set_route
route_of-set_route_other p q target [] h = rw (h) refl
route_of-set_route_other p q target ((r, other) ∷ routes) h =
    elim (Bool-cases (same_protocol r p)) [
      | inl e ↦ rw (e, same_then p q r e h) (route_of-set_route_other p q target routes h)
      | inr e ↦ elim (Bool-cases (same_protocol r q)) [
        | inl f ↦ rw (e, f) refl
        | inr f ↦ rw (e, f) (route_of-set_route_other p q target routes h)
      ]
    ]
  where
    same_then :
        (p q r : Protocol)
        → same_protocol r p ≡ true
        → same_protocol p q ≡ false
        → same_protocol r q ≡ false
    same_then ssh ssh r e h = ground arith
    same_then ssh vpn ssh e h = refl
    same_then ssh vpn vpn e h = ground arith
    same_then vpn ssh vpn e h = refl
    same_then vpn ssh ssh e h = ground arith
    same_then vpn vpn r e h = ground arith

if_second :
    (b : Bool) (p : Protocol) (target : ℕ) (o : Option (Protocol × ℕ))
    → second_of (if b then some (p, target) else o) ≡ (if b then some target else second_of o)
if_second true p target o = refl
if_second false p target o = refl

route_of-set_route_any :
    (p q : Protocol) (target : ℕ) (routes : List (Protocol × ℕ))
    → route_of q (set_route p target routes)
      ≡ (if same_protocol p q then some (p, target) else route_of q routes)
route_of-set_route_any ssh ssh target routes = route_of-set_route ssh target routes
route_of-set_route_any vpn vpn target routes = route_of-set_route vpn target routes
route_of-set_route_any ssh vpn target routes = route_of-set_route_other ssh vpn target routes refl
route_of-set_route_any vpn ssh target routes = route_of-set_route_other vpn ssh target routes refl

-- For a name that no region has, the forward and the pool of a protocol are those that
-- `set_protocol_route` was last given for it, without a change of the heap, and setting the route of
-- one protocol leaves the other's as it was.
pub forward_for-set_protocol_route :
    (username : Text) (p q : Protocol) (pool forward : ℕ) (proxy : Proxy) (heap : Heap)
    → region_named username proxy.regions ≡ none
    → (forward_for username (some q) (set_protocol_route p pool forward proxy)
        ≡ (if same_protocol p q then some forward else forward_for username (some q) proxy))
      × (pool_for username (some q) (set_protocol_route p pool forward proxy) heap
          ≡ (if same_protocol p q then (pool, heap) else pool_for username (some q) proxy heap))
unfolding forward_for pool_for set_protocol_route
forward_for-set_protocol_route username p q pool forward proxy heap h =
    elim (Bool-cases (same_protocol p q)) [
      | inl e ↦ (
        ground (arith, h, e, route_of-set_route_any p q forward proxy.protocol_forwards),
        ground (arith, h, e, route_of-set_route_any p q pool proxy.protocol_pools),
      )
      | inr e ↦ (
        ground (arith, h, e, route_of-set_route_any p q forward proxy.protocol_forwards),
        ground (arith, h, e, route_of-set_route_any p q pool proxy.protocol_pools),
      )
    ]
