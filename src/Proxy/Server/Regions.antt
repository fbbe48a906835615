-- ===== src/Proxy/Server/Regions.antt =====
-- src/proxy/server.rs: the regions and the routes of the proxy. Pools are shared: a pool is a number,
-- its address, and what the pools hold is the heap. A forward is a number as well. Nothing but the
-- proxy holds a region that was added to it, so that a region is a value in its list.
pub mod Routes
pub mod Named
pub mod Variants
pub mod Merge
use unroxy.Base.{
  ℕ, zero, suc, ◌+◌, Bool, true, false, not, ◌&&◌, ◌||◌, Option, none, some, List, [], ◌∷◌, ◌++◌,
  map, any, filter, find, ◌==◌, is_some, if◌then◌else◌,
}
use unroxy.Base.Text.{Text, is_empty, eq_ignore_ascii_case}
use unroxy.Proxy.Pool.{
  Protocol, ssh, same_protocol, PoolProxy, ProxyPool, proxy_pool, Children, no_child, child, count,
  tunnel_count, usable_count,
}

-- What the pools hold, by their addresses, and the next address.
pub record Heap : Type 0 where
  pub next : ℕ
  pub proxies : ℕ → List PoolProxy
  pub children : ℕ → List ℕ

-- `ProxyPool::new(Vec::new())`
unfoldable pub new_pool : Heap → ℕ × Heap
new_pool heap = (
  heap.next,
  record {
    next = suc heap.next;
    proxies = λ i. if i == heap.next then [] else heap.proxies i;
    children = λ i. if i == heap.next then [] else heap.children i;
  },
)

-- `ProxyPool::add_child` on the heap
unfoldable pub add_child_at : ℕ → ℕ → Heap → Heap
add_child_at parent pool heap =
    if any (λ known. known == pool) (heap.children parent) then heap else record heap {
      children = λ i. if i == parent then heap.children parent ++ (pool ∷ []) else heap.children i;
    }

pub record Variant : Type 0 where
  pub protocol : Protocol
  pub pool : ℕ
  pub forward : Option ℕ

pub record Region : Type 0 where
  pub name : Text
  pub username : Text
  pub variants : List Variant
  pub merged : ℕ

-- `Region::new`
unfoldable pub new_region : Text → Text → Heap → Region × Heap
unfolding new_pool
new_region name username heap =
    let (merged, heap') = new_pool heap in
    (record { name = name; username = username; variants = []; merged = merged }, heap')

abbrev pub variant_of : Protocol → List Variant → Option Variant
variant_of wanted variants = find (λ v. same_protocol v.protocol wanted) variants

-- A forward for a variant that has none.
abbrev pub fill_forward : Option ℕ → Variant → Variant
fill_forward forward existing =
    if is_some existing.forward then existing else record existing { forward = forward }

-- The variants of `Region::add`: the first of the protocol keeps its pool.
unfoldable pub add_variant : Protocol → ℕ → Option ℕ → List Variant → List Variant
add_variant protocol pool forward [] =
    record { protocol = protocol; pool = pool; forward = forward } ∷ []
add_variant protocol pool forward (v ∷ variants) =
    if same_protocol v.protocol protocol
    then fill_forward forward v ∷ variants
    else v ∷ add_variant protocol pool forward variants

-- `Region::add`
unfoldable pub add : Protocol → ℕ → Option ℕ → Region → Heap → Region × Heap
unfolding add_variant add_child_at
add protocol pool forward region heap = (
  record region { variants = add_variant protocol pool forward region.variants },
  add_child_at region.merged pool heap,
)

-- `Region::pool`
unfoldable pub region_pool : Option Protocol → Region → Heap → ℕ × Heap
unfolding new_pool
region_pool none region heap = (region.merged, heap)
region_pool (some wanted) region heap = elim (variant_of wanted region.variants) [
  | some v ↦ (v.pool, heap)
  | none ↦ new_pool heap
]

abbrev pub forward_of : Option Variant → Option ℕ
forward_of none = none
forward_of (some v) = v.forward

-- `variants.first()`
abbrev pub first : List Variant → Option Variant
first [] = none
first (v ∷ variants) = some v

-- `Region::forward`
unfoldable pub region_forward : Option Protocol → Region → Option ℕ
region_forward (some wanted) region = forward_of (variant_of wanted region.variants)
region_forward none region = elim (variant_of ssh region.variants) [
  | some v ↦ v.forward
  | none ↦ forward_of (first region.variants)
]

-- `Region::protocols`
abbrev pub protocols : Region → List Protocol
protocols region = map (λ (v : Variant). v.protocol) region.variants

pub record Proxy : Type 0 where
  pub default_pool : ℕ
  pub default_forward : Option ℕ
  pub protocol_pools : List (Protocol × ℕ)
  pub protocol_forwards : List (Protocol × ℕ)
  pub regions : List Region

-- `Proxy::new`
unfoldable pub new : ℕ → Option ℕ → Proxy
new default_pool default_forward = record {
  default_pool = default_pool;
  default_forward = default_forward;
  protocol_pools = [];
  protocol_forwards = [];
  regions = [];
}

-- The entry of a protocol, in place of those it has.
unfoldable pub set_route : Protocol → ℕ → List (Protocol × ℕ) → List (Protocol × ℕ)
set_route protocol target routes =
    filter (λ (r : Protocol × ℕ). not (same_protocol r.0 protocol)) routes
    ++ ((protocol, target) ∷ [])

abbrev pub route_of : Protocol → List (Protocol × ℕ) → Option (Protocol × ℕ)
route_of protocol routes = find (λ (r : Protocol × ℕ). same_protocol r.0 protocol) routes

-- `Proxy::set_protocol_route`
unfoldable pub set_protocol_route : Protocol → ℕ → ℕ → Proxy → Proxy
unfolding set_route
set_protocol_route protocol pool forward proxy = record proxy {
  protocol_pools = set_route protocol pool proxy.protocol_pools;
  protocol_forwards = set_route protocol forward proxy.protocol_forwards;
}

-- The loop that adds the variants of a region to the one that is there.
unfoldable pub add_variants : List Protocol → Region → Region → Heap → Region × Heap
unfolding add region_pool region_forward
add_variants [] region existing heap = (existing, heap)
add_variants (p ∷ wanted) region existing heap =
    let (pool, heap') = region_pool (some p) region heap in
    let (existing', heap'') = add p pool (region_forward (some p) region) existing heap' in
    add_variants wanted region existing' heap''

-- The regions with one more, or with the first of its name taking over its variants.
unfoldable pub add_to : List Region → Region → Heap → List Region × Heap
unfolding add_variants eq_ignore_ascii_case
add_to [] region heap = (region ∷ [], heap)
add_to (current ∷ regions) region heap =
    let (merged, heap') = add_variants (protocols region) region current heap in
    let (rest, heap'') = add_to regions region heap in
    if eq_ignore_ascii_case current.username region.username
    then (merged ∷ regions, heap')
    else (current ∷ rest, heap'')

-- `Proxy::add_region`
unfoldable pub add_region : Region → Proxy → Heap → Proxy × Heap
unfolding add_to
add_region region proxy heap =
    let (regions, heap') = add_to proxy.regions region heap in
    (record proxy { regions = regions }, heap')

-- `Proxy::region`
unfoldable pub region_named : Text → List Region → Option Region
unfolding eq_ignore_ascii_case
region_named username regions =
    if is_empty username then none else find (λ r. eq_ignore_ascii_case r.username username) regions
