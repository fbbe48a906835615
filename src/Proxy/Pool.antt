-- ===== src/Proxy/Pool.antt =====
-- src/proxy/pool.rs: pools of tunnels, each with pools below it. A call works on what the pools hold
-- when it takes their locks: the tree of pools with what the tunnels answer at that time. The
-- counters of the rotation stand apart, one for each pool, since pools are shared between parents.
pub mod Order
pub mod Choice
use unroxy.Base.{
  ℕ, zero, suc, ◌+◌, ◌%◌, ◌^◌, Bool, true, false, not, ◌&&◌, ◌||◌, Option, none, some, List, [],
  ◌∷◌, ◌++◌, length, take, drop, any, filter, find, leb, ltb, ◌==◌, if◌then◌else◌,
}
use unroxy.Base.Text.{Text, text_eq, eq_ignore_ascii_case, codes}

pub data Protocol : Type 0 where
  ssh vpn : Protocol

abbrev pub same_protocol : Protocol → Protocol → Bool
same_protocol ssh ssh = true
same_protocol vpn vpn = true
same_protocol p q = false

unfoldable pub parse_protocol : Text → Option Protocol
parse_protocol value =
    if eq_ignore_ascii_case value (codes "ssh")
    then some ssh
    else if eq_ignore_ascii_case value (codes "vpn")
    then some vpn
    else none

unfoldable pub protocol_name : Protocol → Text
protocol_name ssh = codes "ssh"
protocol_name vpn = codes "vpn"

-- What a tunnel answers.
pub record Tunnel : Type 0 where
  pub target_pool : ℕ
  pub active_tunnels : ℕ
  pub is_ready : Bool

-- `PoolProxy`, and `Candidate`, which has the same fields.
pub record PoolProxy : Type 0 where
  pub key : Text
  pub tunnel : Tunnel
  pub priority : ℕ
  pub protocol : Protocol

abbrev pub Candidate : Type 0
Candidate = PoolProxy

-- A pool with the number that stands for its address, and its children.
mutual
  pub data ProxyPool : Type 0 where
    proxy_pool : ℕ → List PoolProxy → Children → ProxyPool

  pub data Children : Type 0 where
    no_child : Children
    child : ProxyPool → Children → Children

-- The counters, by pool.
abbrev pub Rotation : Type 0
Rotation = ℕ → ℕ

-- `fetch_add(1)`, whose count wraps.
abbrev pub fetch_add : Rotation → ℕ → ℕ × Rotation
fetch_add rotation id =
    (rotation id, λ i. if i == id then (rotation id + 1) % 2 ^ 64 else rotation i)

abbrev pub has_key : Text → List PoolProxy → Bool
has_key key proxies = any (λ known. text_eq known.key key) proxies

-- The loop that takes over candidates whose key is not there yet.
unfoldable pub merge : List Candidate → List Candidate → List Candidate
merge ready [] = ready
merge ready (candidate ∷ more) =
    if has_key candidate.key ready then merge ready more else merge (ready ++ (candidate ∷ [])) more

-- `sort_by_key` on the priority, which is stable.
unfoldable pub insert : Candidate → List Candidate → List Candidate
insert c [] = c ∷ []
insert c (d ∷ ready) = if ltb d.priority c.priority then d ∷ insert c ready else c ∷ (d ∷ ready)

unfoldable pub sort : List Candidate → List Candidate
unfolding insert
sort [] = []
sort (c ∷ ready) = insert c (sort ready)

unfoldable pub rotate_left : ℕ → List Candidate → List Candidate
rotate_left offset ready = drop offset ready ++ take offset ready

-- `local`
unfoldable pub local_proxies : Option Protocol → List PoolProxy → List Candidate
local_proxies none proxies = proxies
local_proxies (some wanted) proxies = filter (λ p. same_protocol p.protocol wanted) proxies

-- The end of `filtered`: by priority, then turned by the counter of the pool.
unfoldable pub arrange : ℕ → Rotation → List Candidate → List Candidate × Rotation
unfolding sort rotate_left
arrange id rotation ready =
    let sorted = sort ready in
    let (count, rotation') = fetch_add rotation id in
    if ltb 1 (length sorted)
    then (rotate_left (count % length sorted) sorted, rotation')
    else (sorted, rotation)

unfoldable mutual
  unfolding arrange merge local_proxies

  -- `filtered`; `candidates` and `candidates_for` give its two uses.
  pub filtered : Option Protocol → ProxyPool → Rotation → List Candidate × Rotation
  filtered protocol (proxy_pool id proxies children) rotation =
      let (ready, rotation') =
        filtered_children protocol children (local_proxies protocol proxies) rotation in
      arrange id rotation' ready

  pub filtered_children :
      Option Protocol → Children → List Candidate → Rotation → List Candidate × Rotation
  filtered_children protocol no_child ready rotation = (ready, rotation)
  filtered_children protocol (child pool children) ready rotation =
      let (candidates, rotation') = filtered protocol pool rotation in
      filtered_children protocol children (merge ready candidates) rotation'

unfoldable mutual
  unfolding merge

  -- `all`
  pub all_proxies : ProxyPool → List PoolProxy
  all_proxies (proxy_pool id proxies children) = all_children children proxies

  pub all_children : Children → List PoolProxy → List PoolProxy
  all_children no_child proxies = proxies
  all_children (child pool children) proxies =
      all_children children (merge proxies (all_proxies pool))

unfoldable pub contains : Text → ProxyPool → Bool
unfolding all_proxies
contains key pool = has_key key (all_proxies pool)

unfoldable pub count : ProxyPool → ℕ
unfolding all_proxies
count pool = length (all_proxies pool)

unfoldable pub sum_of : (PoolProxy → ℕ) → List PoolProxy → ℕ
sum_of f [] = 0
sum_of f (p ∷ proxies) = f p + sum_of f proxies

unfoldable pub tunnel_count : ProxyPool → ℕ
unfolding all_proxies sum_of
tunnel_count pool = sum_of (λ p. p.tunnel.target_pool) (all_proxies pool)

unfoldable pub usable_count : ProxyPool → ℕ
unfolding all_proxies sum_of
usable_count pool = sum_of (λ p. p.tunnel.active_tunnels) (all_proxies pool)

-- `push` and `remove`, on the proxies of a pool.
unfoldable pub push : PoolProxy → List PoolProxy → List PoolProxy
push proxy proxies = if has_key proxy.key proxies then proxies else proxies ++ (proxy ∷ [])

unfoldable pub remove : Text → List PoolProxy → List PoolProxy
remove key proxies = filter (λ p. not (text_eq p.key key)) proxies

unfoldable pub is_child : ℕ → Children → Bool
is_child id no_child = false
is_child id (child (proxy_pool known proxies below) children) =
    (known == id) || is_child id children

unfoldable pub push_child : ProxyPool → Children → Children
push_child pool no_child = child pool no_child
push_child pool (child first children) = child first (push_child pool children)

-- `add_child`: `Arc::ptr_eq` compares addresses.
unfoldable pub add_child : ProxyPool → Children → Children
unfolding is_child push_child
add_child (proxy_pool id proxies below) children =
    if is_child id children then children else push_child (proxy_pool id proxies below) children

-- One round of `select`: `none` is the end without a candidate, and `some none` another wait.
unfoldable pub select_once :
    Option Protocol → ProxyPool → Rotation → Option (Option Candidate) × Rotation
unfolding filtered
select_once protocol pool rotation =
    let (candidates, rotation') = filtered protocol pool rotation in
    if length candidates == 0
    then (none, rotation')
    else (some (find (λ c. c.tunnel.is_ready) candidates), rotation')
