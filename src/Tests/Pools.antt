-- ===== src/Tests/Pools.antt =====
-- The pools at concrete inputs.
use unroxy.Base.{ℕ, Bool, true, none, ◌≡◌, arith, List, [], ◌∷◌, ◌++◌}
use unroxy.Base.Text.{Text, codes}
use unroxy.Proxy.Pool.{
  Protocol, ssh, vpn, PoolProxy, ProxyPool, proxy_pool, no_child, child, Candidate, Rotation,
  filtered, arrange,
}
use unroxy.Proxy.Pool.Order.{count_if, Sorted, arrange-Sorted}
use unroxy.Proxy.Pool.Choice.{DistinctKeys, Owns, filtered-DistinctKeys}

abbrev proxy : Text → ℕ → Protocol → PoolProxy
proxy key priority protocol = record {
  key = key;
  tunnel = record { target_pool = 1; active_tunnels = 1; is_ready = true };
  priority = priority;
  protocol = protocol;
}

abbrev ssh_proxy : PoolProxy
ssh_proxy = proxy (codes "a") 1 ssh

abbrev vpn_proxy : PoolProxy
vpn_proxy = proxy (codes "b") 0 vpn

single-DistinctKeys : (p : PoolProxy) → DistinctKeys (p ∷ [])
unfolding DistinctKeys
single-DistinctKeys p key = unfold count_if in ground arith

-- A pool of one proxy over another that holds the same one.
abbrev pools : ProxyPool
pools = proxy_pool 0 (ssh_proxy ∷ []) (child (proxy_pool 1 (ssh_proxy ∷ []) no_child) no_child)

abbrev first_turn : Rotation
first_turn i = 1

pools-Owns : Owns pools
pools-Owns =
    unfold Owns in (single-DistinctKeys ssh_proxy, ((single-DistinctKeys ssh_proxy, tt), tt))

filtered-DistinctKeys_example : DistinctKeys (filtered none pools first_turn).0
filtered-DistinctKeys_example = filtered-DistinctKeys none pools first_turn pools-Owns

abbrev both : List Candidate
both = ssh_proxy ∷ (vpn_proxy ∷ [])

arrange-Sorted_example :
    ((p : Candidate → Bool) → count_if p (arrange 0 first_turn both).0 ≡ count_if p both)
    × ((front : List Candidate) × (back : List Candidate) × ((arrange 0 first_turn both).0
          ≡ back ++ front)
        × Sorted 0 (front ++ back))
arrange-Sorted_example = arrange-Sorted 0 first_turn both
