-- ===== src/Vpn/Supervise.antt =====
-- src/vpn/mod.rs: the pool of each region and the rounds in which accounts join and leave it. These
-- pools have no pools below them: a pool is its proxies. What a proxy's tunnel answers is as it was
-- when the proxy was pushed.
pub mod Joined
use unroxy.Base.{
  ℕ, Bool, true, false, not, ◌&&◌, ◌||◌, Option, none, some, List, [], ◌∷◌, ◌++◌, any, All, filter,
  any-append, is_some, if◌then◌else◌, ◌≡◌, refl, sym, ap, ◌∙◌, arith, Bool-cases, Option-cases, inl,
  inr,
}
use unroxy.Base.Text.{Text, codes, text_eq, text_eq_iff, text_eq_refl}
use unroxy.Proxy.Pool.{Tunnel, PoolProxy, vpn, has_key, push, remove}
use unroxy.Vpn.Provider.{Account, bridge_ready, active_tunnels}

-- The key of an account in its pool.
abbrev pub account_key : Account → Text
account_key account = codes "openvpn://" ++ account.ip

-- `proxy_for`
unfoldable pub proxy_for : Account → PoolProxy
unfolding active_tunnels bridge_ready
proxy_for account = record {
  key = account_key account;
  tunnel = record {
    target_pool = 1;
    active_tunnels = active_tunnels account;
    is_ready = bridge_ready account;
  };
  priority = 0;
  protocol = vpn;
}

-- The proxies of the pool of each region that has one.
abbrev pub Pools : Type 0
Pools = Text → Option (List PoolProxy)

abbrev pub set_pool : Text → List PoolProxy → Pools → Pools
set_pool region proxies pools other = if text_eq other region then some proxies else pools other

-- The proxies of the region's pool, which is a new one if there is none.
abbrev known_proxies : Option (List PoolProxy) → List PoolProxy
known_proxies none = []
known_proxies (some proxies) = proxies

-- One account of the loop of `attach`: a pool for its region, which it joins when it is ready.
unfoldable pub attach_account : Account → Pools → Pools
unfolding proxy_for bridge_ready push
attach_account account pools =
    let proxies = known_proxies (pools account.region) in
    set_pool account.region
      (if bridge_ready account then push (proxy_for account) proxies else proxies) pools

-- `Vpn::attach`, up to the regions that are made of the pools.
unfoldable pub attach : List Account → Pools → Pools
unfolding attach_account
attach [] pools = pools
attach (account ∷ accounts) pools = attach accounts (attach_account account pools)

-- A pool by whether an account is usable and present in it.
unfoldable pub join_by : Bool → Bool → Account → List PoolProxy → List PoolProxy
unfolding proxy_for push remove
join_by true false account proxies = push (proxy_for account) proxies
join_by false true account proxies = remove (account_key account) proxies
join_by usable present account proxies = proxies

unfoldable pub joined : Account → List PoolProxy → List PoolProxy
unfolding join_by bridge_ready
joined account proxies =
    join_by (bridge_ready account) (has_key (account_key account) proxies) account proxies

-- The pools after an account was looked at, by the pool of its region.
unfoldable pub supervise_account : Account → Option (List PoolProxy) → Pools → Pools
unfolding joined
supervise_account account none pools = pools
supervise_account account (some proxies) pools =
    set_pool account.region (joined account proxies) pools

-- A round of `supervise`
unfoldable pub supervise : List Account → Pools → Pools
unfolding supervise_account
supervise [] pools = pools
supervise (account ∷ accounts) pools =
    supervise accounts (supervise_account account (pools account.region) pools)

-- Whether a key is in the pool of a region.
abbrev pub in_pool : Text → Option (List PoolProxy) → Bool
in_pool key none = false
in_pool key (some proxies) = has_key key proxies
