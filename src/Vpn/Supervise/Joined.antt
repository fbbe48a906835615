-- ===== src/Vpn/Supervise/Joined.antt =====
-- The rounds of the supervisor keep just the ready accounts in the pools.
use unroxy.Base.{
  Bool, true, false, ◌||◌, Option, none, some, List, [], ◌∷◌, All, any-append, is_some, ◌≡◌, refl,
  sym, ap, ◌∙◌, arith, Bool-cases, inl, inr,
}
use unroxy.Base.Text.{Text, text_eq, text_eq_iff, text_eq_refl}
use unroxy.Proxy.Pool.{PoolProxy, has_key, push, remove}
use unroxy.Vpn.Provider.{Account, bridge_ready}
use unroxy.Vpn.Supervise.{
  Pools, account_key, proxy_for, join_by, joined, supervise_account, supervise, in_pool,
}

has_key-push : (p : PoolProxy) (proxies : List PoolProxy) → has_key p.key (push p proxies) ≡ true
unfolding push
has_key-push p proxies = elim (Bool-cases (has_key p.key proxies)) [
  | inl h ↦ rw (h) h
  | inr h ↦ rw (h) (
      any-append (λ known. text_eq known.key p.key) proxies (p ∷ [])
      ∙ rw (h, text_eq_refl p.key) refl)
]

has_key-push_other :
    (p : PoolProxy) (other : Text) (proxies : List PoolProxy)
    → text_eq p.key other ≡ false
    → has_key other (push p proxies) ≡ has_key other proxies
unfolding push
has_key-push_other p other proxies e = elim (Bool-cases (has_key p.key proxies)) [
  | inl h ↦ rw (h) refl
  | inr h ↦ rw (h) (
      any-append (λ known. text_eq known.key other) proxies (p ∷ [])
      ∙ rw (e) (or_false (has_key other proxies)))
]
  where
    or_false : (b : Bool) → (b || (false || false)) ≡ b
    or_false true = refl
    or_false false = refl

has_key-remove : (key : Text) (proxies : List PoolProxy) → has_key key (remove key proxies) ≡ false
unfolding remove
has_key-remove key [] = refl
has_key-remove key (p ∷ proxies) = elim (Bool-cases (text_eq p.key key)) [
  | inl e ↦ rw (e) (has_key-remove key proxies)
  | inr e ↦ rw (e, e) (has_key-remove key proxies)
]

apart : (s t u : Text) → text_eq s t ≡ true → text_eq t u ≡ false → text_eq s u ≡ false
apart s t u e h = ap (λ x. text_eq x u) ((text_eq_iff s t).0 e) ∙ h

has_key-remove_other :
    (key other : Text) (proxies : List PoolProxy)
    → text_eq key other ≡ false
    → has_key other (remove key proxies) ≡ has_key other proxies
unfolding remove
has_key-remove_other key other [] h = refl
has_key-remove_other key other (p ∷ proxies) h = elim (Bool-cases (text_eq p.key key)) [
  | inl e ↦ rw (e, apart p.key key other e h) (has_key-remove_other key other proxies h)
  | inr e ↦ rw (e) (ap (λ b. text_eq p.key other || b) (has_key-remove_other key other proxies h))
]

-- An account is in its pool after it was looked at just when it is ready.
has_key-join_by :
    (usable present : Bool) (account : Account) (proxies : List PoolProxy)
    → has_key (account_key account) proxies ≡ present
    → has_key (account_key account) (join_by usable present account proxies) ≡ usable
unfolding join_by proxy_for
has_key-join_by true true account proxies h = h
has_key-join_by true false account proxies h = has_key-push (proxy_for account) proxies
has_key-join_by false true account proxies h = has_key-remove (account_key account) proxies
has_key-join_by false false account proxies h = h

has_key-join_by_other :
    (usable present : Bool) (account : Account) (key : Text) (proxies : List PoolProxy)
    → text_eq (account_key account) key ≡ false
    → has_key key (join_by usable present account proxies) ≡ has_key key proxies
unfolding join_by proxy_for
has_key-join_by_other true true account key proxies h = refl
has_key-join_by_other true false account key proxies h =
    has_key-push_other (proxy_for account) key proxies h
has_key-join_by_other false true account key proxies h =
    has_key-remove_other (account_key account) key proxies h
has_key-join_by_other false false account key proxies h = refl

-- Another account's key is in its pool, or not, as before.
supervise_account_other :
    (account : Account) (slot : Option (List PoolProxy)) (pools : Pools) (key region : Text)
    → pools account.region ≡ slot
    → text_eq (account_key account) key ≡ false
    → in_pool key (supervise_account account slot pools region) ≡ in_pool key (pools region)
unfolding supervise_account joined
supervise_account_other account none pools key region e h = refl
supervise_account_other account (some proxies) pools key region e h =
    elim (Bool-cases (text_eq region account.region)) [
      | inr other ↦ rw (other) refl
      | inl same ↦ rw (same) (
          has_key-join_by_other (bridge_ready account) (has_key (account_key account) proxies)
            account key proxies h
          ∙ ap (in_pool key) (sym e)
          ∙ ap (λ r. in_pool key (pools r)) (sym ((text_eq_iff region account.region).0 same)))
    ]

supervise_account_there :
    (account other : Account) (slot : Option (List PoolProxy)) (pools : Pools)
    → is_some (pools other.region) ≡ true
    → is_some (supervise_account account slot pools other.region) ≡ true
unfolding supervise_account
supervise_account_there account other none pools h = h
supervise_account_there account other (some proxies) pools h =
    elim (Bool-cases (text_eq other.region account.region)) [
      | inl same ↦ rw (same) refl
      | inr apart_from ↦ rw (apart_from) h
    ]

supervise_account_self :
    (account : Account) (slot : Option (List PoolProxy)) (pools : Pools)
    → is_some slot ≡ true
    → in_pool (account_key account) (supervise_account account slot pools account.region)
      ≡ bridge_ready account
unfolding supervise_account joined
supervise_account_self account none pools h = ground arith
supervise_account_self account (some proxies) pools h = rw (text_eq_refl account.region) (
    has_key-join_by (bridge_ready account) (has_key (account_key account) proxies) account proxies
      refl)

-- Accounts of which no two have the same address.
abbrev pub DistinctIps : List Account → Type 0
DistinctIps [] = Unit
DistinctIps (a ∷ accounts) =
    All (λ (b : Account). text_eq b.ip a.ip ≡ false) accounts × DistinctIps accounts

supervise_other :
    (accounts : List Account) (pools : Pools) (account : Account)
    → All (λ (b : Account). text_eq b.ip account.ip ≡ false) accounts
    → in_pool (account_key account) (supervise accounts pools account.region)
      ≡ in_pool (account_key account) (pools account.region)
unfolding supervise text_eq
supervise_other [] pools account h = refl
supervise_other (b ∷ accounts) pools account (h, hs) =
    supervise_other accounts (supervise_account b (pools b.region) pools) account hs
    ∙ supervise_account_other b (pools b.region) pools (account_key account) account.region refl h

-- After a round of the supervisor over accounts with different addresses, each of which has a pool
-- for its region, every account is in that pool if and only if it is ready.
pub supervise-in_pool :
    (accounts : List Account) (pools : Pools)
    → DistinctIps accounts
    → All (λ (a : Account). is_some (pools a.region) ≡ true) accounts
    → All
        (λ (a : Account).
          in_pool (account_key a) (supervise accounts pools a.region) ≡ bridge_ready a)
        accounts
unfolding supervise
supervise-in_pool [] pools d h = tt
supervise-in_pool (a ∷ accounts) pools (apart_from, d) (h, hs) =
    let pools' = supervise_account a (pools a.region) pools in
    (
      supervise_other accounts pools' a apart_from
          ∙ supervise_account_self a (pools a.region) pools h,
      supervise-in_pool accounts pools' d (still accounts hs),
    )
  where
    still :
        (rest : List Account)
        → All (λ (b : Account). is_some (pools b.region) ≡ true) rest
        → All
            (λ (b : Account). is_some (supervise_account a (pools a.region) pools b.region) ≡ true)
            rest
    still [] hs = tt
    still (b ∷ rest) (h, hs) = (supervise_account_there a b (pools a.region) pools h, still rest hs)
