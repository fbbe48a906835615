-- ===== src/Proxy/Pool/Choice.antt =====
-- What `filtered` offers: every key once, and only the protocol that is asked for.
use unroxy.Base.{
  ℕ, ◌+◌, ◌≤◌, Bool, true, false, not, Option, none, some, ◌≡◌, refl, ◌∙◌, arith, List, [], ◌∷◌,
  ◌++◌, filter, Bool-cases, inl, inr,
}
use unroxy.Base.Text.{Text, text_eq, text_eq_refl, text_eq_iff}
use unroxy.Proxy.Pool.{
  PoolProxy, Candidate, Rotation, ProxyPool, proxy_pool, Children, no_child, child, Protocol,
  same_protocol, has_key, merge, local_proxies, arrange, filtered, filtered_children, push,
}
use unroxy.Proxy.Pool.Order.{count_if, count-append, arrange-Sorted}

abbrev pub with_key : Text → Candidate → Bool
with_key key c = text_eq c.key key

-- No key stands twice.
unfoldable pub DistinctKeys : List PoolProxy → Type 0
DistinctKeys proxies = (key : Text) → count_if (with_key key) proxies ≤ 1

has_key-count :
    (key : Text) (ready : List Candidate)
    → has_key key ready ≡ false
    → count_if (with_key key) ready ≡ 0
unfolding count_if
has_key-count key [] h = refl
has_key-count key (c ∷ ready) h = ground (arith, h, has_key-count key ready)

count-filter :
    (p q : Candidate → Bool) (ready : List Candidate)
    → count_if p (filter q ready) ≤ count_if p ready
unfolding count_if
count-filter p q [] = omega arith
count-filter p q (c ∷ ready) = elim (Bool-cases (q c)) [
  | inl e ↦ rw e (omega (arith, count-filter p q ready))
  | inr e ↦ rw e (omega (arith, count-filter p q ready))
]

-- A candidate with a new key at the end.
append-DistinctKeys :
    (c : Candidate) (ready : List Candidate)
    → has_key c.key ready ≡ false
    → DistinctKeys ready
    → DistinctKeys (ready ++ (c ∷ []))
unfolding DistinctKeys count_if
append-DistinctKeys c ready new_key d key = elim (Bool-cases (text_eq c.key key)) [
  | inl e ↦
      let same : c.key ≡ key = (text_eq_iff c.key key).0 e in
      let absent : count_if (with_key key) ready ≡ 0 =
        has_key-count key ready (rw (← same) new_key) in
      rw (count-append (with_key key) ready (c ∷ []), e) (omega (arith, absent))
  | inr e ↦ rw (count-append (with_key key) ready (c ∷ []), e) (omega (arith, d key))
]

merge-DistinctKeys :
    (ready candidates : List Candidate) → DistinctKeys ready → DistinctKeys (merge ready candidates)
unfolding merge
merge-DistinctKeys ready [] d = d
merge-DistinctKeys ready (c ∷ more) d = elim (Bool-cases (has_key c.key ready)) [
  | inl e ↦ rw e (merge-DistinctKeys ready more d)
  | inr e ↦ rw e (merge-DistinctKeys (ready ++ (c ∷ [])) more (append-DistinctKeys c ready e d))
]

count-merge :
    (p : Candidate → Bool) (ready candidates : List Candidate)
    → count_if p (merge ready candidates) ≤ count_if p ready + count_if p candidates
unfolding merge count_if
count-merge p ready [] = omega arith
count-merge p ready (c ∷ more) = elim (Bool-cases (has_key c.key ready)) [
  | inl e ↦ rw e (omega (arith, count-merge p ready more))
  | inr e ↦
      rw e (omega (arith, count-merge p (ready ++ (c ∷ [])) more, count-append p ready (c ∷ [])))
]

local-DistinctKeys :
    (protocol : Option Protocol) (proxies : List PoolProxy)
    → DistinctKeys proxies
    → DistinctKeys (local_proxies protocol proxies)
unfolding local_proxies DistinctKeys
local-DistinctKeys none proxies d key = d key
local-DistinctKeys (some wanted) proxies d key =
    omega (arith, d key, count-filter (with_key key) (λ p. same_protocol p.protocol wanted) proxies)

arrange-DistinctKeys :
    (id : ℕ) (rotation : Rotation) (ready : List Candidate)
    → DistinctKeys ready
    → DistinctKeys (arrange id rotation ready).0
unfolding DistinctKeys
arrange-DistinctKeys id rotation ready d key =
    omega (arith, d key, (arrange-Sorted id rotation ready).0 (with_key key))

-- Each pool of the tree has no key twice among its own proxies.
unfoldable mutual
  pub Owns : ProxyPool → Type 0
  Owns (proxy_pool id proxies children) = DistinctKeys proxies × OwnsBelow children

  pub OwnsBelow : Children → Type 0
  OwnsBelow no_child = Unit
  OwnsBelow (child pool children) = Owns pool × OwnsBelow children

mutual
  unfolding filtered Owns

  filtered_pool :
      (protocol : Option Protocol) (pool : ProxyPool) (rotation : Rotation)
      → Owns pool
      → DistinctKeys (filtered protocol pool rotation).0
  filtered_pool protocol (proxy_pool id proxies children) rotation (d, below) =
      let start = local_proxies protocol proxies in
      let out = filtered_children protocol children start rotation in
      arrange-DistinctKeys id out.1 out.0 (
        filtered_below protocol children start rotation below
          (local-DistinctKeys protocol proxies d))

  filtered_below :
      (protocol : Option Protocol) (children : Children) (ready : List Candidate)
      (rotation : Rotation)
      → OwnsBelow children
      → DistinctKeys ready
      → DistinctKeys (filtered_children protocol children ready rotation).0
  filtered_below protocol no_child ready rotation below d = d
  filtered_below protocol (child pool children) ready rotation (own, below) d =
      let (candidates, rotation') = filtered protocol pool rotation in
      filtered_below protocol children (merge ready candidates) rotation' below
        (merge-DistinctKeys ready candidates d)

-- When no pool of the tree has a key twice among its own proxies, filtered offers no key twice,
-- even where pools below share proxies.
pub filtered-DistinctKeys :
    (protocol : Option Protocol) (pool : ProxyPool) (rotation : Rotation)
    → Owns pool
    → DistinctKeys (filtered protocol pool rotation).0
filtered-DistinctKeys protocol pool rotation own = filtered_pool protocol pool rotation own

-- A candidate of another protocol.
abbrev pub strange : Protocol → Candidate → Bool
strange wanted c = not (same_protocol c.protocol wanted)

local-strange :
    (wanted : Protocol) (proxies : List PoolProxy)
    → count_if (strange wanted) (local_proxies (some wanted) proxies) ≡ 0
unfolding local_proxies count_if
local-strange wanted [] = refl
local-strange wanted (p ∷ proxies) = elim (Bool-cases (same_protocol p.protocol wanted)) [
  | inl e ↦ rw (e, e) (omega (arith, local-strange wanted proxies))
  | inr e ↦ rw e (local-strange wanted proxies)
]

mutual
  unfolding filtered

  strange_pool :
      (wanted : Protocol) (pool : ProxyPool) (rotation : Rotation)
      → count_if (strange wanted) (filtered (some wanted) pool rotation).0 ≡ 0
  strange_pool wanted (proxy_pool id proxies children) rotation =
      let start = local_proxies (some wanted) proxies in
      let out = filtered_children (some wanted) children start rotation in
      (arrange-Sorted id out.1 out.0).0 (strange wanted)
      ∙ strange_below wanted children start rotation (local-strange wanted proxies)

  strange_below :
      (wanted : Protocol) (children : Children) (ready : List Candidate) (rotation : Rotation)
      → count_if (strange wanted) ready ≡ 0
      → count_if (strange wanted) (filtered_children (some wanted) children ready rotation).0 ≡ 0
  strange_below wanted no_child ready rotation h = h
  strange_below wanted (child pool children) ready rotation h =
      let (candidates, rotation') = filtered (some wanted) pool rotation in
      strange_below wanted children (merge ready candidates) rotation' (
        omega (
          arith,
          h,
          count-merge (strange wanted) ready candidates,
          strange_pool wanted pool rotation,
        ))

-- Candidates_for a protocol offers no candidate of another one, from no pool of the tree.
pub filtered-protocol :
    (wanted : Protocol) (pool : ProxyPool) (rotation : Rotation)
    → count_if (strange wanted) (filtered (some wanted) pool rotation).0 ≡ 0
filtered-protocol wanted pool rotation = strange_pool wanted pool rotation

has_key-append :
    (key : Text) (p : PoolProxy) (proxies : List PoolProxy)
    → text_eq p.key key ≡ true
    → has_key key (proxies ++ (p ∷ [])) ≡ true
has_key-append key p [] e = rw e refl
has_key-append key p (q ∷ proxies) e = ground (arith, has_key-append key p proxies e)

-- Push keeps the keys of a pool apart, and the key is there afterwards.
pub push-DistinctKeys :
    (p : PoolProxy) (proxies : List PoolProxy)
    → DistinctKeys proxies
    → DistinctKeys (push p proxies) × (has_key p.key (push p proxies) ≡ true)
unfolding push
push-DistinctKeys p proxies d = elim (Bool-cases (has_key p.key proxies)) [
  | inl e ↦ rw e (d, e)
  | inr e ↦
      rw e (append-DistinctKeys p proxies e d, has_key-append p.key p proxies (text_eq_refl p.key))
]
