-- ===== src/Tests/Upstream.antt =====
-- A request through a pool of two tunnels, of which the first one fails.
use unroxy.Base.{
  ℕ, ◌≤◌, Bool, true, false, Option, none, some, List, [], ◌∷◌, ◌⊎◌, inl, inr, length, ◌==◌,
  if◌then◌else◌, ◌≡◌, refl,
}
use unroxy.Base.Text.{Text, codes}
use unroxy.Proxy.Pool.{ssh, PoolProxy, ProxyPool, proxy_pool, no_child}
use unroxy.Proxy.Upstream.{Wreq, retryable, request}
use unroxy.Proxy.Upstream.Sent.{FirstOnly, sends_allowed, request-sent}

abbrev wreq : Wreq
wreq = record {
  Client = Text;
  Body = Text;
  Response = Text;
  empty = [];
  generation = λ c. 0;
  proxy_url = λ c. some c.key;
  build = λ url. inr url;
  send = λ before client body. if before == 0 then inl (codes "refused") else inr client;
}

abbrev tunnel_at : Text → PoolProxy
tunnel_at key = record {
  key = key;
  tunnel = record { target_pool = 1; active_tunnels = 1; is_ready = true };
  priority = 0;
  protocol = ssh;
}

abbrev pool : ProxyPool
pool = proxy_pool 0 (tunnel_at (codes "a") ∷ (tunnel_at (codes "b") ∷ [])) no_child

abbrev looks : List ProxyPool
looks = pool ∷ (pool ∷ (pool ∷ []))

request-sent_example :
    (length (request wreq (codes "GET") none (λ i. 0) (λ key. none) looks (codes "body")).1.sent
      ≤ sends_allowed (codes "GET"))
    × FirstOnly wreq
        (codes "body")
        (request wreq (codes "GET") none (λ i. 0) (λ key. none) looks (codes "body")).1.sent
request-sent_example =
    request-sent wreq (codes "GET") none (λ i. 0) (λ key. none) looks (codes "body")

retried_test :
    (request wreq (codes "GET") none (λ i. 0) (λ key. none) looks (codes "body")).1.sent
    ≡ (codes "a", codes "body") ∷ ((codes "b", []) ∷ [])
unfolding request retryable unroxy.Base.Text.text_eq
retried_test = refl

posted_test :
    (request wreq (codes "POST") none (λ i. 0) (λ key. none) looks (codes "body")).1.sent
    ≡ (codes "a", codes "body") ∷ []
unfolding request retryable unroxy.Base.Text.text_eq
posted_test = refl
