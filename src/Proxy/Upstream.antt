-- ===== src/Proxy/Upstream.antt =====
-- src/upstream.rs: a request to a target through the tunnels of a pool, which is tried again on
-- another tunnel. The HTTP client is another package's. The waits of `ready_candidate` are a list: the
-- pool as it is at each look, up to the end of the time.
pub mod Sent
use unroxy.Base.{
  ℕ, zero, suc, Bool, true, false, not, ◌||◌, Option, none, some, List, [], ◌∷◌, ◌++◌, any, filter,
  find, length, ◌==◌, ◌⊎◌, inl, inr, if◌then◌else◌,
}
use unroxy.Base.Text.{Text, codes, text_eq}
use unroxy.Proxy.Pool.{Protocol, ProxyPool, Candidate, Rotation, filtered}

pub data Error : Type 0 where
  no_upstream : Error
  failed : Text → Error

abbrev pub max_attempts : ℕ
max_attempts = 6

-- `matches!(method, Method::GET | Method::HEAD)`
unfoldable pub retryable : Text → Bool
retryable method = text_eq method (codes "GET") || text_eq method (codes "HEAD")

-- What the code uses of the HTTP client and of the tunnels.
pub record Wreq : Type 1 where
  pub Client : Type 0
  pub Body : Type 0
  pub Response : Type 0
  pub empty : Body
  pub generation : Candidate → ℕ
  pub proxy_url : Candidate → Option Text
  pub build : Text → Text ⊎ Client
  -- What a send comes to, by how many were before it.
  pub send : ℕ → Client → Body → Text ⊎ Response

module _ (wreq : Wreq) where
  pub record CachedClient : Type 0 where
    pub generation : ℕ
    pub client : wreq.Client

  -- `CLIENTS`, by the keys of the candidates.
  abbrev pub Clients : Type 0
  Clients = Text → Option CachedClient

  -- The variables of `request`, with the bodies that were sent so far, by the key of the candidate.
  pub record Tries : Type 0 where
    pub rotation : Rotation
    pub clients : Clients
    pub looks : List ProxyPool
    pub tried : List Text
    pub last : Option Error
    pub body : Option wreq.Body
    pub sent : List (Text × wreq.Body)

  abbrev pub contains_key : List Text → Text → Bool
  contains_key keys key = any (λ known. text_eq known key) keys

  -- The candidates that were not tried, or all if every one was.
  abbrev pub untried_first : List Text → List Candidate → List Candidate
  untried_first skip candidates =
      let untried = filter (λ (c : Candidate). not (contains_key skip c.key)) candidates in
      if length untried == 0 then candidates else untried

  -- `ready_candidate`: the candidate, with the counters and the looks that are left.
  unfoldable pub ready_candidate :
      Option Protocol
      → List Text
      → List ProxyPool
      → Rotation
      → Option Candidate × Rotation × List ProxyPool
  unfolding filtered
  ready_candidate protocol skip [] rotation = (none, rotation, [])
  ready_candidate protocol skip (pool ∷ looks) rotation =
      let (candidates, rotation') = filtered protocol pool rotation in
      let later = ready_candidate protocol skip looks rotation' in
      if length candidates == 0
      then (none, rotation', looks)
      else elim (find (λ (c : Candidate). c.tunnel.is_ready) (untried_first skip candidates)) [
        | some candidate ↦ (some candidate, rotation', looks)
        | none ↦ later
      ]

  abbrev set_client : Text → Option CachedClient → Clients → Clients
  set_client key client clients other = if text_eq other key then client else clients other

  -- A new client for a candidate, which replaces the one in the cache.
  unfoldable pub build_client : Candidate → Clients → (Error ⊎ wreq.Client) × Clients
  build_client candidate clients = elim (wreq.proxy_url candidate) [
    | none ↦ (inl no_upstream, clients)
    | some url ↦ elim (wreq.build url) [
      | inl reason ↦ (inl (failed reason), clients)
      | inr client ↦ (
        inr client,
        set_client candidate.key
            (some (record { generation = wreq.generation candidate; client = client })) clients,
      )
    ]
  ]

  -- `RotatingTransport::client`
  unfoldable pub client : Candidate → Clients → (Error ⊎ wreq.Client) × Clients
  unfolding build_client
  client candidate clients = elim (clients candidate.key) [
    | none ↦ build_client candidate clients
    | some cached ↦
        if cached.generation == wreq.generation candidate
        then (inr cached.client, clients)
        else build_client candidate clients
  ]

  -- `evict`
  unfoldable pub evict : Text → Clients → Clients
  evict key clients = set_client key none clients

  -- What a round comes to: an end of the request, or another round.
  pub data Turn : Type 0 where
    finished : Error ⊎ (Candidate × wreq.Response) → Tries → Turn
    again : Tries → Turn

  abbrev pub last_or : Error → Option Error → Error
  last_or e none = e
  last_or e (some last) = last

  -- `body.take().unwrap_or_else`
  abbrev pub payload : Option wreq.Body → wreq.Body
  payload none = wreq.empty
  payload (some body) = body

  -- The tries with one more body sent.
  abbrev pub sending : Text → Tries → Tries
  sending key t = record t { body = none; sent = t.sent ++ ((key, payload t.body) ∷ []) }

  -- The end of a round, by the outcome of the send.
  unfoldable pub after_send : Candidate → Tries → Text ⊎ wreq.Response → Turn
  unfolding evict
  after_send candidate t (inr response) = finished (inr (candidate, response)) t
  after_send candidate t (inl reason) = again (record t {
    clients = evict candidate.key t.clients;
    tried = t.tried ++ (candidate.key ∷ []);
    last = some (failed reason);
  })

  -- A round from the client on.
  unfoldable pub after_client : Candidate → Tries → Error ⊎ wreq.Client → Turn
  unfolding after_send
  after_client candidate t (inl e) = again (record t { last = some e })
  after_client candidate t (inr client) =
      after_send candidate (sending candidate.key t)
        (wreq.send (length t.sent) client (payload t.body))

  -- A round from the candidate on.
  unfoldable pub after_pick : Tries → Option Candidate → Turn
  unfolding client after_client
  after_pick t none = finished (inl (last_or no_upstream t.last)) t
  after_pick t (some candidate) =
      let (found, clients) = client candidate t.clients in
      after_client candidate (record t { clients = clients }) found

  -- A round of `request`
  unfoldable pub attempt : Option Protocol → Tries → Turn
  unfolding ready_candidate after_pick
  attempt protocol t =
      let (candidate, rotation, looks) = ready_candidate protocol t.tried t.looks t.rotation in
      after_pick (record t { rotation = rotation; looks = looks }) candidate

  unfoldable pub rounds :
      ℕ → Option Protocol → Tries → (Error ⊎ (Candidate × wreq.Response)) × Tries
  unfolding attempt
  rounds zero protocol t = (inl (last_or no_upstream t.last), t)
  rounds (suc n) protocol t = elim (attempt protocol t) [
    | finished result t' ↦ (result, t')
    | again t' ↦ rounds n protocol t'
  ]

  -- `request` by the name of its method, which tells the methods of the HTTP library apart.
  unfoldable pub request :
      Text
      → Option Protocol
      → Rotation
      → Clients
      → List ProxyPool
      → wreq.Body
      → (Error ⊎ (Candidate × wreq.Response)) × Tries
  unfolding retryable rounds
  request method protocol rotation clients looks body =
      rounds (if retryable method then max_attempts else 1) protocol (record {
        rotation = rotation;
        clients = clients;
        looks = looks;
        tried = [];
        last = none;
        body = some body;
        sent = [];
      })
