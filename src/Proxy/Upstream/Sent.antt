-- ===== src/Proxy/Upstream/Sent.antt =====
-- How often a request is sent, and with which body.
use mathlib.Core.Path.{subst}
use unroxy.Base.{
  ℕ, zero, suc, ◌+◌, ◌≤◌, Bool, true, false, ◌||◌, Bool-cases, Option, none, some, List, [], ◌∷◌,
  ◌++◌, length, length-append, All, All-append, ◌⊎◌, inl, inr, if◌then◌else◌, ◌≡◌, refl, sym, arith,
}
use unroxy.Base.Text.{Text, codes, text_eq}
use unroxy.Proxy.Pool.{Protocol, ProxyPool, Candidate, Rotation}
use unroxy.Proxy.Upstream.{
  Error, max_attempts, retryable, Wreq, Clients, Tries, Turn, finished, again, sending, payload,
  after_send, after_client, client, after_pick, ready_candidate, attempt, rounds, request,
}

-- How often a request of a method may be sent.
abbrev pub sends_allowed : Text → ℕ
sends_allowed method =
    if text_eq method (codes "GET") then 6 else if text_eq method (codes "HEAD") then 6 else 1

rounds_allowed :
    (method : Text) → (if retryable method then max_attempts else 1) ≡ sends_allowed method
unfolding retryable
rounds_allowed method = elim (Bool-cases (text_eq method (codes "GET"))) [
  | inl e ↦ rw (e) refl
  | inr e ↦ rw (e) (head (text_eq method (codes "HEAD")))
]
  where
    head : (b : Bool) → (if false || b then max_attempts else 1) ≡ (if b then 6 else 1)
    head true = refl
    head false = refl

module _ (wreq : Wreq) where
  -- The first body that is sent is the request's, and every later one is empty.
  abbrev pub FirstOnly : wreq.Body → List (Text × wreq.Body) → Type 0
  FirstOnly body [] = Unit
  FirstOnly body ((key, first) ∷ later) =
      (first ≡ body) × All (λ (s : Text × wreq.Body). s.1 ≡ wreq.empty) later

  -- The body is at hand as long as nothing was sent.
  abbrev Unsent : wreq.Body → Option wreq.Body → List (Text × wreq.Body) → Type 0
  Unsent body (some b) sent = (b ≡ body) × (sent ≡ [])
  Unsent body none sent = (1 ≤ length sent) × FirstOnly body sent

  abbrev IsTried : wreq.Body → Tries wreq → Type 0
  IsTried body t = Unsent body t.body t.sent

  FirstOnly-append :
      (body : wreq.Body) (sent : List (Text × wreq.Body)) (key : Text)
      → 1 ≤ length sent
      → FirstOnly body sent
      → FirstOnly body (sent ++ ((key, wreq.empty) ∷ []))
  FirstOnly-append body [] key some_sent h = absurd (omega (arith, some_sent))
  FirstOnly-append body ((k, first) ∷ later) key some_sent (e, rest) = (
    e,
    All-append (λ (s : Text × wreq.Body). s.1 ≡ wreq.empty) later ((key, wreq.empty) ∷ []) rest
        (refl, tt),
  )

  -- The tries of a turn, sent at most once more than before.
  abbrev Turned : wreq.Body → ℕ → Turn wreq → Type 0
  Turned body count (finished result t) = IsTried body t × (length t.sent ≤ suc count)
  Turned body count (again t) = IsTried body t × (length t.sent ≤ suc count)

  sending_on :
      (body : wreq.Body) (key : Text) (b : Option wreq.Body) (sent : List (Text × wreq.Body))
      → Unsent body b sent
      → Unsent body none (sent ++ ((key, payload wreq b) ∷ []))
  sending_on body key (some x) [] (e, s) = (omega arith, (e, tt))
  sending_on body key (some x) (y ∷ sent) (e, s) = absurd (nonempty y sent s)
    where
      nonempty :
          (y : Text × wreq.Body) (sent : List (Text × wreq.Body))
          → ◌≡◌ {A = List (Text × wreq.Body)} (y ∷ sent) []
          → ⊥
      nonempty y sent s = ground arith
  sending_on body key none sent (some_sent, h) = (
    omega (arith, length-append sent ((key, wreq.empty) ∷ [])),
    FirstOnly-append body sent key some_sent h,
  )

  after_send-Turned :
      (body : wreq.Body) (count : ℕ) (c : Candidate) (t : Tries wreq) (r : Text ⊎ wreq.Response)
      → IsTried body t
      → length t.sent ≤ suc count
      → Turned body count (after_send wreq c t r)
  unfolding after_send
  after_send-Turned body count c t (inr response) h l = (h, l)
  after_send-Turned body count c t (inl reason) h l = (h, l)

  after_client-Turned :
      (body : wreq.Body) (c : Candidate) (t : Tries wreq) (found : Error ⊎ wreq.Client)
      → IsTried body t
      → Turned body (length t.sent) (after_client wreq c t found)
  unfolding after_client
  after_client-Turned body c t (inl e) h = (h, omega arith)
  after_client-Turned body c t (inr built) h =
      after_send-Turned body (length t.sent) c (sending wreq c.key t)
        (wreq.send (length t.sent) built (payload wreq t.body))
        (sending_on body c.key t.body t.sent h)
        (omega (arith, length-append t.sent ((c.key, payload wreq t.body) ∷ [])))

  after_pick-Turned :
      (body : wreq.Body) (t : Tries wreq) (picked : Option Candidate)
      → IsTried body t
      → Turned body (length t.sent) (after_pick wreq t picked)
  unfolding after_pick
  after_pick-Turned body t none h = (h, omega arith)
  after_pick-Turned body t (some c) h =
      let (found, clients) = client wreq c t.clients in
      after_client-Turned body c (record t { clients = clients }) found h

  attempt-Turned :
      (body : wreq.Body) (protocol : Option Protocol) (t : Tries wreq)
      → IsTried body t
      → Turned body (length t.sent) (attempt wreq protocol t)
  unfolding attempt
  attempt-Turned body protocol t h =
      let (c, rotation, looks) = ready_candidate wreq protocol t.tried t.looks t.rotation in
      after_pick-Turned body (record t { rotation = rotation; looks = looks }) c h

  Turn-cases :
      (turn : Turn wreq)
      → ((result : Error ⊎ (Candidate × wreq.Response)) × (t : Tries wreq) × (turn
            ≡ finished result t))
        ⊎ ((t : Tries wreq) × (turn ≡ again t))
  Turn-cases (finished result t) = inl (result, t, refl)
  Turn-cases (again t) = inr (t, refl)

  round_finished :
      (n : ℕ) (protocol : Option Protocol) (t u : Tries wreq)
      → (result : Error ⊎ (Candidate × wreq.Response)) → attempt wreq protocol t ≡ finished result u
      → rounds wreq (suc n) protocol t ≡ (result, u)
  unfolding rounds
  round_finished n protocol t u result e = rw (rounds, e) refl

  round_again :
      (n : ℕ) (protocol : Option Protocol) (t u : Tries wreq)
      → attempt wreq protocol t ≡ again u
      → rounds wreq (suc n) protocol t ≡ rounds wreq n protocol u
  unfolding rounds
  round_again n protocol t u e = rw (rounds, e) refl

  abbrev IsSent : wreq.Body → ℕ → Tries wreq → Type 0
  IsSent body bound t = IsTried body t × (length t.sent ≤ bound)

  rounds-sent :
      (n : ℕ) (body : wreq.Body) (protocol : Option Protocol) (t : Tries wreq)
      → IsTried body t
      → IsSent body (length t.sent + n) (rounds wreq n protocol t).1
  unfolding rounds
  rounds-sent zero body protocol t h = (h, omega arith)
  rounds-sent (suc n) body protocol t h =
      let turned = attempt-Turned body protocol t h in
      elim (Turn-cases (attempt wreq protocol t)) [
        | inl (result, u, e) ↦
            let (tried, few) = subst (Turned body (length t.sent)) e turned in
            subst
              (λ (r : (Error ⊎ (Candidate × wreq.Response)) × Tries wreq).
                IsSent body (length t.sent + suc n) r.1)
              (sym (round_finished n protocol t u result e)) (tried, omega (arith, few))
        | inr (u, e) ↦
            let (tried, few) = subst (Turned body (length t.sent)) e turned in
            let (later, bound) = rounds-sent n body protocol u tried in
            subst
              (λ (r : (Error ⊎ (Candidate × wreq.Response)) × Tries wreq).
                IsSent body (length t.sent + suc n) r.1)
              (sym (round_again n protocol t u e)) (later, omega (arith, few, bound))
      ]

  first_only :
      (body : wreq.Body) (b : Option wreq.Body) (sent : List (Text × wreq.Body))
      → Unsent body b sent
      → FirstOnly body sent
  first_only body none sent (some_sent, h) = h
  first_only body (some x) [] h = tt
  first_only body (some x) ((key, first) ∷ sent) (e, s) = ground arith

  -- A request is sent six times at most if its method is GET or HEAD, and once at most if it is any
  -- other. The first time it is sent with its body, and every later time with an empty one.
  pub request-sent :
      (method : Text) (protocol : Option Protocol) (rotation : Rotation) (clients : Clients wreq)
      → (looks : List ProxyPool) (body : wreq.Body)
      → (length (request wreq method protocol rotation clients looks body).1.sent
          ≤ sends_allowed method)
        × FirstOnly body (request wreq method protocol rotation clients looks body).1.sent
  unfolding request
  request-sent method protocol rotation clients looks body =
      let start : Tries wreq = record {
        rotation = rotation;
        clients = clients;
        looks = looks;
        tried = [];
        last = none;
        body = some body;
        sent = [];
      } in
      let count = if retryable method then max_attempts else 1 in
      let ended = (rounds wreq count protocol start).1 in
      let (tried, few) = rounds-sent count body protocol start (refl, refl) in
      (omega (arith, few, rounds_allowed method), first_only body ended.body ended.sent tried)
