-- ===== src/OpenVpn/Control/Reorder.antt =====
-- Control packets reach the TLS session in order, each once, however they arrive.
use unroxy.Base.{
  ℕ, zero, suc, ◌+◌, ◌≤◌, ◌<◌, none, some, ◌≡◌, refl, sym, ap, arith, List, [], ◌∷◌, length, All,
  ltb, if◌then◌else◌,
}
use unroxy.Base.{Result, ok, Bool-cases, lt_or_ge, inl, inr}
use unroxy.OpenVpn.Control.Queue.{
  last_id, Above, insert-Above, FirstEntry, missing, present, first_entry,
}
use mathlib.Core.Path.{subst, ap₂}
use unroxy.OpenVpn.Error.{Error}
use unroxy.OpenVpn.Tls.{TlsOps}
use unroxy.OpenVpn.Control.{Control, next_u32}
use unroxy.OpenVpn.Control.Receive.{insert, lookup, remove, feed_next, feed_queued, accept_control}

-- A session that is not closed takes what it is fed and stays so: `after` is the session then.
abbrev pub Feeds : {T : Type 0} → TlsOps T → (T → Type 0) → (T → List ℕ → T) → Type 0
Feeds {T} ops IsLive after =
    (t : T) (m : List ℕ) → IsLive t → (ops.feed t m ≡ (ok tt, after t m)) × IsLive (after t m)

-- `first` is the id that the session waits for at the start, in the state `start`.
module _ {T : Type 0} (ops : TlsOps T) (IsLive : T → Type 0) (after : T → List ℕ → T)
    (feeds : Feeds ops IsLive after) (msg : ℕ → List ℕ) (first : ℕ) (start : T) where
  -- The session after the first `n` payloads, in order.
  abbrev pub fed : ℕ → T
  fed zero = start
  fed (suc n) = after (fed n) (msg (first + n))

  -- The session has got the payloads up to the one that is waited for, and the map holds later ones.
  pub record Ordered (c : Control T) : Type 0 where
    pub count : ℕ
    pub expected : c.recv_next ≡ first + count
    pub below : c.recv_next ≤ last_id
    pub in_order : c.tls ≡ fed count
    pub live : IsLive c.tls
    pub queued : Above msg c.recv_next c.reorder
    pub bounded : length c.reorder ≤ 32

  -- Feeding the payload that is waited for.
  feed_next_lem :
      (c : Control T)
      → IsLive c.tls
      → feed_next ops (msg c.recv_next) c ≡ (
        ok tt,
        record c { tls = after c.tls (msg c.recv_next); recv_next = next_u32 c.recv_next },
      )
  unfolding feed_next
  feed_next_lem c live =
      let (taken, _) = feeds c.tls (msg c.recv_next) live in ground (arith, taken)

  next_id : (n : ℕ) → n < last_id → next_u32 n ≡ n + 1
  next_id n h = omega arith

  -- After the payload that is waited for, with `rest` still queued.
  moved : Control T → List (ℕ × List ℕ) → Control T
  moved c rest = record c {
    tls = after c.tls (msg c.recv_next);
    recv_next = next_u32 c.recv_next;
    reorder = rest;
  }

  queue_stops :
      (fuel : ℕ) (c : Control T)
      → lookup c.recv_next c.reorder ≡ none
      → feed_queued ops (suc fuel) c ≡ (ok tt, c)
  unfolding feed_queued
  queue_stops fuel c h = ground (arith, h)

  queue_goes_on :
      (fuel : ℕ) (c : Control T)
      → lookup c.recv_next c.reorder ≡ some (msg c.recv_next)
      → IsLive c.tls
      → feed_queued ops (suc fuel) c ≡ feed_queued ops fuel (moved c (remove c.recv_next c.reorder))
  unfolding feed_queued moved
  queue_goes_on fuel c h live =
      let taken = feed_next_lem (record c { reorder = remove c.recv_next c.reorder }) live in
      ground (arith, h, taken)

  -- What the loop leaves, from a state with `count` payloads fed.
  abbrev Settles : (Result Error (Unit {0}) × Control T) → ℕ → Type 0
  Settles out from = (out.0 ≡ ok tt) × Ordered out.1 × (from ≤ out.1.recv_next)

  at_expected :
      (c : Control T) (r : ℕ)
      → c.recv_next ≡ r + 1
      → Above msg r c.reorder
      → FirstEntry msg c.recv_next c.reorder
  at_expected c r er a =
      subst (λ k. FirstEntry msg k c.reorder) (sym er) (first_entry msg r c.reorder a)

  settle :
      (fuel : ℕ) (c : Control T) (n r : ℕ)
      → c.recv_next ≡ r + 1
      → c.recv_next ≡ first + n
      → c.recv_next ≤ last_id
      → c.tls ≡ fed n
      → IsLive c.tls
      → Above msg r c.reorder
      → length c.reorder ≤ fuel
      → length c.reorder ≤ 32
      → Settles (feed_queued ops fuel c) c.recv_next
  unfolding moved
  settle zero c n r er en le t live a hf hb = elim (at_expected c r er a) [
    | missing h above ↦ (
      unfold feed_queued in refl,
      unfold feed_queued in
          record {
            count = n;
            expected = en;
            below = le;
            in_order = t;
            live = live;
            queued = above;
            bounded = hb;
          },
      unfold feed_queued in omega arith,
    )
    | present b h above l ↦ absurd (omega arith)
  ]
  settle (suc fuel) c n r er en le t live a hf hb = elim (at_expected c r er a) [
    | missing h above ↦ rw (queue_stops fuel c h) (
      refl,
      record {
        count = n;
        expected = en;
        below = le;
        in_order = t;
        live = live;
        queued = above;
        bounded = hb;
      },
      omega arith,
    )
    | present b h above l ↦
        let c' = moved c (remove c.recv_next c.reorder) in
        let up = next_id c.recv_next b in
        let (done, o, le') =
          settle fuel c' (suc n) c.recv_next up (omega (arith, up)) (omega (arith, up))
            (ap₂ after t (ap msg en)) (feeds c.tls (msg c.recv_next) live).1 above (omega arith)
            (omega arith) in
        rw (queue_goes_on fuel c h live) (done, o, omega (arith, le', up))
  ]

  exact :
      (c : Control T)
      → IsLive c.tls
      → accept_control ops c.recv_next (msg c.recv_next) c
        ≡ feed_queued ops (length c.reorder) (moved c c.reorder)
  unfolding accept_control moved
  exact c live = ground (arith, feed_next_lem c live)

  stored : Control T → ℕ → Control T
  stored c id =
      if ltb (length c.reorder) 32 then record c { reorder = insert id (msg id) c.reorder } else c

  ahead :
      (c : Control T) (id : ℕ)
      → c.recv_next < id
      → accept_control ops id (msg id) c ≡ (ok tt, stored c id)
  unfolding accept_control stored
  ahead c id h = ground arith

  stored-Ordered :
      (c : Control T) (id : ℕ) → c.recv_next < id → id < last_id → Ordered c → Ordered (stored c id)
  unfolding stored
  stored-Ordered c id h b o =
      let (above, bound) = insert-Above msg c.recv_next id c.reorder h b o.queued in
      elim (Bool-cases (ltb (length c.reorder) 32)) [
        | inl room ↦ rw room (record {
          count = o.count;
          expected = o.expected;
          below = o.below;
          in_order = o.in_order;
          live = o.live;
          queued = above;
          bounded = ground arith;
        })
        | inr full ↦ rw full o
      ]

  early :
      (c : Control T) (id : ℕ) → id < c.recv_next → accept_control ops id (msg id) c ≡ (ok tt, c)
  unfolding accept_control
  early c id h = ground arith

  take_expected :
      (c : Control T)
      → c.recv_next < last_id
      → Ordered c
      → Settles (accept_control ops c.recv_next (msg c.recv_next) c) (c.recv_next + 1)
  unfolding moved
  take_expected c h o =
      let up = next_id c.recv_next h in
      let (done, o', le) =
        settle (length c.reorder) (moved c c.reorder) (suc o.count) c.recv_next up
          (omega (arith, up, o.expected)) (omega (arith, up))
          (ap₂ after o.in_order (ap msg o.expected)) (feeds c.tls (msg c.recv_next) o.live).1
          o.queued (omega arith) o.bounded in
      rw (exact c o.live) (done, o', omega (arith, le, up))

  -- One packet of the peer: it is taken without an error, the session stays in order, and the
  -- packet that is waited for moves it on.
  pub accept_control-Ordered :
      (c : Control T) (id : ℕ)
      → id < last_id
      → Ordered c
      → Settles (accept_control ops id (msg id) c) c.recv_next
        × (id ≡ c.recv_next → id < (accept_control ops id (msg id) c).1.recv_next)
  accept_control-Ordered c id h o = elim (lt_or_ge id c.recv_next) [
    | inl lt ↦ rw (early c id lt) ((refl, o, omega arith), λ e. omega arith)
    | inr ge ↦ elim (lt_or_ge c.recv_next id) [
      | inl gt ↦
          rw (ahead c id gt)
            ((refl, stored-Ordered c id gt h o, unfold stored in ground arith), λ e. omega arith)
      | inr le ↦
          let e : id ≡ c.recv_next = omega arith in
          rw e (
            let (done, o', up) = take_expected c (omega arith) o in
            ((done, o', omega (arith, up)), λ _. omega (arith, up)))
    ]
  ]

  -- Any packets of the peer, in any order and with any repeats.
  pub accept_all : List ℕ → Control T → Control T
  accept_all [] c = c
  accept_all (id ∷ ids) c = accept_all ids (accept_control ops id (msg id) c).1

  -- Whatever control packets of the peer arrive, in whatever order and however often, the TLS
  -- session, if it is not closed at the start and takes what it is fed as long as it is not closed,
  -- has been fed exactly the payloads of the ids up to the one that is waited for, each once and in
  -- order, and the map of early packets stays within 32 entries; the ids stay below the last one of
  -- 32 bits.
  pub accept_all-Ordered :
      (ids : List ℕ) (c : Control T)
      → All (λ id. id < last_id) ids
      → Ordered c
      → Ordered (accept_all ids c)
  unfolding accept_all
  accept_all-Ordered [] c h o = o
  accept_all-Ordered (id ∷ ids) c (h, hs) o =
      accept_all-Ordered ids (accept_control ops id (msg id) c).1 hs
        ((accept_control-Ordered c id h o).0).1
