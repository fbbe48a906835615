-- ===== src/OpenVpn/Tls/Session/Feeds.antt =====
-- A TLS session that is not closed takes what it is fed, and is not closed by it.
use unroxy.Base.{◌||◌, true, is_some, List, ℕ, ◌≡◌, refl, Option-cases, inl, inr, arith}
use unroxy.OpenVpn.Control.Reorder.{Feeds}
use unroxy.OpenVpn.Tls.Session.{Btls, TlsState, feed, pump, ops}

abbrev pub IsLive : {S : Type 0} → TlsState S → Type 0
IsLive t = (is_some t.handshake || is_some t.stream) ≡ true

module _ {S : Type 0} (btls : Btls S) where
  abbrev pub fed_by : TlsState S → List ℕ → TlsState S
  fed_by t m = (feed btls t m).1

  pub ops-Feeds : Feeds (ops btls) IsLive fed_by
  unfolding ops feed pump
  ops-Feeds t m live = elim (Option-cases (t.handshake)) [
    | inr (s, e) ↦ rw (e) (refl, refl)
    | inl e ↦ elim (Option-cases (t.stream)) [
      | inr (s, f) ↦ rw (e, f) (refl, refl)
      | inl f ↦ ground (arith, e, f, live)
    ]
  ]
