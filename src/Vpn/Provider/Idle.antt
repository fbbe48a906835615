-- ===== src/Vpn/Provider/Idle.antt =====
-- When an account's tunnel is closed.
use unroxy.Base.{
  ℕ, ◌-◌, ◌^◌, ◌≤◌, ◌<◌, true, none, some, inl, inr, ltb, ◌≡◌, sym, ap, ◌∙◌, arith, Bool-cases,
}
use unroxy.Base.Text.{Text}
use unroxy.Vpn.Provider.{Account, Live, Config, since, idle_expired, reap_live, reap_at, reap}
use unroxy.Vpn.Provider.Counted.{World, Reach, new_world, Reach-IsCounted}

idle_expired_iff :
    (connections : Live) (now timeout : ℕ)
    → (idle_expired connections now timeout).0 ≡ true
    → (connections.connections ≡ 0) × (timeout ≤ now - since now connections.idle_since)
unfolding idle_expired
idle_expired_iff c now timeout h = elim (Bool-cases (ltb 0 c.connections)) [
  | inl e ↦ ground (arith, e, h)
  | inr e ↦ ground (arith, e, h)
]

closes_expired :
    (now id : ℕ) (account : Account)
    → account.tunnel ≡ some id
    → (reap_live now id account).tunnel ≡ none
    → (idle_expired (account.lives id) now account.config.idle_timeout).0 ≡ true
unfolding reap_live
closes_expired now id account e h =
    elim (Bool-cases (idle_expired (account.lives id) now account.config.idle_timeout).0) [
      | inl expired ↦ expired
      | inr busy ↦ ground (arith, busy, h, e)
    ]

-- When a reap takes the tunnel of an account away, which was used in whatever way from its start,
-- the tunnel has no open stream that Account::open opened, if fewer than 2 ^ 64 of them are open,
-- and at least the account's timeout has passed since the time that was noted for it as idle, or
-- the timeout is 0 without a note; the streams over the bridge are not asked for.
pub reap-Idle :
    (ip region : Text) (config : Config) (w : World) (now id : ℕ)
    → Reach (new_world ip region config) w
    → w.account.tunnel ≡ some id
    → (reap now w.account).tunnel ≡ none
    → w.guards id < 2 ^ 64
    → (w.guards id ≡ 0)
      × (w.account.config.idle_timeout ≤ now - since now (w.account.lives id).idle_since)
unfolding reap
reap-Idle ip region config w now id reached e h few =
    let closed = ap (λ slot. (reap_at now w.account slot).tunnel) (sym e) ∙ h in
    let (unused, long) =
      idle_expired_iff (w.account.lives id) now w.account.config.idle_timeout
        (closes_expired now id w.account e closed) in
    let counts = (Reach-IsCounted ip region config w reached).0 id in
    (omega (arith, unused, counts, few), long)
