-- ===== src/Vpn/Provider/Backoff.antt =====
-- The wait after a failed attempt at a tunnel.
use unroxy.Base.{
  ℕ, ◌+◌, ◌*◌, ◌^◌, ◌≤◌, ◌<◌, min, true, false, none, inl, ◌==◌, ◌≡◌, refl, ap, ◌∙◌, arith, lt→ltb,
  le→ltb,
}
use native.Mathlib.Nat.{pow-le-pow_right}
use unroxy.Base.Text.{Text, codes}
use unroxy.Vpn.Provider.{
  Account, Attempt, up, refused, backoff_delay, add_one, connect, live_at, live, bridge_ready,
}

pow_le : (a b : ℕ) → a ≤ b → 2 ^ a ≤ 2 ^ b
pow_le a b h = pow-le-pow_right (omega arith) h

-- The wait grows with the failures, from one second to 256.
pub backoff_delay-le :
    (f g : ℕ)
    → f ≤ g
    → (1 ≤ backoff_delay f) × (backoff_delay f ≤ backoff_delay g) × (backoff_delay g ≤ 256)
unfolding backoff_delay
backoff_delay-le f g h = (
  pow_le 0 (min f 8) (omega arith),
  pow_le (min f 8) (min g 8) (omega arith),
  pow_le (min g 8) 8 (omega arith),
)

refused_until :
    (account : Account) (reason : Text) (now : ℕ)
    → now + 256000 < 2 ^ 64
    → (connect (refused reason) now account).1.not_before
      ≡ now + 1000 * backoff_delay (add_one account.failures)
unfolding connect
refused_until account reason now clock =
    omega
      (arith, backoff_delay-le (add_one account.failures) (add_one account.failures) (omega arith))

live_waits :
    (account : Account) (attempt : Attempt) (now : ℕ)
    → account.tunnel ≡ none
    → now < account.not_before
    → live attempt now account ≡ (inl (codes "backoff"), account)
unfolding live
live_waits account attempt now e h =
    ap (live_at attempt now account) e ∙ rw (lt→ltb now account.not_before h) refl

live_tries :
    (account : Account) (attempt : Attempt) (now : ℕ)
    → account.tunnel ≡ none
    → account.not_before ≤ now
    → live attempt now account ≡ connect attempt now account
unfolding live
live_tries account attempt now e h =
    ap (live_at attempt now account) e ∙ rw (le→ltb now account.not_before h) refl

-- When an attempt for an account without a tunnel is refused, the next use is refused without an
-- attempt or a change for as long as the backoff lasts, which is at least a second, and from 256
-- seconds on a use whose attempt succeeds makes the account ready again and forgets its failures.
-- The clock stays below 2 ^ 64 milliseconds over that time, and the bridge's port is not 0.
pub live-backoff :
    (account : Account) (reason : Text) (attempt : Attempt) (now early late port : ℕ)
    → account.tunnel ≡ none
    → now + 256000 < 2 ^ 64
    → early < now + 1000 * backoff_delay (add_one account.failures)
    → now + 256000 ≤ late
    → (port == 0) ≡ false
    → (live attempt early (connect (refused reason) now account).1
        ≡ (inl (codes "backoff"), (connect (refused reason) now account).1))
      × (now + 1000 ≤ (connect (refused reason) now account).1.not_before)
      × (bridge_ready (live (up port) late (connect (refused reason) now account).1).1 ≡ true)
      × ((live (up port) late (connect (refused reason) now account).1).1.failures ≡ 0)
unfolding connect bridge_ready
live-backoff account reason attempt now early late port none_there clock is_early is_late has_port =
    let waiting = (connect (refused reason) now account).1 in
    let until = refused_until account reason now clock in
    let tries = live_tries waiting (up port) late none_there (
      omega (
        arith,
        until,
        backoff_delay-le (add_one account.failures) (add_one account.failures) (omega arith),
      )) in
    (
      live_waits waiting attempt early none_there (omega (arith, until)),
      omega (
        arith,
        until,
        backoff_delay-le (add_one account.failures) (add_one account.failures) (omega arith),
      ),
      ap (λ r. bridge_ready r.1) tries ∙ rw (has_port) refl,
      ap (λ r. r.1.failures) tries,
    )
