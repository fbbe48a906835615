-- ===== src/Vpn/Provider/Counted.antt =====
-- The streams of a tunnel that `Account::open` opens are counted: over every sequence of uses, streams
-- that open and close, over the SOCKS bridge too, and reaps.
use mathlib.Core.Path.{subst}
use unroxy.Base.{
  ℕ, ◌+◌, ◌-◌, ◌%◌, ◌^◌, ◌≤◌, ◌<◌, Bool, true, false, Option, none, some, List, any, inl, inr, ltb,
  ◌==◌, if◌then◌else◌, ◌≡◌, refl, sym, ap, arith, Bool-cases, ==_iff, lt_or_ge,
}
use unroxy.Base.Text.{Text}
use unroxy.Vpn.Provider.{
  Account, Live, Config, Attempt, up, refused, bridge_failed, new_account, add_one, sub_one,
  set_live, new_live, connect, live_at, live, count_connection, drop_guard, idle_expired, reap_live,
  reap_at, reap,
}

abbrev pub set_at : ℕ → ℕ → (ℕ → ℕ) → ℕ → ℕ
set_at id n f i = if i == id then n else f i

abbrev pub holds : ℕ → List ℕ → Bool
holds id ids = any (λ held. held == id) ids

-- An account with the streams that are open on each of its tunnels: those of `Account::open`, which
-- have a guard, and those that the tasks of the bridges opened for their clients.
pub record World : Type 0 where
  pub account : Account
  pub guards : ℕ → ℕ
  pub bridged : ℕ → ℕ

-- What happens to an account.
pub data Step (w u : World) : Type 0 where
  used :
      (attempt : Attempt) (now : ℕ)
      → u ≡ record w { account = (live attempt now w.account).1 }
      → Step w u
  opened :
      (id : ℕ)
      → id < w.account.next
      → u ≡ record w {
        account = count_connection id w.account;
        guards = set_at id (w.guards id + 1) w.guards;
      }
      → Step w u
  dropped :
      (id now : ℕ)
      → 0 < w.guards id
      → u ≡ record w {
        account = drop_guard id now w.account;
        guards = set_at id (w.guards id - 1) w.guards;
      }
      → Step w u
  bridge_opened :
      (id : ℕ)
      → holds id w.account.bridges ≡ true
      → u ≡ record w { bridged = set_at id (w.bridged id + 1) w.bridged }
      → Step w u
  bridge_closed :
      (id : ℕ)
      → 0 < w.bridged id
      → u ≡ record w { bridged = set_at id (w.bridged id - 1) w.bridged }
      → Step w u
  reaped : (now : ℕ) → u ≡ record w { account = reap now w.account } → Step w u

pub data Reach (w : World) : World → Type 0 where
  here : Reach w w
  next : {u v : World} → Reach w u → Step u v → Reach w v

abbrev pub new_world : Text → Text → Config → World
new_world ip region config = record {
  account = new_account ip region config;
  guards = λ i. 0;
  bridged = λ i. 0;
}

-- Each tunnel's count is that of its streams with a guard.
abbrev pub Counts : (ℕ → Live) → (ℕ → ℕ) → Type 0
Counts lives guards = (id : ℕ) → (lives id).connections ≡ guards id % 2 ^ 64

abbrev pub Fresh : ℕ → (ℕ → ℕ) → Type 0
Fresh first guards = (id : ℕ) → first ≤ id → guards id ≡ 0

-- An account is ready just as long as it has a tunnel, which the task of a bridge holds, and tells no
-- port of a bridge without one.
abbrev pub Ready : Bool → ℕ → ℕ → List ℕ → Option ℕ → Type 0
Ready ready port first bridges none = (ready ≡ false) × (port ≡ 0)
Ready ready port first bridges (some id) = (ready ≡ true) × (id < first) × (holds id bridges ≡ true)

abbrev IsReady : Account → Option ℕ → Type 0
IsReady account slot = Ready account.ready account.socks_port account.next account.bridges slot

abbrev pub IsCounted : World → Type 0
IsCounted w =
    Counts w.account.lives w.guards
    × Fresh w.account.next w.guards
    × Ready w.account.ready w.account.socks_port w.account.next w.account.bridges w.account.tunnel

set_live-Counts :
    (lives : ℕ → Live) (guards : ℕ → ℕ) (id n : ℕ) (live : Live)
    → Counts lives guards
    → live.connections ≡ n % 2 ^ 64
    → Counts (set_live id live lives) (set_at id n guards)
set_live-Counts lives guards id n live c e i = elim (Bool-cases (i == id)) [
  | inl same ↦ rw (same) e
  | inr other ↦ rw (other) (c i)
]

-- With the same streams as before.
set_live-Counts_same :
    (lives : ℕ → Live) (guards : ℕ → ℕ) (id : ℕ) (live : Live)
    → Counts lives guards
    → live.connections ≡ guards id % 2 ^ 64
    → Counts (set_live id live lives) guards
set_live-Counts_same lives guards id live c e i = elim (Bool-cases (i == id)) [
  | inl same ↦ ground (arith, same, e, (==_iff i id).0 same)
  | inr other ↦ rw (other) (c i)
]

connect-IsCounted :
    (attempt : Attempt) (now : ℕ) (account : Account) (guards bridged : ℕ → ℕ)
    → Counts account.lives guards
    → Fresh account.next guards
    → IsReady account none
    → account.tunnel ≡ none
    → IsCounted
        (record { account = (connect attempt now account).1; guards = guards; bridged = bridged })
unfolding connect
connect-IsCounted (up port) now account guards bridged c f r e = (
  set_live-Counts_same account.lives guards account.next new_live c
      (ap (λ n. n % 2 ^ 64) (sym (f account.next (omega arith)))),
  λ id h. f id (omega (arith, h)),
  (refl, omega arith, rw ((==_iff account.next account.next).1 refl) refl),
)
connect-IsCounted (bridge_failed reason) now account guards bridged c f r e =
    (c, f, subst (IsReady account) (sym e) r)
connect-IsCounted (refused reason) now account guards bridged c f (unready, no_port) e = (
  c,
  f,
  subst (Ready false account.socks_port account.next account.bridges) (sym e) (refl, no_port),
)

live_at-IsCounted :
    (attempt : Attempt) (now : ℕ) (account : Account) (guards bridged : ℕ → ℕ) (slot : Option ℕ)
    → Counts account.lives guards
    → Fresh account.next guards
    → IsReady account slot
    → account.tunnel ≡ slot
    → IsCounted (record {
      account = (live_at attempt now account slot).1;
      guards = guards;
      bridged = bridged;
    })
unfolding live_at
live_at-IsCounted attempt now account guards bridged (some id) c f r e = (
  set_live-Counts_same account.lives guards id (record (account.lives id) { idle_since = none }) c
      (c id),
  f,
  subst (IsReady account) (sym e) r,
)
live_at-IsCounted attempt now account guards bridged none c f r e =
    elim (Bool-cases (ltb now account.not_before)) [
      | inl waits ↦ rw (waits) (c, f, subst (IsReady account) (sym e) r)
      | inr tries ↦ rw (tries) (connect-IsCounted attempt now account guards bridged c f r e)
    ]

reap_live-IsCounted :
    (now id : ℕ) (account : Account) (guards bridged : ℕ → ℕ)
    → Counts account.lives guards
    → Fresh account.next guards
    → IsReady account (some id)
    → account.tunnel ≡ some id
    → IsCounted (record { account = reap_live now id account; guards = guards; bridged = bridged })
unfolding reap_live
reap_live-IsCounted now id account guards bridged c f r e =
    elim (Bool-cases (idle_expired (account.lives id) now account.config.idle_timeout).0) [
      | inl expired ↦ rw (expired) (
        set_live-Counts_same account.lives guards id
            (record (account.lives id) { idle_since = none }) c (c id),
        f,
        (refl, refl),
      )
      | inr busy ↦ rw (busy) (kept, f, subst (IsReady account) (sym e) r)
    ]
  where
    kept :
        Counts
          (set_live id
            (record (account.lives id) {
              idle_since =
                  if ltb 0 (account.lives id).connections
                  then none
                  else (idle_expired (account.lives id) now account.config.idle_timeout).1;
            })
            account.lives)
          guards
    kept =
        set_live-Counts_same account.lives guards id
          (record (account.lives id) {
            idle_since =
                if ltb 0 (account.lives id).connections
                then none
                else (idle_expired (account.lives id) now account.config.idle_timeout).1;
          })
          c (c id)

reap_at-IsCounted :
    (now : ℕ) (account : Account) (guards bridged : ℕ → ℕ) (slot : Option ℕ)
    → Counts account.lives guards
    → Fresh account.next guards
    → IsReady account slot
    → account.tunnel ≡ slot
    → IsCounted (record { account = reap_at now account slot; guards = guards; bridged = bridged })
unfolding reap_at
reap_at-IsCounted now account guards bridged none c f r e =
    (c, f, subst (IsReady account) (sym e) r)
reap_at-IsCounted now account guards bridged (some id) c f r e =
    reap_live-IsCounted now id account guards bridged c f r e

set_at-Fresh :
    (first id n : ℕ) (guards : ℕ → ℕ)
    → id < first
    → Fresh first guards
    → Fresh first (set_at id n guards)
set_at-Fresh first id n guards below f i h = elim (Bool-cases (i == id)) [
  | inl same ↦ absurd (omega (arith, below, h, (==_iff i id).0 same))
  | inr other ↦ rw (other) (f i h)
]

-- A tunnel with streams is one of those there were.
open_below : (first id : ℕ) (guards : ℕ → ℕ) → Fresh first guards → 0 < guards id → id < first
open_below first id guards f h = elim (lt_or_ge id first) [
  | inl below ↦ below
  | inr above ↦ absurd (omega (arith, f id above, h))
]

Step-IsCounted : (w u : World) → Step w u → IsCounted w → IsCounted u
unfolding live count_connection drop_guard reap
Step-IsCounted w u (used attempt now e) (c, f, r) =
    subst IsCounted (sym e)
      (live_at-IsCounted attempt now w.account w.guards w.bridged w.account.tunnel c f r refl)
Step-IsCounted w u (opened id below e) (c, f, r) = subst IsCounted (sym e) (
  set_live-Counts w.account.lives w.guards id (w.guards id + 1)
      (record (w.account.lives id) { connections = add_one (w.account.lives id).connections }) c
      (omega (arith, c id)),
  set_at-Fresh w.account.next id (w.guards id + 1) w.guards below f,
  r,
)
Step-IsCounted w u (dropped id now some_open e) (c, f, r) =
    let left = sub_one (w.account.lives id).connections in
    subst IsCounted (sym e) (
      set_live-Counts w.account.lives w.guards id (w.guards id - 1)
          (record {
            connections = left;
            idle_since = if left == 0 then some now else (w.account.lives id).idle_since;
          })
          c (omega (arith, c id)),
      set_at-Fresh w.account.next id (w.guards id - 1) w.guards
          (open_below w.account.next id w.guards f some_open) f,
      r,
    )
Step-IsCounted w u (bridge_opened id held e) h = subst IsCounted (sym e) h
Step-IsCounted w u (bridge_closed id some_open e) h = subst IsCounted (sym e) h
Step-IsCounted w u (reaped now e) (c, f, r) =
    subst IsCounted (sym e)
      (reap_at-IsCounted now w.account w.guards w.bridged w.account.tunnel c f r refl)

new_world-IsCounted : (ip region : Text) (config : Config) → IsCounted (new_world ip region config)
unfolding new_account
new_world-IsCounted ip region config = (λ id. refl, λ id h. refl, (refl, refl))

pub Reach-IsCounted :
    (ip region : Text) (config : Config) (w : World)
    → Reach (new_world ip region config) w
    → IsCounted w
Reach-IsCounted ip region config w reached = go reached
  where
    go : {u : World} → Reach (new_world ip region config) u → IsCounted u
    go here = new_world-IsCounted ip region config
    go (next {u = u} {v = v} before step) = Step-IsCounted u v step (go before)
