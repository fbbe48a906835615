-- ===== src/Tests/Vpn.antt =====
-- The VPN accounts at concrete inputs.
use unroxy.Base.{
  ◌+◌, ◌-◌, ◌≤◌, true, some, none, ◌≡◌, refl, arith, [], ◌∷◌, All, inl, if◌then◌else◌,
}
use unroxy.Base.Text.{codes, text_eq}
use unroxy.Vpn.Account.{AccountFile, cipher_of, profile}
use unroxy.Vpn.Account.Servers.{IsProfile, profile-IsServers}
use unroxy.Vpn.Provider.{
  Account, up, refused, default_config, new_account, backoff_delay, connect, live, bridge_ready,
  count_connection, drop_guard, reap, since,
}
use unroxy.Vpn.Provider.Backoff.{live-backoff}
use unroxy.Vpn.Provider.Counted.{
  World, Reach, here, next, used, opened, dropped, bridge_opened, set_at, new_world,
}
use unroxy.Vpn.Provider.Idle.{reap-Idle}
use unroxy.Vpn.Supervise.{Pools, account_key, supervise, in_pool}
use unroxy.Vpn.Supervise.Joined.{supervise-in_pool}

abbrev file : AccountFile
file = record {
  region = codes "DE";
  cipher = none;
  auth = none;
  ca = [];
  cert = [];
  key = [];
  remotes =
      record { port = some 443; protocol = some (codes "tcp") }
      ∷ (record { port = none; protocol = none }
          ∷ (record { port = some 1194; protocol = none } ∷ []));
}

profile-IsServers_example :
    IsProfile (codes "1.2.3.4") (cipher_of file.cipher) (profile file (codes "1.2.3.4"))
profile-IsServers_example = profile-IsServers file (codes "1.2.3.4")

abbrev account : Account
account = new_account (codes "1.2.3.4") (codes "DE") default_config

abbrev waiting : Account
waiting = (connect (refused (codes "down")) 5000 account).1

live-backoff_example :
    (live (up 9) 5500 waiting ≡ (inl (codes "backoff"), waiting))
    × (5000 + 1000 ≤ waiting.not_before)
    × (bridge_ready (live (up 9) 400000 waiting).1 ≡ true)
    × ((live (up 9) 400000 waiting).1.failures ≡ 0)
unfolding new_account backoff_delay
live-backoff_example =
    live-backoff account (codes "down") (up 9) 5000 5500 400000 9 refl (omega arith) (omega arith)
      (omega arith) refl

-- A tunnel is opened, and a stream on it opens and closes.
abbrev world_used : World
world_used = record (new_world (codes "1.2.3.4") (codes "DE") default_config) {
  account = (live (up 9) 1000 account).1;
}

abbrev world_open : World
world_open = record world_used {
  account = count_connection 0 world_used.account;
  guards = set_at 0 1 world_used.guards;
}

abbrev world_closed : World
world_closed = record world_open {
  account = drop_guard 0 2000 world_open.account;
  guards = set_at 0 0 world_open.guards;
}

reached : Reach (new_world (codes "1.2.3.4") (codes "DE") default_config) world_closed
unfolding new_account live connect count_connection
reached =
    next (next (next here (used (up 9) 1000 refl)) (opened 0 (omega arith) refl))
      (dropped 0 2000 (omega arith) refl)

-- A client of the bridge has a stream on the tunnel, which the reap forgets all the same.
abbrev world_bridged : World
world_bridged = record world_closed { bridged = set_at 0 1 world_closed.bridged }

bridged_reached : Reach (new_world (codes "1.2.3.4") (codes "DE") default_config) world_bridged
unfolding new_account live connect count_connection drop_guard
bridged_reached = next reached (bridge_opened 0 refl refl)

reap-Idle_example :
    (world_bridged.guards 0 ≡ 0)
    × (world_bridged.account.config.idle_timeout
        ≤ 400000 - since 400000 (world_bridged.account.lives 0).idle_since)
unfolding new_account live connect count_connection drop_guard reap
reap-Idle_example =
    reap-Idle (codes "1.2.3.4") (codes "DE") default_config world_bridged 400000 0 bridged_reached
      refl refl (omega arith)

abbrev pools : Pools
pools region = if text_eq region (codes "DE") then some [] else none

supervise-in_pool_example :
    All
      (λ (a : Account).
        in_pool (account_key a) (supervise (account ∷ []) pools a.region) ≡ bridge_ready a)
      (account ∷ [])
unfolding new_account text_eq
supervise-in_pool_example = supervise-in_pool (account ∷ []) pools (tt, tt) (refl, tt)
