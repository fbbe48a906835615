-- ===== src/Vpn/Provider.antt =====
-- src/vpn/provider.rs: the tunnel of an account, which is opened when it is needed and closed when it
-- has been idle. What the network does is an argument of an operation. The shared `Live` records stand
-- in a store, since a connection keeps the one it was opened on. Times are in milliseconds.
pub mod Backoff
pub mod Counted
pub mod Idle
use unroxy.Base.{
  ℕ, suc, ◌+◌, ◌-◌, ◌*◌, ◌%◌, ◌^◌, min, Bool, true, false, not, ◌&&◌, Option, none, some, List, [],
  ◌∷◌, ◌++◌, ◌⊎◌, inl, inr, leb, ltb, ◌==◌, if◌then◌else◌,
}
use unroxy.Base.Text.{Text, codes, is_empty}
use unroxy.OpenVpn.Config.{Profile}
use unroxy.Proxy.Exit.{Exit}
use unroxy.Proxy.Server.Index.{decimal}
use unroxy.Ssh.Socks.{Handled, handle}

pub record Config : Type 0 where
  pub connect_timeout : ℕ
  pub idle_timeout : ℕ

-- `Config::default`
abbrev pub default_config : Config
default_config = record { connect_timeout = 20000; idle_timeout = 300000 }

-- `Live`, without the tunnel, which its number stands for.
pub record Live : Type 0 where
  pub connections : ℕ
  pub idle_since : Option ℕ

-- An account, with the records of all tunnels it had, and the tunnels that the task of a SOCKS bridge
-- holds.
pub record Account : Type 0 where
  pub ip : Text
  pub region : Text
  pub config : Config
  pub tunnel : Option ℕ
  pub socks_port : ℕ
  pub failures : ℕ
  pub not_before : ℕ
  pub generation : ℕ
  pub ready : Bool
  pub lives : ℕ → Live
  pub next : ℕ
  pub bridges : List ℕ

abbrev pub new_live : Live
new_live = record { connections = 0; idle_since = none }

-- `Account::new` with the profile that was made of the file.
unfoldable pub new_account : Text → Text → Config → Account
new_account ip region config = record {
  ip = ip;
  region = if is_empty region then codes "UN" else region;
  config = config;
  tunnel = none;
  socks_port = 0;
  failures = 0;
  not_before = 0;
  generation = 0;
  ready = false;
  lives = λ i. new_live;
  next = 0;
  bridges = [];
}

-- `backoff_delay`, in seconds.
unfoldable pub backoff_delay : ℕ → ℕ
backoff_delay failures = 2 ^ min failures 8

-- `Duration::as_millis`
abbrev pub millis : ℕ → ℕ
millis seconds = seconds * 1000

-- `fetch_add(1)` and `fetch_sub(1)` on 64 bits, which wrap.
abbrev pub add_one : ℕ → ℕ
add_one n = (n + 1) % 2 ^ 64

abbrev pub sub_one : ℕ → ℕ
sub_one n = (n + (2 ^ 64 - 1)) % 2 ^ 64

-- What the attempt at a tunnel and its bridge comes to.
pub data Attempt : Type 0 where
  refused bridge_failed : Text → Attempt
  up : ℕ → Attempt

abbrev pub set_live : ℕ → Live → (ℕ → Live) → ℕ → Live
set_live id live lives i = if i == id then live else lives i

-- `Account::connect`, where there is no tunnel.
unfoldable pub connect : Attempt → ℕ → Account → (Text ⊎ ℕ) × Account
unfolding backoff_delay
connect (up port) now account = (
  inr account.next,
  record account {
    tunnel = some account.next;
    failures = 0;
    ready = true;
    socks_port = port;
    lives = set_live account.next new_live account.lives;
    next = suc account.next;
    bridges = account.next ∷ account.bridges;
  },
)
connect (bridge_failed reason) now account = (inl reason, account)
connect (refused reason) now account = (
  inl reason,
  record account {
    failures = add_one account.failures;
    not_before = (now + millis (backoff_delay (add_one account.failures))) % 2 ^ 64;
    ready = false;
    generation = add_one account.generation;
  },
)

-- `Account::live` with what is in the slot: the tunnel that is there, or an attempt at one.
unfoldable pub live_at : Attempt → ℕ → Account → Option ℕ → (Text ⊎ ℕ) × Account
unfolding connect
live_at attempt now account (some id) = (
  inr id,
  record account {
    lives = set_live id (record (account.lives id) { idle_since = none }) account.lives;
  },
)
live_at attempt now account none =
    if ltb now account.not_before
    then (inl (codes "backoff"), account)
    else connect attempt now account

unfoldable pub live : Attempt → ℕ → Account → (Text ⊎ ℕ) × Account
unfolding live_at
live attempt now account = live_at attempt now account account.tunnel

-- `Account::warm`
unfoldable pub warm : Attempt → ℕ → Account → Account
unfolding live
warm attempt now account = (live attempt now account).1

-- The end of `Account::open`, where the stream was opened.
unfoldable pub count_connection : ℕ → Account → Account
count_connection id account = record account {
  lives =
      set_live id
        (record (account.lives id) { connections = add_one (account.lives id).connections })
        account.lives;
}

-- `Guard::drop`
unfoldable pub drop_guard : ℕ → ℕ → Account → Account
drop_guard id now account =
    let left = sub_one (account.lives id).connections in
    record account {
      lives =
          set_live id
            (record {
              connections = left;
              idle_since = if left == 0 then some now else (account.lives id).idle_since;
            })
            account.lives;
    }

-- `Account::bridge_ready`
unfoldable pub bridge_ready : Account → Bool
bridge_ready account = account.ready && not (account.socks_port == 0)

abbrev pub since : ℕ → Option ℕ → ℕ
since now none = now
since now (some at) = at

-- `idle_expired`, and what it leaves in `idle_since`. `duration_since` stops at 0.
unfoldable pub idle_expired : Live → ℕ → ℕ → Bool × Option ℕ
idle_expired live now timeout =
    if ltb 0 live.connections
    then (false, live.idle_since)
    else (leb timeout (now - since now live.idle_since), some (since now live.idle_since))

-- `Account::reap` for the tunnel that is there.
unfoldable pub reap_live : ℕ → ℕ → Account → Account
unfolding idle_expired
reap_live now id account =
    let live = account.lives id in
    let (expired, idle) = idle_expired live now account.config.idle_timeout in
    if expired
    then record account {
      lives = set_live id (record live { idle_since = none }) account.lives;
      ready = false;
      generation = add_one account.generation;
      socks_port = 0;
      tunnel = none;
    }
    else record account {
      lives =
          set_live id (record live { idle_since = if ltb 0 live.connections then none else idle })
            account.lives;
    }

-- `Account::reap` with what is in the slot.
unfoldable pub reap_at : ℕ → Account → Option ℕ → Account
unfolding reap_live
reap_at now account none = account
reap_at now account (some id) = reap_live now id account

unfoldable pub reap : ℕ → Account → Account
unfolding reap_at
reap now account = reap_at now account account.tunnel

-- `Tunnel::active_tunnels`
unfoldable pub active_tunnels : Account → ℕ
active_tunnels account = if account.ready then 1 else 0

-- `Tunnel::proxy_url`
unfoldable pub proxy_url : Account → Option Text
unfolding decimal
proxy_url account =
    if account.socks_port == 0
    then none
    else some (codes "socks5h://127.0.0.1:" ++ decimal account.socks_port)

-- `Tunnel::exit_for`
unfoldable pub exit_for : Account → Exit
exit_for account = record { ip = account.ip; region = account.region; protocol = codes "openvpn" }

-- `serve_socks`: the handshake with a client of the bridge, whose connection is opened by the tunnel.
-- The texts of IPv6 addresses and of bytes are arguments.
unfoldable pub serve_socks :
    (ipv6_text lossy : List ℕ → Text) → (Text → ℕ → Bool) → List ℕ → Handled
unfolding handle
serve_socks ipv6_text lossy opens stream =
    handle ipv6_text lossy (some tt) (λ (tunnel : Unit {0}). opens) stream
