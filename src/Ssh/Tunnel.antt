-- ===== src/Ssh/Tunnel.antt =====
-- src/ssh/mod.rs: the pool of SSH sessions of a region and the task that fills it. A session is its
-- address in memory with what the pool asks of it; the outcome of a connection and the time are
-- arguments. The waits between two looks are steps of their own.
pub mod Rotation
pub mod World
pub mod Bounded
use unroxy.Base.{
  ℕ, zero, suc, ◌+◌, ◌-◌, ◌*◌, ◌%◌, ◌^◌, min, max, Bool, true, false, not, ◌&&◌, Option, none, some,
  List, [], ◌∷◌, ◌++◌, length, get_or, set, replicate, any, filter, take, leb, ltb, ◌==◌,
  if◌then◌else◌,
}
use unroxy.Base.Text.{Text, codes}
use unroxy.Proxy.Exit.{Exit, Cache}
use unroxy.Proxy.Server.Index.{decimal}

pub record Config : Type 0 where
  pub region : Text
  pub pool_size : ℕ
  pub client_platform : Text
  pub sponsor_id : Text
  pub propagation_channel_id : Text

-- `Config::default`
abbrev pub default_config : Config
default_config = record {
  region = [];
  pool_size = 1;
  client_platform = codes "Windows";
  sponsor_id = codes "FFFFFFFFFFFFFFFF";
  propagation_channel_id = codes "FFFFFFFFFFFFFFFF";
}

-- What the pool asks of a session.
pub record Session : Type 0 where
  pub id : ℕ
  pub ip : Text
  pub protocol : Text
  pub closed : Bool

-- `Inner`, without the settings that are only handed to new sessions.
pub record Inner : Type 0 where
  pub region : Text
  pub target_pool : ℕ
  pub socks_port : ℕ
  pub sessions : List Session
  pub account_not_before : List ℕ
  pub account_failures : List ℕ
  pub rotate : ℕ
  pub terminate_pending : ℕ
  pub connecting : ℕ
  pub generation : ℕ

-- `fetch_add(1)` on 64 bits, which wraps.
abbrev pub add_one : ℕ → ℕ
add_one n = (n + 1) % 2 ^ 64

abbrev pub sub_one : ℕ → ℕ
sub_one n = (n + (2 ^ 64 - 1)) % 2 ^ 64

-- The state of `Tunnel::start_with`, for so many accounts and the port that was bound.
unfoldable pub start_with : Config → ℕ → ℕ → Inner
start_with config account_count socks_port = record {
  region = config.region;
  target_pool = max config.pool_size 1;
  socks_port = socks_port;
  sessions = [];
  account_not_before = replicate account_count 0;
  account_failures = replicate account_count 0;
  rotate = 0;
  terminate_pending = 0;
  connecting = 0;
  generation = 0;
}

abbrev pub open_sessions : Inner → List Session
open_sessions inner = filter (λ s. not s.closed) inner.sessions

abbrev no_session : Session
no_session = record { id = 0; ip = []; protocol = []; closed = true }

-- One look of `pick_session`: a session that is open, in turn.
unfoldable pub pick_session : Inner → Option Session × Inner
pick_session inner =
    let count = length (open_sessions inner) in
    if count == 0 then (none, inner) else (
      some (get_or (open_sessions inner) (inner.rotate % count) no_session),
      record inner { rotate = add_one inner.rotate },
    )

-- `Inner::live`
abbrev pub live : Inner → ℕ
live inner = length inner.sessions

-- `Inner::ready`
abbrev pub ready : Inner → ℕ
ready inner = length (open_sessions inner)

-- `Inner::record_exit`, of which the cache is a parameter.
unfoldable pub record_exit : (cache : Cache) → Text → Session → Inner → cache.Lru → cache.Lru
record_exit cache host session inner exits =
    cache.put (cache.to_lowercase host)
      (record { ip = session.ip; region = inner.region; protocol = session.protocol }) exits

-- `Tunnel::exit_for`
unfoldable pub exit_for : (cache : Cache) → Text → cache.Lru → Exit
exit_for cache host exits = elim (cache.peek (cache.to_lowercase host) exits) [
  | none ↦ record { ip = []; region = []; protocol = [] }
  | some exit ↦ exit
]

-- `Tunnel::is_ready`
abbrev pub is_ready : Inner → Bool
is_ready inner = ltb 0 (ready inner)

-- `Tunnel::socks_addr` and `Tunnel::proxy_url`
unfoldable pub socks_addr : Inner → Text
unfolding decimal
socks_addr inner = codes "127.0.0.1:" ++ decimal inner.socks_port

unfoldable pub proxy_url : Inner → Text
unfolding socks_addr
proxy_url inner = codes "socks5h://" ++ socks_addr inner

-- `Tunnel::terminate`
unfoldable pub terminate : ℕ → Inner → Inner
terminate count inner = record inner {
  terminate_pending = (inner.terminate_pending + count) % 2 ^ 64;
}

-- `reap`
unfoldable pub reap : Inner → Inner
reap inner =
    if any (λ s. s.closed) inner.sessions
    then record inner {
      sessions =
          filter (λ s. not (any (λ dead. dead.id == s.id) (filter (λ d. d.closed) inner.sessions)))
            inner.sessions;
      generation = add_one inner.generation;
    }
    else inner

-- `Vec::pop`, for the sessions that are left.
abbrev pub pop : List Session → Option (List Session)
pop [] = none
pop (s ∷ sessions) = some (take (length sessions) (s ∷ sessions))

-- The sessions after so many rounds that take the last one, and how many were taken.
unfoldable pub retire : ℕ → List Session → List Session × ℕ
retire zero sessions = (sessions, 0)
retire (suc rounds) sessions = elim (pop sessions) [
  | none ↦ retire rounds sessions
  | some kept ↦ let (left, retired) = retire rounds kept in (left, retired + 1)
]

-- The part of `manage` that closes sessions on demand.
unfoldable pub retire_pending : Inner → Inner
unfolding retire
retire_pending inner =
    let (sessions, retired) = retire inner.terminate_pending inner.sessions in
    record inner {
      terminate_pending = 0;
      sessions = sessions;
      generation = if ltb 0 retired then add_one inner.generation else inner.generation;
    }

-- The rounds of `pick_account` that are left, and the counter behind them.
unfoldable pub pick_from : ℕ → List ℕ → ℕ → ℕ → Option ℕ × ℕ
pick_from zero not_before now rotate = (none, rotate)
pick_from (suc rounds) not_before now rotate =
    let index = rotate % length not_before in
    let later = pick_from rounds not_before now (add_one rotate) in
    if leb (get_or not_before index 0) now then (some index, add_one rotate) else later

-- `pick_account`
unfoldable pub pick_account : ℕ → Inner → Option ℕ × Inner
unfolding pick_from
pick_account now inner =
    let (index, rotate) =
      pick_from (length inner.account_not_before) inner.account_not_before now inner.rotate in
    (index, record inner { rotate = rotate })

-- The account that was picked, if its session is begun.
unfoldable pub begin_with : Bool → Option ℕ → Inner → Option ℕ × Inner
begin_with permit none inner = (none, inner)
begin_with false (some account) inner = (none, inner)
begin_with true (some account) inner =
    (some account, record inner { connecting = add_one inner.connecting })

-- One round of the loop of `manage` that opens sessions: the account whose session is begun, if any.
-- `sessions` and `connecting` are what it has read of `live` and of `connecting`, one after the other,
-- and the tasks may have moved on since. `permit` is whether a handshake may begin.
unfoldable pub begin : (permit : Bool) (now sessions connecting : ℕ) → Inner → Option ℕ × Inner
unfolding pick_account begin_with
begin permit now sessions connecting inner =
    let (index, inner') = pick_account now inner in
    if inner.target_pool - (sessions + connecting) == 0
    then (none, inner)
    else begin_with permit index inner'

-- The wait after so many failures, in milliseconds.
unfoldable pub backoff : ℕ → ℕ
backoff failures = min (1000 * 2 ^ min failures 6) 300000

-- The end of a task whose session was opened, up to the count.
unfoldable pub connected : ℕ → Session → Inner → Inner
connected index session inner = record inner {
  account_failures = set inner.account_failures index 0;
  account_not_before = set inner.account_not_before index 0;
  sessions = inner.sessions ++ (session ∷ []);
}

-- The end of a task whose session was not opened, up to the count.
unfoldable pub failed : ℕ → ℕ → Inner → Inner
unfolding backoff
failed index now inner =
    let failures = add_one (get_or inner.account_failures index 0) in
    record inner {
      account_failures = set inner.account_failures index failures;
      account_not_before = set inner.account_not_before index ((now + backoff failures) % 2 ^ 64);
    }

-- The last line of a task.
unfoldable pub released : Inner → Inner
released inner = record inner { connecting = sub_one inner.connecting }
