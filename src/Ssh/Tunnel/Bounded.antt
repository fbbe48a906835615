-- ===== src/Ssh/Tunnel/Bounded.antt =====
-- How far the pool can grow, however the tasks that open sessions end and interleave. The manager reads
-- the number of sessions and then that of connections, and the tasks move on in between.
use mathlib.Core.Path.{subst}
use unroxy.Base.{
  ℕ, zero, suc, ◌+◌, ◌-◌, ◌*◌, ◌^◌, ◌∙◌, ◌≤◌, ◌<◌, max, Bool, true, false, not, Option, none, some,
  List, [], ◌∷◌, map, length, length-append, length-filter, length-take, any, filter, take, is_some,
  ◌==◌, if◌then◌else◌, ◌≡◌, refl, sym, ap, arith, Bool-cases, inl, inr,
}
use unroxy.Ssh.Tunnel.{
  Config, Session, Inner, start_with, pick_session, live, terminate, reap, retire, retire_pending,
  pick_account, begin_with, begin, connected, failed, released,
}
use unroxy.Ssh.Tunnel.World.{
  Look, waiting, counted, summed, World, close_session, Step, looked, added, begun, opened, refused,
  finished, reaped, retired, asked, picked, closed_by_peer, Reach, here, next, new_world,
}

-- `total` counts the sessions and those that are being opened, `tasks` the connections.
abbrev Bounds : ℕ → ℕ → ℕ → ℕ → Type 0
Bounds target total connecting tasks =
    (total ≤ 2 * target) × (connecting ≡ tasks) × (tasks ≤ target)

-- What the manager has read may be old, but not by more than the size.
abbrev Seen : ℕ → ℕ → ℕ → Look → Type 0
Seen target total tasks waiting = Unit
Seen target total tasks (counted sessions) = total ≤ sessions + target
Seen target total tasks (summed sessions connecting) =
    (total ≤ sessions + target) × (tasks ≤ connecting)

-- At most twice the size of the pool in sessions together with those that are being opened, at most
-- the size in connections, and the count of connections is that of the tasks.
abbrev pub IsBounded : ℕ → World → Type 0
IsBounded size w =
    (w.inner.target_pool ≡ size)
    × Bounds size (live w.inner + w.running) w.inner.connecting (w.running + w.finishing)

abbrev Holds : ℕ → World → Type 0
Holds size w =
    IsBounded size w × Seen size (live w.inner + w.running) (w.running + w.finishing) w.look

Seen-less :
    (size total total' tasks tasks' : ℕ) (look : Look)
    → total' ≤ total
    → tasks' ≤ tasks
    → Seen size total tasks look
    → Seen size total' tasks' look
Seen-less size total total' tasks tasks' waiting fewer done s = tt
Seen-less size total total' tasks tasks' (counted sessions) fewer done s = omega (arith, fewer, s)
Seen-less size total total' tasks tasks' (summed sessions connecting) fewer done (s, t) =
    (omega (arith, fewer, s), omega (arith, done, t))

-- A step that neither adds to the sessions and those that are being opened nor to the connections.
shrinks :
    (size : ℕ) (w u : World)
    → u.look ≡ w.look
    → u.inner.target_pool ≡ w.inner.target_pool
    → live u.inner + u.running ≤ live w.inner + w.running
    → u.running + u.finishing ≤ w.running + w.finishing
    → u.inner.connecting ≡ u.running + u.finishing
    → Holds size w
    → Holds size u
shrinks size w u same target fewer done count ((t, (l, c, r)), s) = (
  (target ∙ t, (omega (arith, fewer, l), count, omega (arith, done, r))),
  subst (Seen size (live u.inner + u.running) (u.running + u.finishing)) (sym same) (
      Seen-less size (live w.inner + w.running) (live u.inner + u.running) (w.running + w.finishing)
        (u.running + u.finishing) w.look fewer done s),
)

length-map : (f : Session → Session) (s : List Session) → length (map f s) ≡ length s
length-map f [] = refl
length-map f (x ∷ s) = ap suc (length-map f s)

retire_le : (rounds : ℕ) (s : List Session) → length (retire rounds s).0 ≤ length s
unfolding retire
retire_le zero s = omega arith
retire_le (suc rounds) [] = retire_le rounds []
retire_le (suc rounds) (x ∷ s) =
    omega (arith, retire_le rounds (take (length s) (x ∷ s)), length-take (length s) (x ∷ s))

-- What begins a session counts it.
begin_with-IsBounded :
    (permit : Bool) (index : Option ℕ) (inner : Inner)
    → (size running finishing sessions connecting : ℕ) → size < 2 ^ 32
    → sessions + connecting < size
    → Seen size (live inner + running) (running + finishing) (summed sessions connecting)
    → (inner.target_pool ≡ size)
      × Bounds size (live inner + running) inner.connecting (running + finishing)
    → IsBounded size (record {
      inner = (begin_with permit index inner).1;
      look = waiting;
      running = if is_some (begin_with permit index inner).0 then running + 1 else running;
      finishing = finishing;
    })
unfolding begin_with
begin_with-IsBounded permit none inner size running finishing sessions connecting small room s b = b
begin_with-IsBounded false (some account) inner size running finishing sessions connecting small
      room s b =
    b
begin_with-IsBounded true (some account) inner size running finishing sessions connecting small room
      (seen, tasks) (t, (l, c, r)) =
    (t, (omega arith, omega arith, omega arith))

begin-IsBounded :
    (permit : Bool) (now sessions connecting : ℕ) (w : World) (size : ℕ)
    → size < 2 ^ 32
    → Seen size (live w.inner + w.running) (w.running + w.finishing) (summed sessions connecting)
    → IsBounded size w
    → IsBounded size (record w {
      inner = (begin permit now sessions connecting w.inner).1;
      look = waiting;
      running =
          if is_some (begin permit now sessions connecting w.inner).0
          then w.running + 1
          else w.running;
    })
unfolding begin pick_account
begin-IsBounded permit now sessions connecting w size small s b =
    elim (Bool-cases (w.inner.target_pool - (sessions + connecting) == 0)) [
      | inl e ↦ rw (e) b
      | inr e ↦ rw (e) (
          begin_with-IsBounded permit (pick_account now w.inner).0 (pick_account now w.inner).1 size
            w.running w.finishing sessions connecting small (ground (arith, e, b.0)) s b)
    ]

length-reap : (inner : Inner) → length (reap inner).sessions ≤ length inner.sessions
unfolding reap
length-reap inner = elim (Bool-cases (any (λ s. s.closed) inner.sessions)) [
  | inl e ↦ rw (e) (
      length-filter
        (λ s. not (any (λ dead. dead.id == s.id) (filter (λ d. d.closed) inner.sessions)))
        inner.sessions)
  | inr e ↦ rw (e) (omega arith)
]

abbrev SameCounts : Inner → Inner → Type 0
SameCounts a b = (a.target_pool ≡ b.target_pool) × (a.connecting ≡ b.connecting)

reap_same : (inner : Inner) → SameCounts (reap inner) inner
unfolding reap
reap_same inner = elim (Bool-cases (any (λ s. s.closed) inner.sessions)) [
  | inl e ↦ rw (e) (refl, refl)
  | inr e ↦ rw (e) (refl, refl)
]

pick_session_same :
    (inner : Inner)
    → SameCounts (pick_session inner).1 inner
      × (length (pick_session inner).1.sessions ≡ length inner.sessions)
unfolding pick_session
pick_session_same inner =
    elim (Bool-cases (length (filter (λ s. not s.closed) inner.sessions) == 0)) [
      | inl e ↦ rw (e) ((refl, refl), refl)
      | inr e ↦ rw (e) ((refl, refl), refl)
    ]

-- A step that changes the pool alone.
pool_shrinks :
    (size : ℕ) (w : World) (inner : Inner)
    → SameCounts inner w.inner
    → length inner.sessions ≤ length w.inner.sessions
    → Holds size w
    → Holds size (record w { inner = inner })
pool_shrinks size w inner (target, count) fewer ((t, (l, c, r)), s) =
    shrinks size w (record w { inner = inner }) refl target (omega (arith, fewer)) (omega arith)
      (count ∙ c) ((t, (l, c, r)), s)

Step-Holds : (size : ℕ) (w u : World) → size < 2 ^ 32 → Step w u → Holds size w → Holds size u
unfolding connected failed released retire_pending terminate
Step-Holds size w u small (looked e) ((t, (l, c, r)), s) =
    subst (Holds size) (sym e) ((t, (l, c, r)), omega (arith, r))
Step-Holds size w u small (added sessions look e) ((t, (l, c, r)), s) =
    let seen = subst (Seen size (live w.inner + w.running) (w.running + w.finishing)) look s in
    subst (Holds size) (sym e) ((t, (l, c, r)), (seen, omega (arith, c)))
Step-Holds size w u small (begun permit now sessions connecting look e) (b, s) =
    let seen = subst (Seen size (live w.inner + w.running) (w.running + w.finishing)) look s in
    subst (Holds size) (sym e)
      (begin-IsBounded permit now sessions connecting w size small seen b, tt)
Step-Holds size w u small (opened index session some_running e) ((t, (l, c, r)), s) =
    let grown = length-append w.inner.sessions (session ∷ []) in
    subst (Holds size) (sym e) (
      shrinks size w
        (record w {
          inner = connected index session w.inner;
          running = w.running - 1;
          finishing = w.finishing + 1;
        })
        refl refl (omega (arith, grown, some_running)) (omega (arith, some_running))
        (omega (arith, some_running, c)) ((t, (l, c, r)), s))
Step-Holds size w u small (refused index now some_running e) ((t, (l, c, r)), s) =
    subst (Holds size) (sym e) (
      shrinks size w
        (record w {
          inner = failed index now w.inner;
          running = w.running - 1;
          finishing = w.finishing + 1;
        })
        refl refl (omega arith) (omega (arith, some_running)) (omega (arith, some_running, c))
        ((t, (l, c, r)), s))
Step-Holds size w u small (finished some_finishing e) ((t, (l, c, r)), s) =
    subst (Holds size) (sym e) (
      shrinks size w (record w { inner = released w.inner; finishing = w.finishing - 1 }) refl refl
        (omega arith) (omega (arith, some_finishing)) (omega (arith, some_finishing, c, r, small))
        ((t, (l, c, r)), s))
Step-Holds size w u small (reaped e) h =
    subst (Holds size) (sym e)
      (pool_shrinks size w (reap w.inner) (reap_same w.inner) (length-reap w.inner) h)
Step-Holds size w u small (retired e) h = subst (Holds size) (sym e) (
    pool_shrinks size w (retire_pending w.inner) (refl, refl)
      (retire_le w.inner.terminate_pending w.inner.sessions) h)
Step-Holds size w u small (asked count e) h =
    subst (Holds size) (sym e)
      (pool_shrinks size w (terminate count w.inner) (refl, refl) (omega arith) h)
Step-Holds size w u small (picked e) h =
    let (same, sessions) = pick_session_same w.inner in
    subst (Holds size) (sym e)
      (pool_shrinks size w (pick_session w.inner).1 same (omega (arith, sessions)) h)
Step-Holds size w u small (closed_by_peer id e) h = subst (Holds size) (sym e) (
    pool_shrinks size w (record (w.inner) { sessions = map (close_session id) w.inner.sessions })
      (refl, refl) (omega (arith, length-map (close_session id) w.inner.sessions)) h)

-- However the manager, the tasks that open sessions and the peers take turns, the pool of a tunnel
-- that was started with a size of 32 bits has at most twice that size, or two for the size 0, in
-- sessions, open or closed, and running connections together; its connections, with those that are
-- not counted off yet, are never more than the size, or than one; and its count is theirs.
pub Reach-IsBounded :
    (config : Config) (account_count socks_port : ℕ) (w : World)
    → config.pool_size < 2 ^ 32
    → Reach (new_world config account_count socks_port) w
    → IsBounded (max config.pool_size 1) w
unfolding start_with
Reach-IsBounded config account_count socks_port w small reached = (go reached).0
  where
    go :
        {u : World}
        → Reach (new_world config account_count socks_port) u
        → Holds (max config.pool_size 1) u
    go here = ((refl, (omega arith, refl, omega arith)), tt)
    go (next {u = u} {v = v} before step) =
        Step-Holds (max config.pool_size 1) u v (omega arith) step (go before)
