-- ===== src/Ssh/Tunnel/World.antt =====
-- src/ssh/mod.rs: how the manager, the tasks that open sessions, those that use the pool and the
-- peers take turns. The manager reads the number of sessions and that of connections in two steps.
use unroxy.Base.{ℕ, ◌+◌, ◌-◌, ◌<◌, Bool, true, map, is_some, ◌==◌, if◌then◌else◌, ◌≡◌}
use unroxy.Ssh.Tunnel.{
  Config, Session, Inner, start_with, pick_session, live, terminate, reap, retire_pending, begin,
  connected, failed, released,
}

-- What the manager has read for its next round: nothing, the sessions, or the connections as well.
pub data Look : Type 0 where
  waiting : Look
  counted : ℕ → Look
  summed : ℕ → ℕ → Look

-- The pool with the tasks that open a session, and those that have, and are not counted off yet.
pub record World : Type 0 where
  pub inner : Inner
  pub look : Look
  pub running : ℕ
  pub finishing : ℕ

abbrev pub close_session : ℕ → Session → Session
close_session id s = if s.id == id then record s { closed = true } else s

-- The steps of the manager, of its tasks, of those that use the pool, and of the peers.
pub data Step (w u : World) : Type 0 where
  looked : u ≡ record w { look = counted (live w.inner) } → Step w u
  added :
      (sessions : ℕ)
      → w.look ≡ counted sessions
      → u ≡ record w { look = summed sessions w.inner.connecting }
      → Step w u
  begun :
      (permit : Bool) (now sessions connecting : ℕ)
      → w.look ≡ summed sessions connecting
      → u ≡ record w {
        inner = (begin permit now sessions connecting w.inner).1;
        look = waiting;
        running =
            if is_some (begin permit now sessions connecting w.inner).0
            then w.running + 1
            else w.running;
      }
      → Step w u
  opened :
      (index : ℕ) (session : Session)
      → 0 < w.running
      → u ≡ record w {
        inner = connected index session w.inner;
        running = w.running - 1;
        finishing = w.finishing + 1;
      }
      → Step w u
  refused :
      (index now : ℕ)
      → 0 < w.running
      → u ≡ record w {
        inner = failed index now w.inner;
        running = w.running - 1;
        finishing = w.finishing + 1;
      }
      → Step w u
  finished :
      0 < w.finishing
      → u ≡ record w { inner = released w.inner; finishing = w.finishing - 1 }
      → Step w u
  reaped : u ≡ record w { inner = reap w.inner } → Step w u
  retired : u ≡ record w { inner = retire_pending w.inner } → Step w u
  asked : (count : ℕ) → u ≡ record w { inner = terminate count w.inner } → Step w u
  picked : u ≡ record w { inner = (pick_session w.inner).1 } → Step w u
  closed_by_peer :
      (id : ℕ)
      → u ≡ record w {
        inner = record (w.inner) { sessions = map (close_session id) w.inner.sessions };
      }
      → Step w u

pub data Reach (w : World) : World → Type 0 where
  here : Reach w w
  next : {u v : World} → Reach w u → Step u v → Reach w v

abbrev pub new_world : Config → ℕ → ℕ → World
new_world config account_count socks_port = record {
  inner = start_with config account_count socks_port;
  look = waiting;
  running = 0;
  finishing = 0;
}
