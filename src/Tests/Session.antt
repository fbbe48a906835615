-- ===== src/Tests/Session.antt =====
-- The control session and its TLS session at concrete inputs.
use unroxy.Base.{ℕ, true, false, none, some, ◌≡◌, refl, arith, List, [], ◌∷◌, replicate, err, inr}
use unroxy.Base.Text.{codes}
use unroxy.OpenVpn.Config.{udp, aes128_gcm, sha1}
use unroxy.OpenVpn.Error.{tls}
use unroxy.OpenVpn.Replay
use unroxy.OpenVpn.Control.{Control, send_control_chunks}
use unroxy.OpenVpn.Control.Sent.{IsOpen, Sends, send_control_chunks-Sends, NoRepeats}
use unroxy.OpenVpn.Control.Reorder.{Ordered, accept_all, accept_all-Ordered}
use unroxy.OpenVpn.Tls.Session.{Btls, ops, TlsState, failure, empty_stream, drive, feed, is_ready}
use unroxy.OpenVpn.Tls.Session.Life.{drive-closes}
use unroxy.OpenVpn.Tls.Session.Feeds.{IsLive, fed_by, ops-Feeds}

abbrev session_on : {T : Type 0} → T → Control T
session_on t = record {
  transport = record { protocol = udp; up = true; sent = [] };
  tls = t;
  session_id = replicate 8 1;
  remote_session_id = replicate 8 2;
  next_packet_id = 1;
  cipher = aes128_gcm;
  auth = sha1;
  keys = none;
  seed = none;
  peer_id = 0;
  send_counter = 0;
  replay = Replay.new;
  acked = 0 ∷ [];
  last_payload = [];
  recv_next = 1;
  reorder = [];
}

abbrev session : Control (List ℕ)
session = session_on []

session-IsOpen : IsOpen session
session-IsOpen = record {
  up = refl;
  datagrams = refl;
  own_id = refl;
  peer_id_size = refl;
  next_u32_range = omega arith;
}

send_control_chunks-Sends_example :
    Sends session (replicate 2000 5) (send_control_chunks (replicate 2000 5) session)
send_control_chunks-Sends_example =
    send_control_chunks-Sends session (replicate 2000 5) session-IsOpen

abbrev acks : List ℕ
acks = 4 ∷ (3 ∷ (2 ∷ (1 ∷ [])))

acks-NoRepeats : NoRepeats acks
acks-NoRepeats = unfold NoRepeats in (refl, (refl, (refl, (refl, tt))))

-- A library whose handshake fails, which reads nothing, and takes one byte at a time.
abbrev failing : Btls (Unit {0})
failing = record {
  handshake = λ s. failure (codes "alert");
  ssl_read = λ s. (none, s);
  ssl_write = λ s bytes. (elim bytes [ [] ↦ some 0 | b ∷ bs ↦ some 1 ], s);
  readable = λ s. 0;
}

abbrev open_state : TlsState (Unit {0})
open_state = record {
  handshake = none;
  stream = some (tt, empty_stream);
  plaintext = [];
  offset = 0;
  pending = 8 ∷ [];
}

open_state-ready : is_ready open_state ≡ true
open_state-ready = unfold is_ready in refl

abbrev starting : TlsState (Unit {0})
starting = record {
  handshake = some (tt, empty_stream);
  stream = none;
  plaintext = [];
  offset = 0;
  pending = [];
}

starting-fails : (drive failing starting).0 ≡ err (tls (codes "alert"))
starting-fails = unfold drive in refl

drive-closes_example :
    (is_ready (drive failing starting).1 ≡ false)
    × ((feed failing (drive failing starting).1 (1 ∷ [])).0 ≡ err (tls (codes "tls closed")))
drive-closes_example = drive-closes failing starting (1 ∷ []) (inr refl) starting-fails

-- Packets of the peer that arrive in another order, for a session in its handshake.
abbrev payload_of : ℕ → List ℕ
payload_of n = n ∷ []

abbrev in_handshake : Control (TlsState (Unit {0}))
in_handshake = session_on starting

abbrev IsInOrder : Control (TlsState (Unit {0})) → Type 0
IsInOrder = Ordered (ops failing) IsLive (fed_by failing) (ops-Feeds failing) payload_of 1 starting

in_handshake-IsInOrder : IsInOrder in_handshake
in_handshake-IsInOrder = record {
  count = 0;
  expected = refl;
  below = omega arith;
  in_order = refl;
  live = refl;
  queued = tt;
  bounded = omega arith;
}

accept_all-Ordered_example : IsInOrder (
    accept_all
      (ops failing)
      IsLive
      (fed_by failing)
      (ops-Feeds failing)
      payload_of
      1
      starting
      (2 ∷ (3 ∷ (1 ∷ (2 ∷ []))))
      in_handshake)
accept_all-Ordered_example =
    accept_all-Ordered (ops failing) IsLive (fed_by failing) (ops-Feeds failing) payload_of 1
      starting (2 ∷ (3 ∷ (1 ∷ (2 ∷ [])))) in_handshake
      (omega arith, (omega arith, (omega arith, (omega arith, tt)))) in_handshake-IsInOrder
