-- ===== src/OpenVpn/Control/Receive.antt =====
-- src/openvpn/control.rs: what the session does with the packets that it receives.
-- A receiving loop runs over the outcomes of `recv_packet` until its deadline, a list of events.
use unroxy.Base.{
  ℕ, zero, suc, Bool, not, ◌&&◌, ◌||◌, Option, none, some, List, [], ◌∷◌, length, take, ltb, ◌==◌,
  if◌then◌else◌,
}
use unroxy.Base.{Result, ok, err, panic}
use unroxy.OpenVpn.Config.{Protocol, udp, tcp}
use unroxy.OpenVpn.DataCipher.{Crypto}
use unroxy.OpenVpn.DataCipher
use unroxy.OpenVpn.Error.{Error, timeout}
use unroxy.OpenVpn.Packet.{
  Packet, parse, p_control_v1, p_data_v1, p_data_v2, p_control_hard_reset_server_v2,
}
use unroxy.OpenVpn.Replay.{accept}
use unroxy.OpenVpn.Tls.{TlsOps}
use unroxy.OpenVpn.Control.{
  Step, ◌>>=◌, ◌>>◌, on_tls, next_u32, send_ack, flush_tls, retransmit_control,
}

-- A packet that arrived, a wait in which none did, or an error of the socket. The flag tells whether
-- more than two seconds have passed since the last retransmission.
pub data Event : Type 0 where
  arrived : List ℕ → Bool → Event
  silent : Bool → Event
  broken : Error → Event

-- The packet that `recv_packet` makes of what arrived: a datagram is cut to the buffer's 2048 bytes.
unfoldable pub received : Protocol → List ℕ → List ℕ
received udp raw = take 2048 raw
received tcp raw = raw

-- `BTreeMap::insert` and `BTreeMap::remove` on a list by rising keys.
unfoldable pub insert : ℕ → List ℕ → List (ℕ × List ℕ) → List (ℕ × List ℕ)
insert k v [] = (k, v) ∷ []
insert k v ((j, w) ∷ m) =
    if ltb k j then (k, v) ∷ ((j, w) ∷ m) else if k == j then (k, v) ∷ m else (j, w) ∷ insert k v m

unfoldable pub lookup : ℕ → List (ℕ × List ℕ) → Option (List ℕ)
lookup k [] = none
lookup k ((j, w) ∷ m) = if k == j then some w else lookup k m

unfoldable pub remove : ℕ → List (ℕ × List ℕ) → List (ℕ × List ℕ)
remove k [] = []
remove k ((j, w) ∷ m) = if k == j then m else (j, w) ∷ remove k m

module _ {T : Type 0} (ops : TlsOps T) where
  -- `tls.feed(&payload)?` and the step to the next id.
  unfoldable pub feed_next : List ℕ → Step T (Unit {0})
  feed_next payload = do
    on_tls (λ t. ops.feed t payload)
    λ c. (ok tt, record c { recv_next = next_u32 c.recv_next })

  -- The `while let` loop: it takes an entry of the map in each round, so the entries are fuel.
  unfoldable pub feed_queued : ℕ → Step T (Unit {0})
  unfolding feed_next lookup remove
  feed_queued zero c = (ok tt, c)
  feed_queued (suc fuel) c = elim (lookup c.recv_next c.reorder) [
    | none ↦ (ok tt, c)
    | some payload ↦
        (feed_next payload >> feed_queued fuel)
          (record c { reorder = remove c.recv_next c.reorder })
  ]

  unfoldable pub accept_control : ℕ → List ℕ → Step T (Unit {0})
  unfolding feed_next feed_queued insert
  accept_control packet_id payload c =
      if ltb packet_id c.recv_next
      then (ok tt, c)
      else if ltb c.recv_next packet_id
      then (
        ok tt,
        if ltb (length c.reorder) 32
            then record c { reorder = insert packet_id payload c.reorder }
            else c,
      )
      else (feed_next payload >> (λ c'. feed_queued (length c'.reorder) c')) c

  -- The arm of `P_CONTROL_V1` in both loops.
  unfoldable pub on_control : Packet → Step T (Unit {0})
  unfolding accept_control
  on_control packet = do
    send_ack packet.packet_id
    accept_control packet.packet_id packet.payload
    on_tls ops.drive
    flush_tls ops

  -- The branch of `pump` for a wait without a packet.
  unfoldable pub resend_if : Bool → Step T (Unit {0})
  resend_if due c = if not (ops.is_ready c.tls) && due then retransmit_control c else (ok tt, c)

  -- What `pump` does with a datagram; `wait` and `skip` go on with the events behind it.
  unfoldable pub on_parsed :
      Step T (List Event)
      → Step T (List Event)
      → List Event
      → Result Error (Option Packet)
      → Step T (List Event)
  unfolding on_control
  on_parsed wait skip events (err e) c = (err e, c)
  on_parsed wait skip events panic c = (panic, c)
  on_parsed wait skip events (ok none) c = wait c
  on_parsed wait skip events (ok (some packet)) c =
      if packet.opcode == p_control_v1
      then (on_control packet >>= λ _. λ c'. (ok events, c')) c
      else skip c

  -- `pump`: until a control packet is taken. What is left of the events comes back.
  unfoldable pub pump : List Event → Step T (List Event)
  unfolding on_parsed resend_if received
  pump [] c = (err timeout, c)
  pump (broken e ∷ events) c = (err e, c)
  pump (silent due ∷ events) c = (resend_if due >>= λ _. pump events) c
  pump (arrived raw due ∷ events) c =
      on_parsed (resend_if due >>= λ _. pump events) (pump events) events
        (parse (received c.transport.protocol raw)) c

  module _ {C : Type 0} (crypto : Crypto C) where
    -- A packet of data under the session's keys; `none` is one that is passed over.
    unfoldable pub open_data : Packet → Step T (Option (List ℕ))
    open_data packet c = elim (c.keys) [
      | none ↦ (ok none, c)
      | some keys ↦ elim (DataCipher.decrypt crypto keys.decrypt packet.header packet.payload) [
        | err e ↦ (err e, c)
        | panic ↦ (panic, c)
        | ok (counter, plaintext) ↦
            let (window, fresh) = accept c.replay counter in
            (ok (if fresh then some plaintext else none), record c { replay = window })
      ]
    ]

    abbrev is_data : Packet → Bool
    is_data packet = (packet.opcode == p_data_v1) || (packet.opcode == p_data_v2)

    -- What `recv_data` does with one packet.
    unfoldable pub on_packet : Packet → Step T (Option (List ℕ))
    unfolding open_data on_control
    on_packet packet =
        if is_data packet
        then open_data packet
        else if packet.opcode == p_control_v1
        then (on_control packet >>= λ _. λ c. (ok none, c))
        else if packet.opcode == p_control_hard_reset_server_v2
        then (send_ack packet.packet_id >>= λ _. λ c. (ok none, c))
        else λ c. (ok none, c)

    -- The loop ends with a plaintext and goes on without one.
    abbrev deliver : Step T (Option (List ℕ)) → Option (List ℕ) → Step T (Option (List ℕ))
    deliver again none = again
    deliver again (some plaintext) = λ c. (ok (some plaintext), c)

    -- `recv_data`: a plaintext, or `none` once a wait passes without a packet or time is up.
    unfoldable pub recv_data : List Event → Step T (Option (List ℕ))
    unfolding on_packet received
    recv_data [] c = (ok none, c)
    recv_data (broken e ∷ events) c = (err e, c)
    recv_data (silent due ∷ events) c = (ok none, c)
    recv_data (arrived raw due ∷ events) c = elim (parse (received c.transport.protocol raw)) [
      | err e ↦ (err e, c)
      | panic ↦ (panic, c)
      | ok none ↦ (ok none, c)
      | ok (some packet) ↦ (on_packet packet >>= deliver (recv_data events)) c
    ]
