-- ===== src/OpenVpn/Control.antt =====
-- src/openvpn/control.rs: the state of a control session and what it sends.
-- A method is a function of the state that gives a result and the state after it, on an error too:
-- the tunnel goes on after a failed call. Times do not appear: see Control/Receive.antt.
pub mod Receive
pub mod Queue
pub mod Reorder
pub mod DataPath
pub mod Sent
pub mod Handshake
use unroxy.Base.{
  ℕ, zero, suc, ◌+◌, ◌%◌, ◌^◌, Bool, true, false, Option, none, some, List, [], ◌∷◌, ◌++◌,
}
use unroxy.Base.{any, length, take, drop, ltb, ◌==◌, if◌then◌else◌, Result, ok, err, panic}
use unroxy.Base.Bytes.{be32}
use unroxy.Base.Text.{Text, codes}
use unroxy.OpenVpn.Config.{Auth, Cipher, Protocol, udp, tcp, size}
use unroxy.OpenVpn.DataCipher.{Crypto, DataCipher}
use unroxy.OpenVpn.DataCipher
use unroxy.OpenVpn.Error.{Error, control, io, other}
use unroxy.OpenVpn.Framing.{write_packet}
use unroxy.OpenVpn.Keys.{SeedData, Mac, KeyMaterial, derive}
use unroxy.OpenVpn.Packet.{
  PeerId, data_header, encode_acks, first_byte, p_control_v1, p_ack_v1, max_acks,
}
use unroxy.OpenVpn.Replay.{ReplayWindow}
use unroxy.OpenVpn.Tls.{TlsOps}

-- The socket: what it has sent, oldest first (datagrams, or framed packets), and whether it works.
pub record Transport : Type 0 where
  pub protocol : Protocol
  pub up : Bool
  pub sent : List (List ℕ)

pub record Keys : Type 0 where
  pub encrypt : DataCipher
  pub decrypt : DataCipher

pub record Control (T : Type 0) : Type 0 where
  pub transport : Transport
  pub tls : T
  pub session_id : List ℕ
  pub remote_session_id : List ℕ
  pub next_packet_id : ℕ
  pub cipher : Cipher
  pub auth : Auth
  pub keys : Option Keys
  pub seed : Option SeedData
  pub peer_id : PeerId
  pub send_counter : ℕ
  pub replay : ReplayWindow
  pub acked : List ℕ
  pub last_payload : List ℕ
  pub recv_next : ℕ
  -- The `BTreeMap` as an association list by rising keys.
  pub reorder : List (ℕ × List ℕ)

abbrev pub Step : Type 0 → Type 0 → Type 0
Step T A = Control T → Result Error A × Control T

infixl 5 ◌>>=◌ ◌>>◌
abbrev pub ◌>>=◌ : {T A B : Type 0} → Step T A → (A → Step T B) → Step T B
◌>>=◌ m f c =
    let (r, c') = m c in elim r [ ok a ↦ f a c' | err e ↦ (err e, c') | panic ↦ (panic, c') ]

abbrev pub ◌>>◌ : {T B : Type 0} → Step T (Unit {0}) → Step T B → Step T B
m >> k = m >>= λ _. k

-- A call into the TLS session.
abbrev pub on_tls : {T A : Type 0} → (T → Result Error A × T) → Step T A
on_tls f c = let (r, t) = f c.tls in (r, record c { tls = t })

-- `u32::wrapping_add(1)`
abbrev pub next_u32 : ℕ → ℕ
next_u32 n = (n + 1) % 2 ^ 32

-- `send_raw`: a datagram as it is, or a framed packet on a stream.
unfoldable pub send_on : Transport → List ℕ → Result Error Transport
send_on t payload =
    if t.up
    then (elim (t.protocol) [
      | udp ↦ ok (record t { sent = t.sent ++ (payload ∷ []) })
      | tcp ↦ elim (write_packet payload) [
        | ok frame ↦ ok (record t { sent = t.sent ++ (frame ∷ []) })
        | err e ↦ err e
        | panic ↦ panic
      ]
    ])
    else err (io other)

-- `record_ack`: the newest first, at most four.
unfoldable pub record_ack : ℕ → List ℕ → List ℕ
record_ack packet_id acked =
    if any (λ a. a == packet_id) acked then acked else take max_acks (packet_id ∷ acked)

abbrev pub max_control_payload : ℕ
max_control_payload = 1184

module _ {T : Type 0} where
  unfoldable pub send_raw : List ℕ → Step T (Unit {0})
  unfolding send_on
  send_raw payload c = elim (send_on c.transport payload) [
    | ok t ↦ (ok tt, record c { transport = t })
    | err e ↦ (err e, c)
    | panic ↦ (panic, c)
  ]

  -- `send_control`: the payload in a packet of its own, with the acknowledgements at hand.
  unfoldable pub send_control : List ℕ → Step T (Unit {0})
  unfolding send_raw
  send_control payload c =
      let packet_id = c.next_packet_id in
      let out =
        first_byte p_control_v1
        ∷ (c.session_id
            ++ (encode_acks c.acked c.remote_session_id ++ (be32 packet_id ++ payload))) in
      send_raw out (record c { next_packet_id = next_u32 packet_id; last_payload = payload })

  -- `retransmit_control`: the last payload once more, under the next packet id.
  unfoldable pub retransmit_control : Step T (Unit {0})
  unfolding send_raw
  retransmit_control c =
      let packet_id = c.next_packet_id in
      let out =
        first_byte p_control_v1 ∷ (c.session_id ++ (0 ∷ (be32 packet_id ++ c.last_payload))) in
      let sent = send_raw out (record c { next_packet_id = next_u32 packet_id }) in
      if length c.last_payload == 0 then (ok tt, c) else sent

  unfoldable pub send_ack : ℕ → Step T (Unit {0})
  unfolding send_raw record_ack
  send_ack packet_id c =
      let acked = record_ack packet_id c.acked in
      let out = first_byte p_ack_v1 ∷ (c.session_id ++ encode_acks acked c.remote_session_id) in
      send_raw out (record c { acked = acked })

  -- The loop of `send_control_chunks`, over the bytes from `offset` on.
  unfoldable pub send_chunks : ℕ → List ℕ → Step T (Unit {0})
  unfolding send_control
  send_chunks zero rest = λ c. (ok tt, c)
  send_chunks (suc fuel) [] = λ c. (ok tt, c)
  send_chunks (suc fuel) (b ∷ rest) = do
    send_control (take max_control_payload (b ∷ rest))
    send_chunks fuel (drop max_control_payload (b ∷ rest))

  -- Each round sends a byte at least, so as many rounds as bytes are enough.
  unfoldable pub send_control_chunks : List ℕ → Step T (Unit {0})
  unfolding send_chunks
  send_control_chunks bytes = send_chunks (length bytes) bytes

  module _ (ops : TlsOps T) where
    unfoldable pub flush_tls : Step T (Unit {0})
    unfolding send_control_chunks
    flush_tls c =
        let (outbound, t) = ops.take_outbound c.tls in
        send_control_chunks outbound (record c { tls = t })

module _ {T : Type 0} {C : Type 0} (crypto : Crypto C) where
  -- What `send_data` does once the keys are there.
  unfoldable pub seal_data : Keys → List ℕ → ℕ → List ℕ → List ℕ → Step T (Unit {0})
  unfolding send_raw
  seal_data keys iv counter header payload c =
      elim (DataCipher.encrypt crypto keys.encrypt iv header counter payload) [
        | ok encrypted ↦ send_raw (header ++ encrypted) c
        | err e ↦ (err e, c)
        | panic ↦ (panic, c)
      ]

  -- `send_data`; `iv` is the random vector of a CBC cipher. The counter moves on an error too.
  unfoldable pub send_data : List ℕ → List ℕ → Step T (Unit {0})
  unfolding seal_data
  send_data iv payload c =
      let counter = next_u32 c.send_counter in
      let c' = record c { send_counter = counter } in
      let header = data_header c.cipher 0 c.peer_id ++ be32 counter in
      elim (c.keys) [
        | none ↦ (err (control (codes "data keys missing")), c')
        | some keys ↦ seal_data keys iv counter header payload c'
      ]

-- The data ciphers from the key material.
unfoldable pub make_keys : Mac → Mac → SeedData → Cipher → Auth → Result Error Keys
make_keys md5 sha1 seed cipher auth = elim (derive md5 sha1 seed cipher (size auth)) [
  | ok k ↦ elim (DataCipher.new cipher auth k.encrypt k.mac_encrypt) [
    | ok e ↦ elim (DataCipher.new cipher auth k.decrypt k.mac_decrypt) [
      | ok d ↦ ok (record { encrypt = e; decrypt = d })
      | err x ↦ err x
      | panic ↦ panic
    ]
    | err x ↦ err x
    | panic ↦ panic
  ]
  | err x ↦ err x
  | panic ↦ panic
]

-- `install_keys`: the seed is taken, so that a second call fails.
unfoldable pub install_keys : {T : Type 0} → Mac → Mac → Step T (Unit {0})
unfolding make_keys
install_keys md5 sha1 c = elim (c.seed) [
  | none ↦ (err (control (codes "keys already installed")), c)
  | some seed ↦
      let c' = record c { seed = none } in
      elim (make_keys md5 sha1 seed c.cipher c.auth) [
        | ok keys ↦ (ok tt, record c' { keys = some keys })
        | err e ↦ (err e, c')
        | panic ↦ (panic, c')
      ]
]
