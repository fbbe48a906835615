-- ===== src/OpenVpn/Control/Handshake.antt =====
-- src/openvpn/control.rs: from the first packet to the installed options: the reset, the TLS
-- handshake, the exchange of key sources, and the push request. Random bytes and the decoding of
-- text are arguments. The events are those up to the deadline of the call.
pub mod Progress
use unroxy.Base.{
  ℕ, zero, suc, ◌+◌, ◌*◌, ◌/◌, ◌%◌, Bool, true, false, Option, none, some, List, [], ◌∷◌, ◌++◌,
  length, take, drop, ltb, ◌==◌, if◌then◌else◌,
}
use unroxy.Base.{Result, ok, err, panic}
use unroxy.Base.Bytes.{be32}
use unroxy.Base.Text.{Text, codes}
use unroxy.OpenVpn.Config.{Protocol, Auth, Cipher, Profile, Server, auth_name, key_len}
use unroxy.OpenVpn.Error.{Error, account, control, timeout, auth, io}
use unroxy.OpenVpn.Keys.{SeedData}
use unroxy.OpenVpn.Packet.{
  Packet, parse, reset_packet, p_control_hard_reset_server_v2, write_string, Reader, read_u8,
  read_u32, read_take, no_peer,
}
use unroxy.OpenVpn.Push.{Pushed, parse_push, take_message}
use unroxy.OpenVpn.Replay
use unroxy.OpenVpn.Tls.{TlsOps}
use unroxy.OpenVpn.Control.{
  Control, Transport, Step, ◌>>=◌, ◌>>◌, on_tls, next_u32, flush_tls, send_control_chunks, send_on,
}
use unroxy.OpenVpn.Control.Receive.{Event, received, arrived, silent, broken, pump}

-- A number below 1000 in decimal digits.
abbrev decimal : ℕ → Text
decimal n =
    let units = (b'0' + n % 10) ∷ [] in
    if ltb n 10
    then units
    else if ltb n 100
    then (b'0' + n / 10) ∷ units
    else (b'0' + n / 100) ∷ ((b'0' + n / 10 % 10) ∷ units)

options : Auth → Cipher → Text
options a c =
    codes "V4,dev-type tun,link-mtu 1557,tun-mtu 1500,proto UDPv4,auth "
    ++ (auth_name a
        ++ (codes ",keysize " ++ (decimal (key_len c * 8) ++ codes ",key-method 2,tls-client")))

peer_info : Text
peer_info =
    codes "IV_VER=2.6.9\nIV_PLAT=linux\nIV_TCPNL=1\nIV_NCP=2\n"
    ++ (codes "IV_CIPHERS=AES-256-GCM:AES-128-GCM:AES-256-CBC:AES-128-CBC\nIV_PROTO=2180\n"
        ++ (codes "IV_MTU=1500\nIV_SSL=OpenSSL\nIV_HWADDR=00:00:00:00:00:00\nIV_ACC=1,A:6,udp\n"
            ++ codes "IV_IPV6=1\n"))

-- The random bytes of the client's key message.
pub record KeySource : Type 0 where
  pub pre_master : List ℕ
  pub random1 : List ℕ
  pub random2 : List ℕ

-- The client's key message.
unfoldable pub key_message : KeySource → Auth → Cipher → Result Error (List ℕ)
unfolding options peer_info write_string
key_message source a c = elim (write_string (options a c)) [
  | err e ↦ err e
  | panic ↦ panic
  | ok text ↦ elim (write_string []) [
    | err e ↦ err e
    | panic ↦ panic
    | ok empty ↦ elim (write_string peer_info) [
      | err e ↦ err e
      | panic ↦ panic
      | ok info ↦ ok (
          be32 0
          ++ (2
              ∷ (source.pre_master
                  ++ (source.random1 ++ (source.random2 ++ (text ++ (empty ++ (empty ++ info))))))))
    ]
  ]
]

-- What the client makes of the bytes that the server has sent: `none` while they are too few.
unfoldable pub read_key_source : List ℕ → Result Error (Option (List ℕ × List ℕ))
unfolding read_u32 read_u8 read_take
read_key_source buffer =
    let (word, r₁) = read_u32 (record { bytes = buffer; offset = 0 }) in
    let (method, r₂) = read_u8 r₁ in
    let (source, r₃) = read_take 64 r₂ in
    if ltb (length buffer) (5 + 64)
    then ok none
    else if method == 2
    then (elim source [ none ↦ ok none | some rest ↦ ok (some (take 32 rest, drop 32 rest)) ])
    else err (control (codes "key method " ++ decimal method))

-- `await_reset`: the server's session id and the id of its packet.
unfoldable pub await_reset : Protocol → List Event → Result Error (List ℕ × ℕ × List Event)
unfolding received
await_reset protocol [] = err timeout
await_reset protocol (broken e ∷ events) = err e
await_reset protocol (silent due ∷ events) = await_reset protocol events
await_reset protocol (arrived raw due ∷ events) =
    let again = await_reset protocol events in
    elim (parse (received protocol raw)) [
      | err e ↦ err e
      | panic ↦ panic
      | ok none ↦ again
      | ok (some packet) ↦
          if packet.opcode == p_control_hard_reset_server_v2
          then ok (packet.session_id, packet.packet_id, events)
          else again
    ]

module _ {T : Type 0} (ops : TlsOps T) where
  -- The bytes that the TLS session has decrypted, behind those at hand.
  gather : List ℕ → Step T (List ℕ)
  gather buffer c =
      let (chunk, t) = ops.take_plaintext c.tls in
      (ok (elim chunk [ none ↦ buffer | some bytes ↦ buffer ++ bytes ]), record c { tls = t })

  -- The loop of `drive_tls`. Each round but the last takes an event at least.
  unfoldable pub drive_loop : ℕ → List Event → Step T (List Event)
  drive_loop zero events = λ c. (err timeout, c)
  drive_loop (suc fuel) events = do
    on_tls ops.drive
    flush_tls ops
    λ c.
        let again = pump ops events >>= drive_loop fuel in
        if ops.is_ready c.tls then (ok events, c) else again c

  unfoldable pub drive_tls : List Event → Step T (List Event)
  unfolding drive_loop
  drive_tls events = drive_loop (suc (length events)) events

  -- The loop of `exchange_keys` over what the server sends.
  unfoldable pub key_loop : ℕ → List ℕ → List Event → Step T (List ℕ × List ℕ × List Event)
  unfolding gather read_key_source
  key_loop zero buffer events = λ c. (err timeout, c)
  key_loop (suc fuel) buffer events = do
    left ← pump ops events
    bytes ← gather buffer
    elim (read_key_source bytes) [
      | err e ↦ λ c. (err e, c)
      | panic ↦ λ c. (panic, c)
      | ok none ↦ key_loop fuel bytes left
      | ok (some (random1, random2)) ↦ λ c. (ok (random1, random2, left), c)
    ]

  unfoldable pub exchange_keys : KeySource → Auth → Cipher → List Event → Step T (List Event)
  unfolding key_loop key_message
  exchange_keys source a k events = elim (key_message source a k) [
    | err e ↦ λ c. (err e, c)
    | panic ↦ λ c. (panic, c)
    | ok message ↦ do
      on_tls (λ t. ops.write t message)
      flush_tls ops
      (server1, server2, left) ← key_loop (suc (length events)) [] events
      λ c. (
        ok left,
        record c {
          seed = some (record {
            pre_master = source.pre_master;
            client_random1 = source.random1;
            server_random1 = server1;
            client_random2 = source.random2;
            server_random2 = server2;
            client_sid = c.session_id;
            server_sid = c.remote_session_id;
          });
        },
      )
  ]

  module _ (lossy : List ℕ → Text) where
    -- The loop of `push_request`.
    unfoldable pub push_loop : ℕ → List ℕ → List Event → Step T (Text × List Event)
    unfolding gather
    push_loop zero buffer events = λ c. (err timeout, c)
    push_loop (suc fuel) buffer events = do
      left ← pump ops events
      bytes ← gather buffer
      reply ← λ c. (take_message bytes (codes "PUSH_REPLY"), c)
      elim reply [
        | some (message, rest) ↦ λ c. (ok (lossy message, left), c)
        | none ↦ (λ c. (take_message bytes (codes "AUTH_FAILED"), c)) >>= λ failed. elim failed [
          | some message ↦ λ c. (err auth, c)
          | none ↦ push_loop fuel bytes left
        ]
      ]

    unfoldable pub push_request : List Event → Step T (Text × List Event)
    unfolding push_loop
    push_request events = do
      on_tls (λ t. ops.write t (codes "PUSH_REQUEST" ++ (0 ∷ [])))
      flush_tls ops
      push_loop (suc (length events)) [] events

  -- A session behind the reset, before its handshake.
  unfoldable pub fresh_control : Transport → T → List ℕ → List ℕ → ℕ → Profile → Control T
  fresh_control transport t session_id remote reset_id profile = record {
    transport = transport;
    tls = t;
    session_id = session_id;
    remote_session_id = remote;
    next_packet_id = 1;
    cipher = profile.cipher;
    auth = profile.auth;
    keys = none;
    seed = none;
    peer_id = no_peer;
    send_counter = 0;
    replay = Replay.new;
    acked = reset_id ∷ [];
    last_payload = [];
    recv_next = next_u32 reset_id;
    reorder = [];
  }

  -- `connect_to`, on a socket that is open; `start` is the TLS session for the server's host.
  unfoldable pub connect_to :
      Result Error T
      → Transport
      → List ℕ
      → KeySource
      → Profile
      → List Event
      → Result Error (Control T × List Event)
  unfolding fresh_control drive_tls exchange_keys await_reset
  connect_to start transport session_id source profile events =
      elim (send_on transport (reset_packet session_id)) [
        | err e ↦ err e
        | panic ↦ panic
        | ok sent ↦ elim (await_reset transport.protocol events) [
          | err e ↦ err e
          | panic ↦ panic
          | ok (remote, reset_id, left) ↦ elim start [
            | err e ↦ err e
            | panic ↦ panic
            | ok t ↦
                let (r, c) =
                  (drive_tls left >>= exchange_keys source profile.auth profile.cipher)
                    (fresh_control sent t session_id remote reset_id profile) in
                elim r [ err e ↦ err e | panic ↦ panic | ok rest ↦ ok (c, rest) ]
          ]
        ]
      ]

-- `connect`: the first server that answers, or the error of the last one. The outcome of
-- `connect_to` for each server is given.
unfoldable pub connect :
    {A : Type 0} → (Server → Result Error A) → Option Error → List Server → Result Error A
connect attempt none [] = err (account (codes "no remote"))
connect attempt (some e) [] = err e
connect attempt last (server ∷ servers) = elim (attempt server) [
  | ok session ↦ ok session
  | err e ↦ connect attempt (some e) servers
  | panic ↦ panic
]

unfoldable pub apply_push : {T : Type 0} → Text → Control T → Control T
apply_push reply c =
    let pushed = parse_push reply in
    record c {
      peer_id = elim (pushed.peer_id) [ some id ↦ id | none ↦ c.peer_id ];
      cipher = elim (pushed.cipher) [ some k ↦ k | none ↦ c.cipher ];
    }
