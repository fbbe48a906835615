-- ===== src/OpenVpn/Control/DataPath.antt =====
-- A packet that one end sends with `send_data` comes out of `recv_data` at the other.
use unroxy.Base.{
  ℕ, zero, suc, ◌+◌, refl, ◌%◌, ◌^◌, ◌<◌, ◌≤◌, Bool, true, false, none, some, ◌≡◌, ◌∙◌, ap, arith,
  List, [], ◌∷◌, ◌++◌, length, length-append, take, sym,
}
use unroxy.Base.{ok, err, ◌>>=◌, append_assoc, Option-cases, Result-cases, Bool-cases, inl, inr}
use unroxy.Base.Bytes.{be32, length-be32}
use unroxy.Base.Text.{codes}
use unroxy.OpenVpn.Config.{udp, is_aead}
use unroxy.OpenVpn.DataCipher.{Crypto, encrypt, decrypt}
use unroxy.OpenVpn.DataCipher.Laws.{GcmLaws, CbcLaws, IsValid}
use unroxy.OpenVpn.DataCipher.Gcm.{decrypt-encrypt_gcm, encrypt_gcm-ok}
use unroxy.OpenVpn.DataCipher.Cbc.{decrypt-encrypt_cbc, encrypt_cbc-ok, size_le}
use unroxy.OpenVpn.Error.{control}
use unroxy.OpenVpn.Keys.{Mac}
use unroxy.OpenVpn.Packet.{data_header, p_data_v1, p_data_v2}
use unroxy.OpenVpn.Packet.Data.{data_packet, data_code, parse-data_header}
use unroxy.OpenVpn.Replay.{accept}
use unroxy.OpenVpn.Replay.Refine.{accept_ahead}
use unroxy.OpenVpn.Tls.{TlsOps}
use unroxy.OpenVpn.Control.{
  Control, Keys, send_on, send_raw, send_data, seal_data, make_keys, install_keys,
}
use unroxy.OpenVpn.Control.Receive.{Event, received, arrived, recv_data, on_packet, open_data}

take_all : (n : ℕ) (bytes : List ℕ) → length bytes ≤ n → take n bytes ≡ bytes
take_all zero [] h = refl
take_all zero (b ∷ bytes) h = absurd (omega (arith, h))
take_all (suc n) [] h = refl
take_all (suc n) (b ∷ bytes) h = ap (λ rest. b ∷ rest) (take_all n bytes (omega (arith, h)))

-- A sender with keys on a working datagram socket, and a receiver on one that opens with the sender's
-- cipher and has let no packet through at or above the next counter.
pub record Linked {T S : Type 0} (c : Control T) (peer : Control S) : Type 0 where
  pub up : c.transport.up ≡ true
  pub datagrams : c.transport.protocol ≡ udp
  pub peer_datagrams : peer.transport.protocol ≡ udp
  pub keys : Keys
  pub sender : c.keys ≡ some keys
  pub peer_keys : Keys
  pub receiver : peer.keys ≡ some peer_keys
  pub shared : peer_keys.decrypt ≡ keys.encrypt
  pub valid : IsValid keys.encrypt
  pub unwrapped : c.send_counter + 1 < 2 ^ 32
  pub ahead : peer.replay.last < c.send_counter + 1

module _ {T C : Type 0} (crypto : Crypto C) where
  seal_data-ok :
      (keys : Keys) (iv header payload sealed : List ℕ) (n : ℕ) (c : Control T)
      → encrypt crypto keys.encrypt iv header n payload ≡ ok sealed
      → c.transport.up ≡ true
      → c.transport.protocol ≡ udp
      → seal_data crypto keys iv n header payload c ≡ (
        ok tt,
        record c {
          transport = record (c.transport) { sent = c.transport.sent ++ ((header ++ sealed) ∷ []) };
        },
      )
  unfolding seal_data send_raw send_on
  seal_data-ok keys iv header payload sealed n c e up dg = ground (arith, e, up, dg)

  send_data-keyed :
      (iv payload : List ℕ) (c : Control T) (keys : Keys) (n : ℕ)
      → c.keys ≡ some keys
      → (c.send_counter + 1) % 2 ^ 32 ≡ n
      → send_data crypto iv payload c
        ≡ seal_data crypto keys iv n
            (data_header c.cipher 0 c.peer_id ++ be32 n)
            payload
            (record c { send_counter = n })
  unfolding send_data
  send_data-keyed iv payload c keys n k e = ground (arith, k, e)

module _ {S C : Type 0} (ops : TlsOps S) (crypto : Crypto C) where
  open_data-ok :
      (header sealed plaintext : List ℕ) (opcode n : ℕ) (c : Control S) (keys : Keys)
      → c.keys ≡ some keys
      → decrypt crypto keys.decrypt header sealed ≡ ok (n, plaintext)
      → (accept c.replay n).1 ≡ true
      → (open_data ops crypto (data_packet opcode header sealed) c).0 ≡ ok (some plaintext)
  unfolding open_data
  open_data-ok header sealed plaintext opcode n c keys k e fresh = ground (arith, k, e, fresh)

module _ {T S C : Type 0} (ops : TlsOps S) (crypto : Crypto C) where
  -- The sender's call goes well and sends one datagram, and the receiver's gives the plaintext.
  pub Arrives : Control T → Control S → List ℕ → List ℕ → Type 0
  Arrives c peer iv plaintext =
      (raw : List ℕ) × ((send_data crypto iv plaintext c).0 ≡ ok tt)
      × ((send_data crypto iv plaintext c).1.transport.sent ≡ c.transport.sent ++ (raw ∷ []))
      × ((due : Bool) (events : List Event)
          → (recv_data ops crypto (arrived raw due ∷ events) peer).0 ≡ ok (some plaintext))

  module _ (c : Control T) (peer : Control S) (l : Linked c peer) (iv plaintext : List ℕ) where
    counter : ℕ
    counter = c.send_counter + 1

    header : List ℕ
    header = data_header c.cipher 0 c.peer_id ++ be32 counter

    sent_as : List ℕ → Control T
    sent_as sealed = record c {
      send_counter = counter;
      transport = record (c.transport) { sent = c.transport.sent ++ ((header ++ sealed) ∷ []) };
    }

    sends :
        (sealed : List ℕ)
        → encrypt crypto l.keys.encrypt iv header counter plaintext ≡ ok sealed
        → send_data crypto iv plaintext c ≡ (ok tt, sent_as sealed)
    unfolding header counter sent_as
    sends sealed e =
        let n = c.send_counter + 1 in
        send_data-keyed crypto iv plaintext c l.keys n l.sender (omega (arith, l.unwrapped))
        ∙ seal_data-ok crypto l.keys iv (data_header c.cipher 0 c.peer_id ++ be32 n) plaintext
            sealed n (record c { send_counter = n }) e l.up l.datagrams

    takes :
        (sealed : List ℕ)
        → decrypt crypto l.keys.encrypt header sealed ≡ ok (counter, plaintext)
        → (on_packet ops crypto (data_packet (data_code c.cipher) header sealed) peer).0
          ≡ ok (some plaintext)
    unfolding on_packet counter
    takes sealed e =
        let fresh = accept_ahead peer.replay (c.send_counter + 1) l.ahead in
        let same : decrypt crypto l.peer_keys.decrypt header sealed ≡ ok (counter, plaintext) =
          rw l.shared e in
        let read = λ (opcode : ℕ).
          open_data-ok ops crypto header sealed plaintext opcode counter peer l.peer_keys l.receiver
            same fresh in
        elim (Bool-cases (is_aead c.cipher)) [
          | inl a ↦ rw a (read p_data_v2)
          | inr a ↦ rw a (read p_data_v1)
        ]

    length-header : length header ≤ 8
    unfolding header data_header be32
    length-header = elim (Bool-cases (is_aead c.cipher)) [
      | inl a ↦ rw (a) (omega (arith, length-be32 counter))
      | inr a ↦ rw (a) (omega (arith, length-be32 counter))
    ]

    -- A datagram that fits the buffer of the receiver is not cut.
    whole : (raw : List ℕ) → length raw ≤ 2048 → received peer.transport.protocol raw ≡ raw
    unfolding received
    whole raw fits = rw (l.peer_datagrams) (take_all 2048 raw fits)

    receives :
        (sealed : List ℕ) (due : Bool) (events : List Event)
        → length (header ++ sealed) ≤ 2048
        → decrypt crypto l.keys.encrypt header sealed ≡ ok (counter, plaintext)
        → (recv_data ops crypto (arrived (header ++ sealed) due ∷ events) peer).0
          ≡ ok (some plaintext)
    unfolding recv_data header
    receives sealed due events fits e = ground (
      arith,
      whole (header ++ sealed) fits,
      append_assoc (data_header c.cipher 0 c.peer_id) (be32 counter) sealed,
      parse-data_header c.cipher 0 c.peer_id counter sealed,
      takes sealed e,
    )

    opened :
        (sealed : List ℕ)
        → encrypt crypto l.keys.encrypt iv header counter plaintext ≡ ok sealed
        → length sealed ≤ 2040
        → (encrypt crypto l.keys.encrypt iv header counter plaintext
            >>= decrypt crypto l.keys.encrypt header)
          ≡ ok (counter, plaintext)
        → Arrives c peer iv plaintext
    unfolding Arrives sent_as
    opened sealed es small e =
        let ed = ap (λ r. r >>= decrypt crypto l.keys.encrypt header) (sym es) ∙ e in
        let fits : length (header ++ sealed) ≤ 2048 =
          omega (arith, length-append header sealed, length-header, small) in
        (
          header ++ sealed,
          ap (λ out. out.0) (sends sealed es),
          ap (λ out. out.1.transport.sent) (sends sealed es),
          λ due events. receives sealed due events fits ed,
        )

  -- Under a GCM cipher, whose library seals as documented, a payload of at most 2024 bytes that
  -- send_data takes on a working datagram socket goes out in one datagram, and recv_data of a
  -- receiver on a datagram socket with the same cipher, which has let no packet through at or above
  -- its counter, gives the payload when that datagram comes next.
  pub send_data-Arrives_gcm :
      (c : Control T) (peer : Control S)
      → GcmLaws crypto
      → (l : Linked c peer) → is_aead l.keys.encrypt.cipher ≡ true
      → (iv plaintext : List ℕ) → length plaintext ≤ 2024
      → Arrives c peer iv plaintext
  unfolding counter header
  send_data-Arrives_gcm c peer laws l mode iv plaintext fits =
      let d = l.keys.encrypt in
      let front = data_header c.cipher 0 c.peer_id in
      let n = c.send_counter + 1 in
      let (sealed, es, size) =
        encrypt_gcm-ok crypto laws d l.valid mode iv (front ++ be32 n) plaintext n
          (omega (arith, fits)) in
      opened c peer l iv plaintext sealed es (omega (arith, size, fits)) (
        decrypt-encrypt_gcm crypto laws d l.valid mode iv front plaintext n l.unwrapped
          (omega (arith, fits)))

  -- Under a CBC cipher with HMAC, whose libraries work as documented, a payload of at most 1940
  -- bytes that send_data takes with a vector of 16 bytes on a working datagram socket goes out in
  -- one datagram, and recv_data of a receiver on a datagram socket with the same cipher, which has
  -- let no packet through at or above its counter, gives the payload when that datagram comes next.
  pub send_data-Arrives_cbc :
      (c : Control T) (peer : Control S)
      → CbcLaws crypto
      → (l : Linked c peer) → is_aead l.keys.encrypt.cipher ≡ false
      → (iv plaintext : List ℕ) → length iv ≡ 16
      → length plaintext ≤ 1940
      → Arrives c peer iv plaintext
  unfolding counter header
  send_data-Arrives_cbc c peer laws l mode iv plaintext vector fits =
      let d = l.keys.encrypt in
      let n = c.send_counter + 1 in
      let header = data_header c.cipher 0 c.peer_id ++ be32 n in
      let (sealed, es, small) =
        encrypt_cbc-ok crypto laws d l.valid mode iv header plaintext n vector in
      opened c peer l iv plaintext sealed es (omega (arith, small, fits, size_le d.auth))
        (decrypt-encrypt_cbc crypto laws d l.valid mode iv header plaintext n l.unwrapped vector)

module _ {T : Type 0} (md5 sha1 : Mac) where
  install_keys-seed : (c : Control T) → (install_keys md5 sha1 c).1.seed ≡ none
  unfolding install_keys
  install_keys-seed c = elim (Option-cases (c.seed)) [
    | inl e ↦ ground (arith, e)
    | inr (seed, e) ↦ elim (Result-cases (make_keys md5 sha1 seed c.cipher c.auth)) [
      | inl (keys, k) ↦ ground (arith, e, k)
      | inr (inl (x, k)) ↦ ground (arith, e, k)
      | inr (inr k) ↦ ground (arith, e, k)
    ]
  ]

  no_seed :
      (c : Control T)
      → c.seed ≡ none
      → install_keys md5 sha1 c ≡ (err (control (codes "keys already installed")), c)
  unfolding install_keys
  no_seed c e = ground (arith, e)

  -- Install_keys empties the seed whatever comes of it, so that a second call gives the error that
  -- says so and leaves the state alone.
  pub install_keys-once :
      (c : Control T)
      → install_keys md5 sha1 (install_keys md5 sha1 c).1
        ≡ (err (control (codes "keys already installed")), (install_keys md5 sha1 c).1)
  install_keys-once c = no_seed (install_keys md5 sha1 c).1 (install_keys-seed c)
