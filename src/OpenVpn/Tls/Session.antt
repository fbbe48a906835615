-- ===== src/OpenVpn/Tls/Session.antt =====
-- src/openvpn/tls.rs: the TLS session over two queues of bytes in memory. The TLS library itself
-- (btls) is the parameter `Btls`: `S` is its state of one connection, and each call gets the queues
-- that it reads from and writes to.
pub mod Life
pub mod Feeds
use unroxy.Base.{
  ℕ, zero, suc, ◌+◌, min, Bool, true, false, Option, none, some, List, [], ◌∷◌, ◌++◌, length, take,
  drop, leb, ltb, ◌==◌, if◌then◌else◌, is_some,
}
use unroxy.Base.{Result, ok, err, panic, slice_from}
use unroxy.Base.Text.{Text, codes}
use unroxy.OpenVpn.Error.{Error, tls}
use unroxy.OpenVpn.Tls.{TlsOps}

pub record MemoryStream : Type 0 where
  pub inbound : List ℕ
  pub outbound : List ℕ

abbrev pub empty_stream : MemoryStream
empty_stream = record { inbound = []; outbound = [] }

-- `MemoryStream::feed`
abbrev pub feed_stream : MemoryStream → List ℕ → MemoryStream
feed_stream m bytes = record m { inbound = m.inbound ++ bytes }

-- `MemoryStream::take_outbound`
abbrev pub drain_stream : MemoryStream → List ℕ × MemoryStream
drain_stream m = (m.outbound, record m { outbound = [] })

-- `Read::read` into a buffer of `size` bytes; `none` is `WouldBlock`.
unfoldable pub read_stream : MemoryStream → ℕ → Option (List ℕ) × MemoryStream
read_stream m size =
    let len = min size (length m.inbound) in
    if length m.inbound == 0
    then (none, m)
    else (some (take len m.inbound), record m { inbound = drop len m.inbound })

-- `Write::write` takes all the bytes.
unfoldable pub write_stream : MemoryStream → List ℕ → ℕ × MemoryStream
write_stream m bytes = (length bytes, record m { outbound = m.outbound ++ bytes })

-- A connection with its queues.
abbrev pub SslStream : Type 0 → Type 0
SslStream S = S × MemoryStream

-- `Result<SslStream, HandshakeError>`; the last two errors close the session alike.
pub data Handshake (S : Type 0) : Type 0 where
  done : SslStream S → Handshake S
  would_block : SslStream S → Handshake S
  failure : Text → Handshake S

pub record Btls (S : Type 0) : Type 0 where
  pub handshake : SslStream S → Handshake S
  -- `ssl_read`: no byte at the end of the stream, `none` on an error.
  pub ssl_read : SslStream S → Option (List ℕ) × SslStream S
  -- `ssl_write`: how many of the bytes are taken, `none` on an error.
  pub ssl_write : SslStream S → List ℕ → Option ℕ × SslStream S
  -- A bound for the bytes that can still be read.
  pub readable : SslStream S → ℕ

pub record TlsState (S : Type 0) : Type 0 where
  pub handshake : Option (SslStream S)
  pub stream : Option (SslStream S)
  pub plaintext : List ℕ
  pub offset : ℕ
  pub pending : List ℕ

-- `start`, once the library has set the connection up.
unfoldable pub start : {S : Type 0} → S → TlsState S
start s = record {
  handshake = some (s, empty_stream);
  stream = none;
  plaintext = [];
  offset = 0;
  pending = [];
}

module _ {S : Type 0} where
  unfoldable pub is_ready : TlsState S → Bool
  is_ready t = is_some (t.stream)

  unfoldable pub take_outbound : TlsState S → List ℕ × TlsState S
  take_outbound t = elim (t.handshake) [
    | some (s, m) ↦ (m.outbound, record t { handshake = some (s, (drain_stream m).1) })
    | none ↦ elim (t.stream) [
      | some (s, m) ↦ (m.outbound, record t { stream = some (s, (drain_stream m).1) })
      | none ↦ ([], t)
    ]
  ]

  unfoldable pub take_plaintext : TlsState S → Option (List ℕ) × TlsState S
  take_plaintext t =
      let cleared = record t { plaintext = []; offset = 0 } in
      if leb (length t.plaintext) t.offset
      then (none, cleared)
      else (some (drop t.offset t.plaintext), cleared)

  module _ (btls : Btls S) where
    -- The loop of `pump`: the bytes read and the connection after them.
    unfoldable pub read_all : ℕ → SslStream S → List ℕ × SslStream S
    read_all zero s = ([], s)
    read_all (suc fuel) s =
        let (r, s') = btls.ssl_read s in
        elim r [
          | none ↦ ([], s')
          | some [] ↦ ([], s')
          | some (b ∷ bs) ↦ let (more, s'') = read_all fuel s' in ((b ∷ bs) ++ more, s'')
        ]

    -- A read that gives bytes leaves fewer, so one round more than there are bytes is enough.
    unfoldable pub pump : TlsState S → TlsState S
    unfolding read_all
    pump t = elim (t.stream) [
      | none ↦ t
      | some s ↦
          let (bytes, s') = read_all (suc (btls.readable s)) s in
          record t { stream = some s'; plaintext = t.plaintext ++ bytes }
    ]

    unfoldable pub feed : TlsState S → List ℕ → Result Error (Unit {0}) × TlsState S
    unfolding pump
    feed t ciphertext = elim (t.handshake) [
      | some (s, m) ↦ (ok tt, record t { handshake = some (s, feed_stream m ciphertext) })
      | none ↦ elim (t.stream) [
        | some (s, m) ↦ (ok tt, pump (record t { stream = some (s, feed_stream m ciphertext) }))
        | none ↦ (err (tls (codes "tls closed")), t)
      ]
    ]

    unfoldable pub drive : TlsState S → Result Error (Unit {0}) × TlsState S
    unfolding pump
    drive t = elim (t.handshake) [
      | none ↦ (ok tt, pump t)
      | some mid ↦
          let t' = record t { handshake = none } in
          elim (btls.handshake mid) [
            | done s ↦ (ok tt, pump (record t' { stream = some s }))
            | would_block next ↦ (ok tt, record t' { handshake = some next })
            | failure reason ↦ (err (tls reason), t')
          ]
    ]

    -- `drain_pending` on an open connection: what is left to write, and the connection after it.
    -- A round takes a byte at least, so that the bytes are enough fuel.
    unfoldable pub write_pending : ℕ → SslStream S → List ℕ → Result Error (List ℕ) × SslStream S
    write_pending zero s pending = (ok pending, s)
    write_pending (suc fuel) s [] = (ok [], s)
    write_pending (suc fuel) s (b ∷ bs) =
        let (r, s') = btls.ssl_write s (b ∷ bs) in
        elim r [
          | none ↦ (ok (b ∷ bs), s')
          | some zero ↦ (ok (b ∷ bs), s')
          | some (suc n) ↦ elim (slice_from {E = Error} (b ∷ bs) (suc n)) [
            | ok rest ↦ write_pending fuel s' rest
            | err e ↦ (err e, s')
            | panic ↦ (panic, s')
          ]
        ]

    unfoldable pub write : TlsState S → List ℕ → Result Error (Unit {0}) × TlsState S
    unfolding write_pending
    write t bytes = elim (t.stream) [
      | none ↦ (err (tls (codes "handshake incomplete")), t)
      | some s ↦
          let pending = t.pending ++ bytes in
          let (r, s') = write_pending (length pending) s pending in
          elim r [
            | ok rest ↦ (ok tt, record t { stream = some s'; pending = rest })
            | err e ↦ (err e, record t { stream = some s'; pending = pending })
            | panic ↦ (panic, record t { stream = some s'; pending = pending })
          ]
    ]

    unfoldable pub ops : TlsOps (TlsState S)
    unfolding is_ready feed drive take_outbound take_plaintext write
    ops = record {
      is_ready = is_ready;
      feed = feed;
      drive = drive;
      take_outbound = take_outbound;
      take_plaintext = take_plaintext;
      write = write;
    }
