-- ===== src/OpenVpn/Control/Sent.antt =====
-- What the session puts on the wire is read back by `Packet::parse`, and nothing is lost in chunks.
use unroxy.Base.{
  ℕ, zero, suc, ◌≤◌, ◌<◌, true, false, some, ◌≡◌, refl, sym, ◌∙◌, arith, List, [], ◌∷◌, ◌++◌,
  length, take, drop, any, ◌==◌,
}
use unroxy.Base.{
  Result, ok, length-take, length-drop, append_assoc, append-nil, take-append-drop, Bool-cases, inl,
  inr,
}
use unroxy.Base.Bytes.{IsU32, be32}
use unroxy.OpenVpn.Config.{udp}
use unroxy.OpenVpn.Error.{Error}
use unroxy.OpenVpn.Packet.{parse, p_control_v1, max_acks, first_byte, encode_acks}
use unroxy.OpenVpn.Packet.Parse.{packet_of, parse-control}
use unroxy.OpenVpn.Control.{
  Control, send_on, send_raw, send_control, send_chunks, send_control_chunks, record_ack, next_u32,
  max_control_payload,
}

-- The datagrams carry the bytes in control packets of the session `sid` under consecutive ids.
pub Carries : List ℕ → ℕ → List (List ℕ) → List ℕ → Type 0
Carries sid id [] bytes = bytes ≡ []
Carries sid id (raw ∷ raws) bytes =
    (payload : List ℕ) × (rest : List ℕ) × (bytes ≡ payload ++ rest)
    × ((0 < length payload) × (length payload ≤ max_control_payload))
    × (parse raw ≡ ok (some (packet_of p_control_v1 sid id [] payload)))
    × Carries sid (next_u32 id) raws rest

module _ {T : Type 0} where
  -- A working datagram socket and ids of the right size.
  pub record IsOpen (c : Control T) : Type 0 where
    pub up : c.transport.up ≡ true
    pub datagrams : c.transport.protocol ≡ udp
    pub own_id : length c.session_id ≡ 8
    pub peer_id_size : length c.remote_session_id ≡ 8
    pub next_u32_range : IsU32 c.next_packet_id

  send_raw_lem :
      (c : Control T) (raw : List ℕ)
      → c.transport.up ≡ true
      → c.transport.protocol ≡ udp
      → send_raw raw c ≡ (
        ok tt,
        record c { transport = record (c.transport) { sent = c.transport.sent ++ (raw ∷ []) } },
      )
  unfolding send_raw send_on
  send_raw_lem c raw up dg = rw (up, dg)

  -- The call went well and has sent datagrams that carry the bytes.
  pub Sends : Control T → List ℕ → Result Error (Unit {0}) × Control T → Type 0
  Sends c bytes out =
      (raws : List (List ℕ)) × (out.0 ≡ ok tt)
      × (out.1.transport.sent ≡ c.transport.sent ++ raws)
      × Carries c.session_id c.next_packet_id raws bytes

  -- What `send_control` puts on the wire.
  control_bytes : Control T → List ℕ → List ℕ
  control_bytes c payload =
      first_byte p_control_v1
      ∷ (c.session_id
          ++ (encode_acks c.acked c.remote_session_id ++ (be32 c.next_packet_id ++ payload)))

  sent_control : Control T → List ℕ → Control T
  sent_control c payload = record c {
    next_packet_id = next_u32 c.next_packet_id;
    last_payload = payload;
    transport = record (c.transport) { sent = c.transport.sent ++ (control_bytes c payload ∷ []) };
  }

  send_control_lem :
      (c : Control T) (payload : List ℕ)
      → IsOpen c
      → (send_control payload c ≡ (ok tt, sent_control c payload))
        × (parse (control_bytes c payload)
            ≡ ok (some (packet_of p_control_v1 c.session_id c.next_packet_id [] payload)))
        × IsOpen (sent_control c payload)
  unfolding send_control control_bytes sent_control
  send_control_lem c payload o = (
    send_raw_lem (record c { next_packet_id = next_u32 c.next_packet_id; last_payload = payload })
        (control_bytes c payload) o.up o.datagrams,
    parse-control p_control_v1 c.session_id c.remote_session_id c.acked payload c.next_packet_id
        (omega arith) (omega arith) (omega arith) o.own_id o.peer_id_size o.next_u32_range,
    record {
      up = o.up;
      datagrams = o.datagrams;
      own_id = o.own_id;
      peer_id_size = o.peer_id_size;
      next_u32_range = omega arith;
    },
  )

  chunk_step :
      (fuel b : ℕ) (rest : List ℕ) (c : Control T)
      → IsOpen c
      → send_chunks (suc fuel) (b ∷ rest) c
        ≡ send_chunks fuel
            (drop max_control_payload (b ∷ rest))
            (sent_control c (take max_control_payload (b ∷ rest)))
  unfolding send_chunks
  chunk_step fuel b rest c o =
      ground (arith, (send_control_lem c (take max_control_payload (b ∷ rest)) o).0)

  -- A chunk goes out in a packet of its own.
  chunk-Sends :
      (fuel : ℕ) (c : Control T) (bytes : List ℕ)
      → length bytes ≤ fuel
      → IsOpen c
      → Sends c bytes (send_chunks fuel bytes c)
  unfolding Sends Carries send_chunks sent_control
  chunk-Sends zero c [] h o = ([], refl, sym (append-nil c.transport.sent), refl)
  chunk-Sends zero c (b ∷ rest) h o = absurd (omega arith)
  chunk-Sends (suc fuel) c [] h o = ([], refl, sym (append-nil c.transport.sent), refl)
  chunk-Sends (suc fuel) c (b ∷ rest) h o =
      let bytes = b ∷ rest in
      let payload = take max_control_payload bytes in
      let (_, reads, o') = send_control_lem c payload o in
      let (raws, fine, sent, carried) =
        chunk-Sends fuel (sent_control c payload) (drop max_control_payload bytes)
          (omega (arith, length-drop max_control_payload bytes)) o' in
      rw (chunk_step fuel b rest c o) (
        control_bytes c payload ∷ raws,
        fine,
        sent ∙ append_assoc c.transport.sent (control_bytes c payload ∷ []) raws,
        (
          payload,
          drop max_control_payload bytes,
          sym (take-append-drop max_control_payload bytes),
          (
            omega (arith, length-take max_control_payload bytes),
            omega (arith, length-take max_control_payload bytes),
          ),
          reads,
          carried,
        ),
      )

  -- On a working datagram socket, with session ids of 8 bytes, send_control_chunks returns without
  -- an error, and its datagrams are read back by Packet::parse as control packets of the session
  -- under consecutive ids, none empty or above 1184 bytes, whose payloads in this order are the
  -- bytes handed over.
  pub send_control_chunks-Sends :
      (c : Control T) (bytes : List ℕ) → IsOpen c → Sends c bytes (send_control_chunks bytes c)
  unfolding send_control_chunks
  send_control_chunks-Sends c bytes o = chunk-Sends (length bytes) c bytes (omega arith) o

-- No id is in the list twice.
unfoldable pub NoRepeats : List ℕ → Type 0
NoRepeats [] = Unit
NoRepeats (a ∷ acked) = (any (λ b. b == a) acked ≡ false) × NoRepeats acked

any-take :
    (n a : ℕ) (xs : List ℕ) → any (λ b. b == a) xs ≡ false → any (λ b. b == a) (take n xs) ≡ false
any-take zero a xs h = refl
any-take (suc n) a [] h = refl
any-take (suc n) a (x ∷ xs) h = ground (arith, any-take n a xs)

NoRepeats-take : (n : ℕ) (xs : List ℕ) → NoRepeats xs → NoRepeats (take n xs)
unfolding NoRepeats
NoRepeats-take zero xs h = tt
NoRepeats-take (suc n) [] h = tt
NoRepeats-take (suc n) (x ∷ xs) (a, h) = (any-take n x xs a, NoRepeats-take n xs h)

-- Record_ack keeps the list of acknowledgements at four at most, without repeats, and the id is in
-- it afterwards.
pub record_ack-NoRepeats :
    (id : ℕ) (acked : List ℕ)
    → length acked ≤ max_acks
    → NoRepeats acked
    → (length (record_ack id acked) ≤ max_acks)
      × NoRepeats (record_ack id acked)
      × (any (λ a. a == id) (record_ack id acked) ≡ true)
unfolding record_ack
record_ack-NoRepeats id acked l n = elim (Bool-cases (any (λ a. a == id) acked)) [
  | inl known ↦ rw known (l, n, known)
  | inr unknown ↦ rw unknown (
    omega (arith, length-take max_acks (id ∷ acked)),
    NoRepeats-take max_acks (id ∷ acked) (unfold NoRepeats in (unknown, n)),
    ground arith,
  )
]
