-- ===== src/OpenVpn/Packet/Parse.antt =====
-- `Packet::parse` reads back what the client's own code lays out.
use unroxy.Base.{ℕ, ◌+◌, ◌*◌, min, some, ◌≡◌, ◌≢◌, refl, ap, arith}
use unroxy.Base.{
  List, [], ◌∷◌, ◌++◌, length, take, ltb, if◌then◌else◌, append_assoc, append-nil, length-append,
  get_or-append, length-take,
}
use unroxy.Base.{ok, ◌>>=◌, slice-append, slice_from-append}
use unroxy.Base.Bytes.{be32, from_be-be32, length-be32, IsU32}
use unroxy.OpenVpn.Error.{Error}
use unroxy.OpenVpn.Packet.{
  parse, parse_control, parse_id, parse_payload, acks_end, first_byte, Packet, encode_acks,
  encode_words, reset_packet,
}
use unroxy.OpenVpn.Packet.{p_ack_v1, p_data_v1, p_data_v2, max_acks, p_control_hard_reset_client_v2}

abbrev pub packet_of : ℕ → List ℕ → ℕ → List ℕ → List ℕ → Packet
packet_of opcode session_id packet_id header payload = record {
  opcode = opcode;
  session_id = session_id;
  packet_id = packet_id;
  header = header;
  payload = payload;
}

parse_id-word :
    (opcode : ℕ) (front payload : List ℕ) (id off : ℕ)
    → opcode ≢ p_ack_v1
    → length front ≡ off
    → IsU32 id
    → parse_id opcode (front ++ (be32 id ++ payload)) off ≡ ok (some (id, off + 4))
unfolding parse_id
parse_id-word opcode front payload id off h hf hi = ground (
  arith,
  length-append front (be32 id ++ payload),
  length-append (be32 id) payload,
  length-be32 id,
  slice-append Error front (be32 id) payload off (off + 4) hf,
  from_be-be32 id hi,
)

parse_payload-rest :
    (opcode : ℕ) (sid front rest : List ℕ) (id off : ℕ)
    → length front ≡ off
    → parse_payload opcode sid (front ++ rest) (some (id, off))
      ≡ ok (some (packet_of opcode sid id [] rest))
unfolding parse_payload
parse_payload-rest opcode sid front rest id off h =
    ground (arith, slice_from-append Error front rest off h)

-- A control packet up to its acknowledgements: the opcode byte, the session id, the count and the
-- block that it announces.
module _ (opcode byte count : ℕ) (sid block : List ℕ) (hs : length sid ≡ 8)
    (hb : 10 + length block ≡ acks_end count) where
  abbrev preamble : List ℕ
  preamble = byte ∷ (sid ++ (count ∷ block))

  length-preamble : length preamble ≡ acks_end count
  length-preamble = omega (arith, length-append sid (count ∷ block))

  laid_out : (rest : List ℕ) → preamble ++ rest ≡ byte ∷ (sid ++ (count ∷ (block ++ rest)))
  laid_out rest = ap (λ t. byte ∷ t) (append_assoc sid (count ∷ block) rest)

  -- With the id word and the payload still to be read.
  parse_control-preamble :
      (rest : List ℕ)
      → parse_control opcode (preamble ++ rest) ≡ (
          parse_id opcode (preamble ++ rest) (acks_end count)
          >>= parse_payload opcode sid (preamble ++ rest))
  unfolding parse_control
  parse_control-preamble rest = ground (
    arith,
    length-append preamble rest,
    length-preamble,
    laid_out rest,
    slice-append Error (byte ∷ []) sid (count ∷ (block ++ rest)) 1 9,
    get_or-append (byte ∷ sid) count (block ++ rest) 9 0,
  )

  control_words :
      (id : ℕ) (payload : List ℕ)
      → opcode ≢ p_ack_v1
      → IsU32 id
      → parse_control opcode (byte ∷ (sid ++ (count ∷ (block ++ (be32 id ++ payload)))))
        ≡ ok (some (packet_of opcode sid id [] payload))
  control_words id payload ho hi =
      rw
        (
          ← laid_out (be32 id ++ payload),
          parse_control-preamble (be32 id ++ payload),
          parse_id-word opcode preamble payload id (acks_end count) ho length-preamble hi,
          ← append_assoc preamble (be32 id) payload,
        )
        (parse_payload-rest opcode sid (preamble ++ be32 id) payload id (acks_end count + 4)
          (omega (arith, length-append preamble (be32 id), length-be32 id, length-preamble)))

  ack_words :
      opcode ≡ p_ack_v1
      → parse_control opcode (byte ∷ (sid ++ (count ∷ block)))
        ≡ ok (some (packet_of opcode sid 0 [] []))
  ack_words ho =
      rw (← append-nil block, ← laid_out [], parse_control-preamble [], no_word)
        (parse_payload-rest opcode sid preamble [] 0 (acks_end count) length-preamble)
    where
      no_word : parse_id opcode (preamble ++ []) (acks_end count) ≡ ok (some (0, acks_end count))
      no_word = unfold parse_id in ground arith

length-encode_words : (ids : List ℕ) → length (encode_words ids) ≡ length ids * 4
unfolding encode_words
length-encode_words [] = refl
length-encode_words (id ∷ ids) =
    ground
      (arith, length-append (be32 id) (encode_words ids), length-be32 id, length-encode_words ids)

-- The block that `encode_acks` lays out has the length that its count announces.
acks_block : List ℕ → List ℕ → List ℕ
acks_block ids remote =
    let count = min (length ids) max_acks in
    encode_words (take count ids) ++ (if ltb 0 count then remote else [])

length-acks_block :
    (ids remote : List ℕ)
    → length remote ≡ 8
    → 10 + length (acks_block ids remote) ≡ acks_end (min (length ids) max_acks)
unfolding acks_block
length-acks_block ids remote h = ground (
  arith,
  length-append (encode_words (take (min (length ids) 4) ids)) remote,
  length-append (encode_words (take (min (length ids) 4) ids)) [],
  length-encode_words (take (min (length ids) 4) ids),
  length-take (min (length ids) 4) ids,
)

-- A packet laid out with an opcode that is no bare acknowledgement and no data opcode, the
-- acknowledgements at hand, a packet id of 32 bits and a payload, with session ids of 8 bytes, is
-- read back by Packet::parse with this opcode, session id, packet id and payload.
pub parse-control :
    (opcode : ℕ) (sid remote ids payload : List ℕ) (id : ℕ)
    → opcode ≢ p_ack_v1
    → opcode ≢ p_data_v1
    → opcode ≢ p_data_v2
    → length sid ≡ 8
    → length remote ≡ 8
    → IsU32 id
    → parse (first_byte opcode ∷ (sid ++ (encode_acks ids remote ++ (be32 id ++ payload))))
      ≡ ok (some (packet_of opcode sid id [] payload))
unfolding parse encode_acks acks_block
parse-control opcode sid remote ids payload id ha h1 h2 hs hr hi = ground (
  arith,
  control_words opcode (first_byte opcode) (min (length ids) max_acks) sid (acks_block ids remote)
      hs (length-acks_block ids remote hr) id payload ha hi,
)

pub parse-ack :
    (sid remote ids : List ℕ)
    → length sid ≡ 8
    → length remote ≡ 8
    → parse (first_byte p_ack_v1 ∷ (sid ++ encode_acks ids remote))
      ≡ ok (some (packet_of p_ack_v1 sid 0 [] []))
unfolding parse encode_acks acks_block
parse-ack sid remote ids hs hr =
    ack_words p_ack_v1 (first_byte p_ack_v1) (min (length ids) max_acks) sid (acks_block ids remote)
      hs (length-acks_block ids remote hr) refl

-- The reset that opens a session is a packet of its opcode, with no acknowledgement and id 0.
pub parse-reset_packet :
    (sid : List ℕ)
    → length sid ≡ 8
    → parse (reset_packet sid) ≡ ok (some (packet_of p_control_hard_reset_client_v2 sid 0 [] []))
unfolding parse reset_packet
parse-reset_packet sid hs = rw (← append-nil (be32 0)) (
    control_words p_control_hard_reset_client_v2 (first_byte 7) 0 sid [] hs refl 0 [] (omega arith)
      (omega arith))
