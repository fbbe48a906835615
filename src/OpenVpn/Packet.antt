-- ===== src/OpenVpn/Packet.antt =====
-- src/openvpn/control.rs, the wire formats: packets, acknowledgement blocks, strings, and the
-- reader over the server's key message. src/openvpn/crypto/packet.rs: the peer id.
pub mod Parse
pub mod Panics
pub mod Data
use unroxy.Base.{ℕ, ◌+◌, ◌-◌, ◌*◌, ◌/◌, ◌^◌, ◌<◌, min, Bool, true, false, Option, none, some, ◌||◌}
use unroxy.Base.{
  List, [], ◌∷◌, ◌++◌, map, length, take, drop, get_or, ltb, leb, ◌==◌, if◌then◌else◌,
}
use unroxy.Base.{Result, ok, err, panic, ◌>>=◌, slice, slice_from}
use unroxy.Base.Bytes.{be16, be32, from_be}
use unroxy.Base.Text.{Text, codes}
use unroxy.OpenVpn.Config.{Cipher, is_aead}
use unroxy.OpenVpn.Error.{Error, control}
use Prim.Native.Nat.{bit_and, bit_or}
use mathlib.Core.List.{flatten}

abbrev pub p_control_hard_reset_client_v2 : ℕ
p_control_hard_reset_client_v2 = 7

abbrev pub p_control_hard_reset_server_v2 : ℕ
p_control_hard_reset_server_v2 = 8

abbrev pub p_control_v1 : ℕ
p_control_v1 = 4

abbrev pub p_ack_v1 : ℕ
p_ack_v1 = 5

abbrev pub p_data_v1 : ℕ
p_data_v1 = 6

abbrev pub p_data_v2 : ℕ
p_data_v2 = 9

abbrev pub sid_size : ℕ
sid_size = 8

abbrev pub max_acks : ℕ
max_acks = 4

-- `PeerId`, a `u32`
abbrev pub PeerId : Type 0
PeerId = ℕ

abbrev pub no_peer : PeerId
no_peer = 0

-- A `u8` shifted to the left by 3; the opcodes are below 32.
abbrev pub first_byte : ℕ → ℕ
first_byte opcode = opcode * 8

unfoldable pub reset_packet : List ℕ → List ℕ
reset_packet session_id = first_byte p_control_hard_reset_client_v2 ∷ (session_id ++ (0 ∷ be32 0))

pub record Packet : Type 0 where
  pub opcode : ℕ
  pub session_id : List ℕ
  pub packet_id : ℕ
  pub header : List ℕ
  pub payload : List ℕ

-- The branch of `Packet::parse` for data packets.
unfoldable pub parse_data : ℕ → List ℕ → Result Error (Option Packet)
parse_data opcode raw =
    let header_len : ℕ = if opcode == p_data_v2 then 4 else 1 in
    if ltb (length raw) (header_len + 4) then ok none else do
      header ← slice raw 0 (header_len + 4)
      payload ← slice_from raw (header_len + 4)
      ok (
          some (record {
            opcode = opcode;
            session_id = [];
            packet_id = 0;
            header = header;
            payload = payload;
          }))

-- The packet id behind the acknowledgements, with the offset of the payload. `none` is the early
-- return on a short packet.
unfoldable pub parse_id : ℕ → List ℕ → ℕ → Result Error (Option (ℕ × ℕ))
parse_id opcode raw offset =
    if opcode == p_ack_v1
    then ok (some (0, offset))
    else if ltb (length raw) (offset + 4)
    then ok none
    else do word ← slice raw offset (offset + 4); ok (some (from_be word, offset + 4))

-- The payload is all that follows.
unfoldable pub parse_payload : ℕ → List ℕ → List ℕ → Option (ℕ × ℕ) → Result Error (Option Packet)
parse_payload opcode session_id raw none = ok none
parse_payload opcode session_id raw (some (id, offset)) = do
  payload ← slice_from raw offset
  ok (
      some (record {
        opcode = opcode;
        session_id = session_id;
        packet_id = id;
        header = [];
        payload = payload;
      }))

-- The offset behind `count` acknowledgements, and the peer's session id if there are any.
abbrev pub acks_end : ℕ → ℕ
acks_end count = 10 + count * 4 + (if ltb 0 count then 8 else 0)

unfoldable pub parse_control : ℕ → List ℕ → Result Error (Option Packet)
unfolding parse_id parse_payload
parse_control opcode raw = if ltb (length raw) 10 then ok none else do
  session_id ← slice raw 1 9
  let count = get_or raw 9 0
  if ltb (length raw) (10 + count * 4)
      then ok none
      else do id ← parse_id opcode raw (acks_end count); parse_payload opcode session_id raw id

-- `Packet::parse`
unfoldable pub parse : List ℕ → Result Error (Option Packet)
unfolding parse_data parse_control
parse [] = ok none
parse (byte ∷ rest) =
    let opcode = byte / 8 in
    let raw = byte ∷ rest in
    if (opcode == p_data_v1) || (opcode == p_data_v2)
    then parse_data opcode raw
    else parse_control opcode raw

-- The bytes that the call appends.
unfoldable pub write_string : List ℕ → Result Error (List ℕ)
write_string value =
    if ltb 65535 (length value)
    then err (control (codes "string too long"))
    else ok (be16 (length value) ++ value)

unfoldable pub data_header : Cipher → ℕ → PeerId → List ℕ
data_header cipher key_id peer_id =
    if is_aead cipher
    then bit_or (first_byte p_data_v2) (bit_and key_id 0x07) ∷ drop 1 (be32 peer_id)
    else bit_or (first_byte p_data_v1) (bit_and key_id 0x07) ∷ []

unfoldable pub encode_words : List ℕ → List ℕ
encode_words [] = []
encode_words (id ∷ ids) = be32 id ++ encode_words ids

unfoldable pub encode_acks : List ℕ → List ℕ → List ℕ
unfolding encode_words
encode_acks packet_ids remote_session_id =
    let count = min (length packet_ids) max_acks in
    count
    ∷ (encode_words (take count packet_ids) ++ (if ltb 0 count then remote_session_id else []))

-- `Reader` over the plaintext of the server's key message.
pub record Reader : Type 0 where
  pub bytes : List ℕ
  pub offset : ℕ

unfoldable pub read_u8 : Reader → ℕ × Reader
read_u8 r = (get_or r.bytes r.offset 0, record r { offset = r.offset + 1 })

unfoldable pub read_u32 : Reader → ℕ × Reader
read_u32 r =
    if ltb (length r.bytes) (r.offset + 4)
    then (0, r)
    else (from_be (take 4 (drop r.offset r.bytes)), record r { offset = r.offset + 4 })

unfoldable pub read_take : ℕ → Reader → Option (List ℕ) × Reader
read_take len r =
    if ltb (length r.bytes) (r.offset + len)
    then (none, r)
    else (some (take len (drop r.offset r.bytes)), record r { offset = r.offset + len })
