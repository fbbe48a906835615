-- ===== src/OpenVpn/Packet/Data.antt =====
-- Data packets: the header that `data_header` lays out, the counter, and the sealed body.
use unroxy.Base.{
  Bool-cases, inl, inr, ℕ, ◌*◌, ◌/◌, ◌<◌, Bool, true, false, some, ◌≡◌, refl, arith, if◌then◌else◌,
  ◌==◌, ==_iff,
}
use unroxy.Base.{List, [], ◌++◌, length, length-append, append_assoc}
use unroxy.Base.{ok, slice-append, slice_from-append}
use unroxy.Base.Bits.{holds_below, holds_below_sound}
use unroxy.Base.Bytes.{be32}
use unroxy.OpenVpn.Config.{Cipher, is_aead}
use unroxy.OpenVpn.Error.{Error}
use unroxy.OpenVpn.Packet.{parse, parse_data, data_header, Packet, PeerId, p_data_v1, p_data_v2}
use Prim.Native.Nat.{bit_and, bit_or}

-- The opcode stands above the three digits of the key id.
data_opcode : ℕ → ℕ → Bool
data_opcode opcode key_id = bit_or (opcode * 8) (bit_and key_id 7) / 8 == opcode

pub opcode_of_header :
    (key_id : ℕ)
    → key_id < 256
    → (bit_or 72 (bit_and key_id 7) / 8 ≡ 9) × (bit_or 48 (bit_and key_id 7) / 8 ≡ 6)
unfolding data_opcode
opcode_of_header key_id h = (
  (==_iff _ 9).0 (holds_below_sound (data_opcode 9) 256 key_id v2 h),
  (==_iff _ 6).0 (holds_below_sound (data_opcode 6) 256 key_id v1 h),
)
  where
    v2 : holds_below (data_opcode 9) 256 ≡ true
    v2 = unfold holds_below data_opcode in refl

    v1 : holds_below (data_opcode 6) 256 ≡ true
    v1 = unfold holds_below data_opcode in refl

abbrev pub data_packet : ℕ → List ℕ → List ℕ → Packet
data_packet opcode header payload = record {
  opcode = opcode;
  session_id = [];
  packet_id = 0;
  header = header;
  payload = payload;
}

parse_data-lem :
    (opcode n : ℕ) (front body : List ℕ)
    → n ≡ (if opcode == p_data_v2 then 8 else 5)
    → length front ≡ n
    → parse_data opcode (front ++ body) ≡ ok (some (data_packet opcode front body))
unfolding parse_data
parse_data-lem opcode n front body hn h = ground (
  arith,
  length-append front body,
  slice-append Error [] front body 0 n refl (omega (arith, h)),
  slice_from-append Error front body n h,
)

abbrev pub data_code : Cipher → ℕ
data_code c = if is_aead c then p_data_v2 else p_data_v1

module _ (key_id counter : ℕ) (peer : PeerId) (body : List ℕ) (h : key_id < 256) where
  v2_packet :
      (c : Cipher)
      → is_aead c ≡ true
      → parse ((data_header c key_id peer ++ be32 counter) ++ body)
        ≡ ok (some (data_packet p_data_v2 (data_header c key_id peer ++ be32 counter) body))
  unfolding data_header be32 parse
  v2_packet c a = rw a (
      ground (
        arith,
        opcode_of_header key_id h,
        parse_data-lem p_data_v2 8 (data_header c key_id peer ++ be32 counter) body refl,
      ))

  v1_packet :
      (c : Cipher)
      → is_aead c ≡ false
      → parse ((data_header c key_id peer ++ be32 counter) ++ body)
        ≡ ok (some (data_packet p_data_v1 (data_header c key_id peer ++ be32 counter) body))
  unfolding data_header be32 parse
  v1_packet c a = rw a (
      ground (
        arith,
        opcode_of_header key_id h,
        parse_data-lem p_data_v1 5 (data_header c key_id peer ++ be32 counter) body refl,
      ))

-- A data packet with a key id of one byte is read back as its header with the counter, and its
-- body.
pub parse-data_header :
    (c : Cipher) (key_id : ℕ) (peer : PeerId) (counter : ℕ) (body : List ℕ)
    → key_id < 256
    → parse (data_header c key_id peer ++ (be32 counter ++ body))
      ≡ ok (some (data_packet (data_code c) (data_header c key_id peer ++ be32 counter) body))
parse-data_header c key_id peer counter body h =
    rw (← append_assoc (data_header c key_id peer) (be32 counter) body)
      (elim (Bool-cases (is_aead c)) [
        | inl a ↦ rw a (v2_packet key_id counter peer body h c a)
        | inr a ↦ rw a (v1_packet key_id counter peer body h c a)
      ])
