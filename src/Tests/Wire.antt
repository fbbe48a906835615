-- ===== src/Tests/Wire.antt =====
-- The wire formats at concrete inputs.
use unroxy.Base.{ℕ, some, ◌≡◌, refl, arith, List, [], ◌∷◌, ◌++◌, replicate, ok, panic, ◌>>=◌}
use unroxy.Base.Bytes.{be32}
use unroxy.Base.Text.{starts_with, strip_prefix}
use unroxy.OpenVpn.Framing.RoundTrip.{read_all, write_all, read_all-write_all}
use unroxy.OpenVpn.Packet.{parse, first_byte, encode_acks, p_control_v1, p_ack_v1}
use unroxy.OpenVpn.Packet.Panics.{parse_panics_iff}
use unroxy.OpenVpn.Packet.Parse.{packet_of, parse-control, parse-ack}
use unroxy.OpenVpn.Push.{take_message, message_at, position, zero_at}
use unroxy.OpenVpn.Push.Message.{Found, take_message-Found}

-- An acknowledgement of one packet that ends before the session id behind it.
abbrev cut_ack : List ℕ
cut_ack = 40 ∷ (replicate 8 1 ++ (1 ∷ (replicate 4 0 ++ replicate 3 2)))

parse_panics_iff_example : parse cut_ack ≡ panic
parse_panics_iff_example =
    (parse_panics_iff cut_ack).1 (refl, omega arith, omega arith, omega arith)

parse-control_example :
    parse (
      first_byte p_control_v1
      ∷ (replicate 8 1
          ++ (encode_acks (7 ∷ (6 ∷ [])) (replicate 8 2) ++ (be32 9 ++ (22 ∷ (3 ∷ []))))))
    ≡ ok (some (packet_of p_control_v1 (replicate 8 1) 9 [] (22 ∷ (3 ∷ []))))
parse-control_example =
    parse-control p_control_v1 (replicate 8 1) (replicate 8 2) (7 ∷ (6 ∷ [])) (22 ∷ (3 ∷ [])) 9
      (omega arith) (omega arith) (omega arith) refl refl (omega arith)

parse-ack_example :
    parse (first_byte p_ack_v1 ∷ (replicate 8 1 ++ encode_acks (7 ∷ []) (replicate 8 2)))
    ≡ ok (some (packet_of p_ack_v1 (replicate 8 1) 0 [] []))
parse-ack_example = parse-ack (replicate 8 1) (replicate 8 2) (7 ∷ []) refl refl

read_all-write_all_example :
    (write_all ((1 ∷ (2 ∷ [])) ∷ ((3 ∷ []) ∷ [])) >>= read_all 2)
    ≡ ok ((1 ∷ (2 ∷ [])) ∷ ((3 ∷ []) ∷ []))
read_all-write_all_example =
    read_all-write_all ((1 ∷ (2 ∷ [])) ∷ ((3 ∷ []) ∷ []))
      ((omega arith, omega arith), ((omega arith, omega arith), tt))

-- Two bytes of noise, the message, its end, and a byte of what follows.
abbrev buffer : List ℕ
buffer = 1 ∷ (0 ∷ (80 ∷ (85 ∷ (44 ∷ (0 ∷ (5 ∷ []))))))

message_there : take_message buffer (80 ∷ (85 ∷ [])) ≡ ok (some (80 ∷ (85 ∷ (44 ∷ [])), 5 ∷ []))
message_there = unfold take_message message_at position zero_at starts_with strip_prefix in refl

take_message-Found_example : Found buffer (80 ∷ (85 ∷ [])) (80 ∷ (85 ∷ (44 ∷ []))) (5 ∷ [])
take_message-Found_example = take_message-Found buffer (80 ∷ (85 ∷ [])) message_there
