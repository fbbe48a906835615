-- ===== src/OpenVpn/Framing.antt =====
-- src/openvpn/framing.rs: packets on a TCP stream, each behind its length in two bytes.
-- What a stream will deliver before it ends is a list of bytes; what is written is one too.
pub mod RoundTrip
use unroxy.Base.{ℕ, ◌<◌, List, [], ◌∷◌, ◌++◌, length, take, drop, if◌then◌else◌, ltb, ◌==◌}
use unroxy.Base.{Result, ok, err, ◌>>=◌}
use unroxy.Base.Bytes.{be16, from_be}
use unroxy.Base.Text.{codes}
use unroxy.OpenVpn.Error.{Error, IoError, transport, io, unexpected_eof}

abbrev pub max_packet : ℕ
max_packet = 65535

-- `read_exact`: `n` bytes and what is left of the stream.
unfoldable pub read_exact : ℕ → List ℕ → Result Error (List ℕ × List ℕ)
read_exact n stream =
    if ltb (length stream) n then err (io unexpected_eof) else ok (take n stream, drop n stream)

unfoldable pub read_packet : List ℕ → Result Error (List ℕ × List ℕ)
read_packet stream = do
  (header, rest) ← read_exact 2 stream
  let size = from_be header
  if size == 0 then err (transport (codes "empty frame")) else read_exact size rest

-- The bytes that the call puts on the stream.
unfoldable pub write_packet : List ℕ → Result Error (List ℕ)
write_packet payload =
    if ltb max_packet (length payload)
    then err (transport (codes "packet too large"))
    else ok (be16 (length payload) ++ payload)
