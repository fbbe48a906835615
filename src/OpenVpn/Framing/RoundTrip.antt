-- ===== src/OpenVpn/Framing/RoundTrip.antt =====
-- What one side writes, the other reads back.
use unroxy.Base.{ℕ, zero, suc, ◌≤◌, ◌<◌, List, [], ◌∷◌, ◌++◌, length, All, ◌≡◌, refl}
use unroxy.Base.{Result, ok, ◌>>=◌, arith, length-append, take-append, drop-append, append_assoc}
use unroxy.Base.Bytes.{be16, from_be-be16, length-be16}
use unroxy.OpenVpn.Error.{Error}
use unroxy.OpenVpn.Framing.{read_exact, read_packet, write_packet, max_packet}

pub read_exact-append :
    (front rest : List ℕ) (n : ℕ)
    → length front ≡ n
    → read_exact n (front ++ rest) ≡ ok (front, rest)
unfolding read_exact
read_exact-append front rest n h =
    ground (arith, length-append front rest, take-append n front rest h, drop-append n front rest h)

-- A header of the length, then the payload.
read_packet-frame :
    (payload rest : List ℕ)
    → 0 < length payload
    → length payload ≤ max_packet
    → read_packet (be16 (length payload) ++ (payload ++ rest)) ≡ ok (payload, rest)
unfolding read_packet
read_packet-frame payload rest pos fits = ground (
  arith,
  read_exact-append (be16 (length payload)) (payload ++ rest) 2 (length-be16 (length payload)),
  from_be-be16 (length payload),
  read_exact-append payload rest (length payload) refl,
)

abbrev pub IsFrame : List ℕ → Type 0
IsFrame payload = (0 < length payload) × (length payload ≤ max_packet)

framed :
    (payload : List ℕ)
    → IsFrame payload
    → write_packet payload ≡ ok (be16 (length payload) ++ payload)
unfolding write_packet
framed payload (pos, fits) = ground arith

-- A payload of 1 to 65535 bytes is what read_packet gives on the bytes that write_packet writes,
-- with all that follows left on the stream.
pub read_packet-write_packet :
    (payload rest : List ℕ)
    → IsFrame payload
    → (write_packet payload >>= λ frame. read_packet (frame ++ rest)) ≡ ok (payload, rest)
read_packet-write_packet payload rest (pos, fits) =
    rw (framed payload (pos, fits), append_assoc (be16 (length payload)) payload rest)
      (read_packet-frame payload rest pos fits)

-- All the payloads in one stream.
pub write_all : List (List ℕ) → Result Error (List ℕ)
write_all [] = ok []
write_all (p ∷ ps) = do frame ← write_packet p; frames ← write_all ps; ok (frame ++ frames)

-- `read_packet` as often as told.
pub read_all : ℕ → List ℕ → Result Error (List (List ℕ))
read_all zero stream = ok []
read_all (suc n) stream = do (p, rest) ← read_packet stream; ps ← read_all n rest; ok (p ∷ ps)

All-framed :
    (payloads : List (List ℕ))
    → All IsFrame payloads
    → (stream : List ℕ) × (write_all payloads ≡ ok stream)
      × (read_all (length payloads) stream ≡ ok payloads)
unfolding write_all read_all
All-framed [] h = ([], refl, refl)
All-framed (p ∷ ps) ((pos, fits), h) =
    let (stream, w, r) = All-framed ps h in
    (
      (be16 (length p) ++ p) ++ stream,
      rw (framed p (pos, fits), w) refl,
      rw (append_assoc (be16 (length p)) p stream, read_packet-frame p stream pos fits, r) refl,
    )

-- Whatever payloads of 1 to 65535 bytes one side writes to a stream with write_packet, the other
-- reads the same payloads with read_packet, none joined and none split.
pub read_all-write_all :
    (payloads : List (List ℕ))
    → All IsFrame payloads
    → (write_all payloads >>= read_all (length payloads)) ≡ ok payloads
read_all-write_all payloads h = let (stream, w, r) = All-framed payloads h in rw (w, r) refl
