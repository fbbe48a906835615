-- ===== src/Ssh/Ossh/Write.antt =====
-- src/ssh/ossh.rs: what is sent of the bytes that the SSH client writes. The first line and the
-- packets up to the new keys are enciphered, and what follows is sent as it is.
pub mod Sends
use unroxy.Base.{
  ℕ, zero, suc, ◌+◌, Bool, true, false, not, ◌||◌, Option, none, some, List, [], ◌∷◌, ◌++◌, length,
  take, drop, get_or, ltb, ◌==◌, if◌then◌else◌,
}
use unroxy.Base.{Result, ok, err, panic, ◌>>=◌}
use unroxy.Base.Bytes.{from_be}
use unroxy.OpenVpn.Error.{Error}
use unroxy.Ssh.Ossh.{Rc4, apply, find_crlf}

abbrev pub max_packet : ℕ
max_packet = 262144

abbrev pub msg_newkeys : ℕ
msg_newkeys = 21

pub data WriteState : Type 0 where
  ident kex done : WriteState

-- The parts of `OsshStream` that writing uses.
pub record Writer : Type 0 where
  pub c2s : Rc4
  pub wstate : WriteState
  pub wbuf : List ℕ
  pub wout : List ℕ

-- So many bytes of the buffer, enciphered.
unfoldable pub send_sealed : ℕ → WriteState → Writer → Writer
unfolding apply
send_sealed count wstate w =
    let (line, c2s) = apply w.c2s (take count w.wbuf) in
    record { c2s = c2s; wstate = wstate; wbuf = drop count w.wbuf; wout = w.wout ++ line }

-- The size of the packet at the front of the buffer, once it is there as a whole.
unfoldable pub packet_size : List ℕ → Option ℕ
packet_size wbuf =
    let packet_length = from_be (take 4 wbuf) in
    if ltb (length wbuf) 5
    then none
    else if (packet_length == 0) || ltb max_packet packet_length
    then none
    else if ltb (length wbuf) (packet_length + 4)
    then none
    else some (packet_length + 4)

-- The loop over the packets. Every round takes bytes, so that the length of the buffer is enough
-- rounds. A packet of five bytes has no sixth: the code panics.
unfoldable pub send_packets : ℕ → Writer → Result Error Writer
unfolding send_sealed packet_size
send_packets zero w = ok w
send_packets (suc rounds) w = elim (packet_size w.wbuf) [
  | none ↦ ok w
  | some total ↦
      if ltb total 6
      then panic
      else if get_or w.wbuf 5 0 == msg_newkeys
      then ok (send_sealed total done w)
      else send_packets rounds (send_sealed total kex w)
]

-- The line that the client names itself by, by the state and the place of its end.
unfoldable pub send_ident_at : WriteState → Option ℕ → Writer → Writer
unfolding send_sealed
send_ident_at ident (some index) w = send_sealed (index + 2) kex w
send_ident_at wstate found w = w

unfoldable pub send_ident : Writer → Writer
unfolding send_ident_at find_crlf
send_ident w = send_ident_at w.wstate (find_crlf w.wbuf) w

unfoldable pub send_kex : WriteState → Writer → Result Error Writer
unfolding send_packets
send_kex ident w = ok w
send_kex kex w = send_packets (length w.wbuf) w
send_kex done w = ok w

-- What is sent behind the new keys.
unfoldable pub send_rest : WriteState → Writer → Writer
send_rest ident w = w
send_rest kex w = w
send_rest done w = record w { wbuf = []; wout = w.wout ++ w.wbuf }

-- `OsshStream::process_write`
unfoldable pub process_write : Writer → Result Error Writer
unfolding send_ident send_kex send_rest
process_write w = do w' ← send_kex (send_ident w).wstate (send_ident w); ok (send_rest w'.wstate w')
