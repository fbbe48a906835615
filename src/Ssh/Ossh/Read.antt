-- ===== src/Ssh/Ossh/Read.antt =====
-- src/ssh/ossh.rs: what the SSH client reads of the bytes that arrive. Lines before the server's own
-- are dropped, and the packets up to the new keys are deciphered and padded anew.
pub mod Enough
use unroxy.Base.{
  ℕ, zero, suc, ◌+◌, ◌-◌, ◌<◌, ◌≤◌, Bool, true, false, ◌||◌, Option, none, some, is_some, List, [],
  ◌∷◌, ◌++◌, length, take, drop, get_or, ltb, ◌==◌, if◌then◌else◌,
}
use unroxy.Base.{Result, ok, err, panic, ◌>>=◌}
use unroxy.Base.Bytes.{from_be}
use unroxy.Base.Text.{codes, starts_with, ends_with}
use unroxy.OpenVpn.Error.{Error}
use unroxy.Ssh.Ossh.{Rc4, apply, normalize_packet}
use unroxy.Ssh.Ossh.Write.{max_packet, msg_newkeys}

abbrev pub max_line : ℕ
max_line = 4096

pub data ReadState : Type 0 where
  ident kex done : ReadState

-- The parts of `OsshStream` that reading uses.
pub record Reader : Type 0 where
  pub s2c : Rc4
  pub rstate : ReadState
  pub rin : List ℕ
  pub rbuf : List ℕ
  pub rline : List ℕ
  pub kex_prefix : Option (List ℕ × ℕ)

-- A round of the loop leaves it or goes on.
pub data Round : Type 0 where
  stop go : Reader → Round

-- A byte of the lines that come first.
unfoldable pub read_ident : Reader → List ℕ → Round
unfolding apply starts_with ends_with
read_ident r [] = stop r
read_ident r (byte ∷ rin) =
    let (plain, s2c) = apply r.s2c (byte ∷ []) in
    let line = r.rline ++ plain in
    let behind = record r { s2c = s2c; rin = rin; rline = [] } in
    if ltb max_line (length line)
    then go behind
    else if ends_with (codes "\r\n") line
    then (if starts_with (codes "SSH-") line
        then stop (record behind { rbuf = r.rbuf ++ line; rstate = kex })
        else go behind)
    else go (record behind { rline = line })

-- The rest of a packet behind its first five bytes, of which so many are to come.
unfoldable pub read_rest : Reader → List ℕ → ℕ → Result Error Round
unfolding apply normalize_packet
read_rest r prefix remaining =
    let (rest, s2c) = apply r.s2c (take remaining r.rin) in
    let packet = prefix ++ rest in
    if ltb (length r.rin) remaining
    then ok (stop (record r { kex_prefix = some (prefix, remaining) }))
    else do
      normalized ← normalize_packet packet
      let behind = record r {
        s2c = s2c;
        rin = drop remaining r.rin;
        rbuf = r.rbuf ++ normalized;
        kex_prefix = none;
      }
      ok (
          if get_or packet 5 0 == msg_newkeys
          then stop (record behind { rstate = done })
          else go behind)

-- The first five bytes of a packet, and what follows them.
unfoldable pub read_kex : Reader → Option (List ℕ × ℕ) → Result Error Round
unfolding apply read_rest from_be
read_kex r (some (prefix, remaining)) = read_rest r prefix remaining
read_kex r none =
    let (prefix, s2c) = apply r.s2c (take 5 r.rin) in
    let behind = record r { s2c = s2c; rin = drop 5 r.rin } in
    let packet_length = from_be (take 4 prefix) in
    if ltb (length r.rin) 5
    then ok (stop r)
    else if (packet_length == 0) || ltb max_packet packet_length
    then ok (stop behind)
    else read_rest behind prefix (packet_length - 1)

unfoldable pub read_round : Reader → ReadState → Result Error Round
unfolding read_ident read_kex
read_round r ident = ok (read_ident r r.rin)
read_round r kex = read_kex r r.kex_prefix
read_round r done = ok (stop r)

unfoldable pub read_rounds : ℕ → Reader → Result Error Reader
unfolding read_round
read_rounds zero r = ok r
read_rounds (suc n) r = elim (read_round r r.rstate) [
  | ok (stop r') ↦ ok r'
  | ok (go r') ↦ read_rounds n r'
  | err e ↦ err e
  | panic ↦ panic
]

-- `OsshStream::process_read`. Every round but the last takes a byte or the prefix that is at hand.
unfoldable pub process_read : Reader → Result Error Reader
unfolding read_rounds
process_read r = read_rounds (length r.rin + 2) r
