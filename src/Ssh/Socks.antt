-- ===== src/Ssh/Socks.antt =====
-- src/ssh/socks.rs: the handshake with a SOCKS client. The session that is picked and the outcome of
-- its dial are arguments, and so are the texts of IPv6 addresses and of bytes.
pub mod Dial
use unroxy.Base.{
  ℕ, ◌*◌, ◌/◌, ◌%◌, ◌+◌, Bool, true, false, not, ◌||◌, Option, none, some, List, [], ◌∷◌, ◌++◌,
  length, take, drop, get_or, ltb, ◌==◌, if◌then◌else◌,
}
use unroxy.Base.{Result, ok, err, panic, ◌>>=◌}
use unroxy.Base.Bytes.{from_be}
use unroxy.Base.Text.{Text, codes}
use unroxy.OpenVpn.Error.{Error}
use unroxy.OpenVpn.Framing.{read_exact}

-- What was written to the client, and the target that the connection is joined to, if any. An
-- error of the stream ends the call.
abbrev pub Handled : Type 0
Handled = List ℕ × Result Error (Option (Text × ℕ))

abbrev pub hello : List ℕ
hello = 5 ∷ (0 ∷ [])

abbrev pub refusal : List ℕ
refusal = 5 ∷ (1 ∷ (0 ∷ (1 ∷ (0 ∷ (0 ∷ (0 ∷ (0 ∷ (0 ∷ (0 ∷ [])))))))))

abbrev pub success : List ℕ
success = 5 ∷ (0 ∷ (0 ∷ (1 ∷ (0 ∷ (0 ∷ (0 ∷ (0 ∷ (0 ∷ (0 ∷ [])))))))))

-- A byte in decimal digits.
abbrev octet : ℕ → Text
octet n =
    let units = (b'0' + n % 10) ∷ [] in
    if ltb n 10
    then units
    else if ltb n 100
    then (b'0' + n / 10) ∷ units
    else (b'0' + n / 100) ∷ ((b'0' + n / 10 % 10) ∷ units)

-- `Ipv4Addr::to_string`
unfoldable pub ipv4_text : List ℕ → Text
ipv4_text [] = []
ipv4_text (a ∷ []) = octet a
ipv4_text (a ∷ (b ∷ rest)) = octet a ++ (b'.' ∷ ipv4_text (b ∷ rest))

-- The greeting; `none` is a client that speaks another version.
unfoldable pub greet : List ℕ → Result Error (Option (List ℕ))
greet stream = do
  (greeting, rest) ← read_exact 2 stream
  if not (get_or greeting 0 0 == 5)
      then ok none
      else do (methods, rest') ← read_exact (get_or greeting 1 0) rest; ok (some rest')

-- An address of so many bytes, by its text.
unfoldable pub read_address : ℕ → (List ℕ → Text) → List ℕ → Result Error (Option (Text × List ℕ))
read_address size text stream = do
  (address, rest) ← read_exact size stream
  ok (some (text address, rest))

-- A name behind its length.
unfoldable pub read_name : (List ℕ → Text) → List ℕ → Result Error (Option (Text × List ℕ))
unfolding read_address
read_name text stream = do
  (len, rest) ← read_exact 1 stream
  read_address (get_or len 0 0) text rest

module _ (ipv6_text lossy : List ℕ → Text) where
  -- The host by its kind; `none` is a kind that is not known.
  unfoldable pub read_host : ℕ → List ℕ → Result Error (Option (Text × List ℕ))
  unfolding ipv4_text read_address read_name
  read_host kind stream =
      if kind == 1
      then read_address 4 ipv4_text stream
      else if kind == 4
      then read_address 16 ipv6_text stream
      else if kind == 3
      then read_name lossy stream
      else ok none

  -- The port behind the host.
  unfoldable pub read_port : Option (Text × List ℕ) → Result Error (Option (Text × ℕ))
  read_port none = ok none
  read_port (some (host, stream)) = do
    (port, rest) ← read_exact 2 stream
    ok (some (host, from_be port))

  -- The request behind the greeting; `none` is one that is not served.
  unfoldable pub request : List ℕ → Result Error (Option (Text × ℕ))
  unfolding read_host read_port
  request stream = do
    (head, rest) ← read_exact 4 stream
    if not (get_or head 0 0 == 5) || not (get_or head 1 0 == 1)
        then ok none
        else do host ← read_host (get_or head 3 0) rest; read_port host

  module _ {S : Type 0} (picked : Option S) (dial : S → Text → ℕ → Bool) where
    -- The answer to a request that was read.
    unfoldable pub answer : Text → ℕ → Handled
    answer host port = elim picked [
      | none ↦ (hello ++ refusal, ok none)
      | some session ↦
          if dial session host port
          then (hello ++ success, ok (some (host, port)))
          else (hello ++ refusal, ok none)
    ]

    unfoldable pub handle : List ℕ → Handled
    unfolding greet request answer
    handle stream = elim (greet stream) [
      | err e ↦ ([], err e)
      | panic ↦ ([], panic)
      | ok none ↦ ([], ok none)
      | ok (some rest) ↦ elim (request rest) [
        | err e ↦ (hello, err e)
        | panic ↦ (hello, panic)
        | ok none ↦ (hello, ok none)
        | ok (some (host, port)) ↦ answer host port
      ]
    ]

    -- What `record_exit` is told of, the session and the host of a connection that is joined.
    abbrev record_joined :
        {X : Type 0} → (S → Text → X → X) → Option S → Result Error (Option (Text × ℕ)) → X → X
    record_joined record_exit (some session) (ok (some (host, port))) exits =
        record_exit session host exits
    record_joined record_exit session result exits = exits

    -- The exits after `handle`, which are those of the tunnel.
    unfoldable pub exits_after : {X : Type 0} → (S → Text → X → X) → List ℕ → X → X
    unfolding handle
    exits_after record_exit stream exits = record_joined record_exit picked (handle stream).1 exits
