-- ===== src/Ssh/Socks/Dial.antt =====
-- A client's request for a host name is dialled as it was written.
use unroxy.Base.{
  ℕ, ◌<◌, ◌^◌, Bool, Option, none, some, ◌≡◌, refl, arith, List, [], ◌∷◌, ◌++◌, length,
  if◌then◌else◌,
}
use unroxy.Base.{ok}
use unroxy.Base.Bytes.{be16, from_be-be16, length-be16}
use unroxy.Base.Text.{Text}
use unroxy.OpenVpn.Framing.RoundTrip.{read_exact-append}
use unroxy.Ssh.Socks.{
  hello, refusal, success, greet, request, read_host, read_port, read_name, read_address, answer,
  handle,
}

-- The bytes of a client: its methods, and a connect request for a host name.
abbrev pub client_bytes : List ℕ → List ℕ → ℕ → List ℕ → List ℕ
client_bytes methods host port more =
    (5 ∷ (length methods ∷ []))
    ++ (methods
        ++ ((5 ∷ (1 ∷ (0 ∷ (3 ∷ [])))) ++ ((length host ∷ []) ++ (host ++ (be16 port ++ more)))))

greet-methods :
    (methods rest : List ℕ)
    → greet ((5 ∷ (length methods ∷ [])) ++ (methods ++ rest)) ≡ ok (some rest)
unfolding greet
greet-methods methods rest = ground (
  arith,
  read_exact-append (5 ∷ (length methods ∷ [])) (methods ++ rest) 2 refl,
  read_exact-append methods rest (length methods) refl,
)

module _ (ipv6_text lossy : List ℕ → Text) where
  request-host :
      (host more : List ℕ) (port : ℕ)
      → port < 2 ^ 16
      → request ipv6_text lossy
          ((5 ∷ (1 ∷ (0 ∷ (3 ∷ [])))) ++ ((length host ∷ []) ++ (host ++ (be16 port ++ more))))
        ≡ ok (some (lossy host, port))
  unfolding request read_host read_port read_name read_address
  request-host host more port h = ground (
    arith,
    read_exact-append (5 ∷ (1 ∷ (0 ∷ (3 ∷ []))))
        ((length host ∷ []) ++ (host ++ (be16 port ++ more))) 4 refl,
    read_exact-append (length host ∷ []) (host ++ (be16 port ++ more)) 1 refl,
    read_exact-append host (be16 port ++ more) (length host) refl,
    read_exact-append (be16 port) more 2 (length-be16 port),
    from_be-be16 port,
  )

  handled :
      {S : Type 0} (picked : Option S) (dial : S → Text → ℕ → Bool) (stream rest : List ℕ)
      (host : Text) (port : ℕ)
      → greet stream ≡ ok (some rest)
      → request ipv6_text lossy rest ≡ ok (some (host, port))
      → handle ipv6_text lossy picked dial stream ≡ answer ipv6_text lossy picked dial host port
  unfolding handle
  handled picked dial stream rest host port g r = ground (arith, g, r)

  -- A SOCKS client that offers any methods and asks to connect to a host name and a port of 16 bits
  -- gets the greeting and then success, and is joined to this host and port, exactly when a session
  -- was picked and its dial works; otherwise it gets the greeting and the refusal.
  pub handle-connect :
      {S : Type 0} (picked : Option S) (dial : S → Text → ℕ → Bool) (methods host more : List ℕ)
      (port : ℕ)
      → port < 2 ^ 16
      → handle ipv6_text lossy picked dial (client_bytes methods host port more) ≡ (elim picked [
        | none ↦ (hello ++ refusal, ok none)
        | some session ↦
            if dial session (lossy host) port
            then (hello ++ success, ok (some (lossy host, port)))
            else (hello ++ refusal, ok none)
      ])
  unfolding answer
  handle-connect picked dial methods host more port h =
      let rest =
        (5 ∷ (1 ∷ (0 ∷ (3 ∷ [])))) ++ ((length host ∷ []) ++ (host ++ (be16 port ++ more))) in
      handled picked dial (client_bytes methods host port more) rest (lossy host) port
        (greet-methods methods rest) (request-host host more port h)
