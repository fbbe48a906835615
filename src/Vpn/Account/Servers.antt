-- ===== src/Vpn/Account/Servers.antt =====
-- The servers of a profile.
use unroxy.Base.{
  Bool, true, false, not, ◌&&◌, Option, none, some, List, [], ◌∷◌, map, All, ◌≡◌, refl, arith,
  Bool-cases, Option-cases, inl, inr,
}
use unroxy.Base.{Result, ok, err, panic}
use unroxy.Base.Text.{Text, text_eq, trim, to_ascii_uppercase}
use unroxy.OpenVpn.Config.{Cipher, Server, Profile, parse_cipher}
use unroxy.Vpn.Account.{
  Remote, AccountFile, is_udp, same_server, server_of, servers_of, insert, sort, dedup_behind,
  dedup, cipher_of, profile_with, profile,
}

abbrev pub AtHost : Text → List Server → Type 0
AtHost host servers = All (λ (s : Server). s.host ≡ host) servers

-- No server over UDP stands behind one over TCP.
abbrev pub UdpFirst : List Server → Type 0
UdpFirst [] = Unit
UdpFirst (s ∷ servers) =
    All (λ (t : Server). (is_udp t.protocol && not (is_udp s.protocol)) ≡ false) servers
    × UdpFirst servers

-- No server is the same as the one before it.
abbrev pub NoDouble : Server → List Server → Type 0
NoDouble s [] = Unit
NoDouble s (t ∷ servers) = (same_server t s ≡ false) × NoDouble t servers

abbrev pub IsServers : Text → List Server → Type 0
IsServers host [] = ⊥
IsServers host (s ∷ servers) =
    AtHost host (s ∷ servers) × UdpFirst (s ∷ servers) × NoDouble s servers

abbrev is_none : List Server → Bool
is_none [] = true
is_none (s ∷ servers) = false

-- A profile where the cipher is known, and no profile otherwise.
abbrev pub IsProfile : Text → Result Text Cipher → Result Text Profile → Type 0
IsProfile host (ok cipher) (ok made) = (made.cipher ≡ cipher) × IsServers host made.servers
IsProfile host (err reason) (err shown) = reason ≡ shown
IsProfile host c made = ⊥

module _ {κ} (P : Server → Type κ) where
  insert-All : (s : Server) (servers : List Server) → P s → All P servers → All P (insert s servers)
  unfolding insert
  insert-All s [] p ps = (p, tt)
  insert-All s (t ∷ servers) p (q, qs) =
      elim (Bool-cases (is_udp t.protocol && not (is_udp s.protocol))) [
        | inl e ↦ rw (e) (q, insert-All s servers p qs)
        | inr e ↦ rw (e) (p, (q, qs))
      ]

  sort-All : (servers : List Server) → All P servers → All P (sort servers)
  unfolding sort
  sort-All [] ps = tt
  sort-All (s ∷ servers) (p, ps) = insert-All s (sort servers) p (sort-All servers ps)

  dedup_behind-All :
      (kept : Server) (servers : List Server) → All P servers → All P (dedup_behind kept servers)
  unfolding dedup_behind
  dedup_behind-All kept [] ps = tt
  dedup_behind-All kept (s ∷ servers) (p, ps) = elim (Bool-cases (same_server s kept)) [
    | inl e ↦ rw (e) (dedup_behind-All kept servers ps)
    | inr e ↦ rw (e) (p, dedup_behind-All s servers ps)
  ]

servers_of-AtHost : (host : Text) (remotes : List Remote) → AtHost host (servers_of host remotes)
unfolding servers_of server_of
servers_of-AtHost host [] = (refl, tt)
servers_of-AtHost host (r ∷ remotes) = (refl, rest remotes)
  where
    rest : (remotes : List Remote) → AtHost host (map (server_of host) remotes)
    rest [] = tt
    rest (r ∷ remotes) = (refl, rest remotes)

implied : (x y z : Bool) → (y && not z) ≡ false → (x && not y) ≡ false → (x && not z) ≡ false
implied true true z e h = e
implied true false z e h = ground arith
implied false y z e h = refl

insert-UdpFirst :
    (s : Server) (servers : List Server) → UdpFirst servers → UdpFirst (insert s servers)
unfolding insert
insert-UdpFirst s [] h = (tt, tt)
insert-UdpFirst s (t ∷ servers) (before, h) =
    elim (Bool-cases (is_udp t.protocol && not (is_udp s.protocol))) [
      | inl e ↦ rw (e) (
        insert-All (λ (x : Server). (is_udp x.protocol && not (is_udp t.protocol)) ≡ false) s
            servers (ground (arith, e)) before,
        insert-UdpFirst s servers h,
      )
      | inr e ↦ rw (e) ((e, behind s t servers e before), (before, h))
    ]
  where
    behind :
        (s t : Server) (servers : List Server)
        → (is_udp t.protocol && not (is_udp s.protocol)) ≡ false
        → All (λ (x : Server). (is_udp x.protocol && not (is_udp t.protocol)) ≡ false) servers
        → All (λ (x : Server). (is_udp x.protocol && not (is_udp s.protocol)) ≡ false) servers
    behind s t [] e h = tt
    behind s t (x ∷ servers) e (h, hs) = (
      implied (is_udp x.protocol) (is_udp t.protocol) (is_udp s.protocol) e h,
      behind s t servers e hs,
    )

sort-UdpFirst : (servers : List Server) → UdpFirst (sort servers)
unfolding sort
sort-UdpFirst [] = tt
sort-UdpFirst (s ∷ servers) = insert-UdpFirst s (sort servers) (sort-UdpFirst servers)

dedup_behind-UdpFirst :
    (kept : Server) (servers : List Server)
    → UdpFirst servers
    → UdpFirst (dedup_behind kept servers)
unfolding dedup_behind
dedup_behind-UdpFirst kept [] h = tt
dedup_behind-UdpFirst kept (s ∷ servers) (before, h) = elim (Bool-cases (same_server s kept)) [
  | inl e ↦ rw (e) (dedup_behind-UdpFirst kept servers h)
  | inr e ↦ rw (e) (
    dedup_behind-All (λ (t : Server). (is_udp t.protocol && not (is_udp s.protocol)) ≡ false) s
        servers before,
    dedup_behind-UdpFirst s servers h,
  )
]

dedup_behind-NoDouble :
    (kept : Server) (servers : List Server) → NoDouble kept (dedup_behind kept servers)
unfolding dedup_behind
dedup_behind-NoDouble kept [] = tt
dedup_behind-NoDouble kept (s ∷ servers) = elim (Bool-cases (same_server s kept)) [
  | inl e ↦ rw (e) (dedup_behind-NoDouble kept servers)
  | inr e ↦ rw (e) (e, dedup_behind-NoDouble s servers)
]

dedup-IsServers :
    (host : Text) (servers : List Server)
    → is_none servers ≡ false
    → AtHost host servers
    → UdpFirst servers
    → IsServers host (dedup servers)
unfolding dedup
dedup-IsServers host [] e h u = ground arith
dedup-IsServers host (s ∷ servers) e (h, hs) (before, u) = (
  (h, dedup_behind-All (λ (t : Server). t.host ≡ host) s servers hs),
  (
    dedup_behind-All (λ (t : Server). (is_udp t.protocol && not (is_udp s.protocol)) ≡ false) s
        servers before,
    dedup_behind-UdpFirst s servers u,
  ),
  dedup_behind-NoDouble s servers,
)

insert-is_none : (s : Server) (servers : List Server) → is_none (insert s servers) ≡ false
unfolding insert
insert-is_none s [] = refl
insert-is_none s (t ∷ servers) = elim (Bool-cases (is_udp t.protocol && not (is_udp s.protocol))) [
  | inl e ↦ rw (e) refl
  | inr e ↦ rw (e) refl
]

sorted_some :
    (host : Text) (remotes : List Remote) → is_none (sort (servers_of host remotes)) ≡ false
unfolding servers_of sort
sorted_some host [] = refl
sorted_some host (r ∷ remotes) =
    insert-is_none (server_of host r) (sort (map (server_of host) remotes))

abbrev is_panic : Result Text Cipher → Bool
is_panic panic = true
is_panic (ok cipher) = false
is_panic (err reason) = false

cipher_of_total : (name : Option Text) → is_panic (cipher_of name) ≡ false
unfolding cipher_of parse_cipher trim to_ascii_uppercase text_eq
cipher_of_total none = refl
cipher_of_total (some name) = elim (Option-cases (parse_cipher name)) [
  | inl e ↦ ground (arith, e)
  | inr (c, e) ↦ ground (arith, e)
]

-- A profile is made for a file, with the cipher that it names or the default, unless it names one
-- that is not known. It has at least one server, all at the account's host, those over UDP before
-- those over TCP, and none of the same port and protocol as the one before it.
pub profile-IsServers :
    (file : AccountFile) (host : Text) → IsProfile host (cipher_of file.cipher) (profile file host)
unfolding profile
profile-IsServers file host = go (cipher_of file.cipher) (cipher_of_total file.cipher)
  where
    go : (c : Result Text Cipher) → is_panic c ≡ false → IsProfile host c (profile_with file host c)
    go (ok cipher) h = (
      refl,
      dedup-IsServers host (sort (servers_of host file.remotes)) (sorted_some host file.remotes)
          (sort-All (λ (s : Server). s.host ≡ host) (servers_of host file.remotes)
            (servers_of-AtHost host file.remotes))
          (sort-UdpFirst (servers_of host file.remotes)),
    )
    go (err reason) h = refl
    go panic h = ground arith
