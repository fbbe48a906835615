-- ===== src/Vpn/Account.antt =====
-- src/vpn/account.rs: the profile that an account's file makes. Reading the files is the work of other
-- packages: a file is what was read of it.
pub mod Servers
use unroxy.Base.{
  ℕ, Bool, true, false, not, ◌&&◌, Option, none, some, List, [], ◌∷◌, ◌++◌, map, ◌==◌,
  if◌then◌else◌,
}
use unroxy.Base.{Result, ok, err, panic, ◌>>=◌}
use unroxy.Base.Text.{Text, codes, text_eq, trim, starts_with, ends_with}
use unroxy.OpenVpn.Config.{
  Protocol, udp, tcp, Auth, sha1, Cipher, Server, Credentials, Profile, parse_auth, parse_cipher,
}

pub record Remote : Type 0 where
  pub port : Option ℕ
  pub protocol : Option Text

-- `Account`, what a file holds.
pub record AccountFile : Type 0 where
  pub region : Text
  pub cipher : Option Text
  pub auth : Option Text
  pub ca : Text
  pub cert : Text
  pub key : Text
  pub remotes : List Remote

unfoldable pub protocol_of : Option Text → Protocol
protocol_of none = udp
protocol_of (some value) =
    if text_eq value (codes "tcp")
    then tcp
    else if text_eq value (codes "tcp-client")
    then tcp
    else if text_eq value (codes "tcp-server")
    then tcp
    else udp

unfoldable pub pem : Text → Text → Text
unfolding trim starts_with ends_with
pem value label =
    let trimmed = trim value in
    let begins = codes "-----BEGIN " ++ (label ++ codes "-----") in
    let ends = codes "-----END " ++ (label ++ codes "-----") in
    if starts_with begins trimmed && ends_with ends trimmed then trimmed ++ (10 ∷ []) else trimmed

abbrev pub is_udp : Protocol → Bool
is_udp udp = true
is_udp tcp = false

abbrev pub same_transport : Protocol → Protocol → Bool
same_transport udp udp = true
same_transport tcp tcp = true
same_transport p q = false

unfoldable pub server_of : Text → Remote → Server
unfolding protocol_of
server_of host remote = record {
  host = host;
  port = elim remote.port [ none ↦ 1194 | some port ↦ port ];
  protocol = protocol_of remote.protocol;
}

-- The servers of the remotes, or one at the port of OpenVPN.
unfoldable pub servers_of : Text → List Remote → List Server
unfolding server_of
servers_of host [] = record { host = host; port = 1194; protocol = udp } ∷ []
servers_of host (remote ∷ remotes) = server_of host remote ∷ map (server_of host) remotes

-- `sort_by_key` on whether the protocol is another than UDP, which is stable.
unfoldable pub insert : Server → List Server → List Server
insert s [] = s ∷ []
insert s (t ∷ servers) =
    let rest = insert s servers in
    if is_udp t.protocol && not (is_udp s.protocol) then t ∷ rest else s ∷ (t ∷ servers)

unfoldable pub sort : List Server → List Server
unfolding insert
sort [] = []
sort (s ∷ servers) = insert s (sort servers)

abbrev pub same_server : Server → Server → Bool
same_server a b = (a.port == b.port) && same_transport a.protocol b.protocol

-- `dedup_by`: without the servers that are the same as the one kept before them.
unfoldable pub dedup_behind : Server → List Server → List Server
dedup_behind kept [] = []
dedup_behind kept (s ∷ servers) =
    if same_server s kept then dedup_behind kept servers else s ∷ dedup_behind s servers

unfoldable pub dedup : List Server → List Server
unfolding dedup_behind
dedup [] = []
dedup (s ∷ servers) = s ∷ dedup_behind s servers

-- The cipher that is named, or the default.
unfoldable pub cipher_of : Option Text → Result Text Cipher
unfolding parse_cipher
cipher_of (some name) = elim (parse_cipher name) [
  | some c ↦ ok c
  | none ↦ err (codes "cipher " ++ name)
]
cipher_of none = elim (parse_cipher (codes "AES-256-GCM")) [ some c ↦ ok c | none ↦ panic ]

unfoldable pub auth_of : Option Text → Auth
unfolding parse_auth
auth_of none = sha1
auth_of (some name) = elim (parse_auth name) [ some a ↦ a | none ↦ sha1 ]

-- `Account::profile` with its cipher, if it is known.
unfoldable pub profile_with : AccountFile → Text → Result Text Cipher → Result Text Profile
unfolding auth_of servers_of sort dedup pem
profile_with file host (err reason) = err reason
profile_with file host panic = panic
profile_with file host (ok cipher) = ok record {
  servers = dedup (sort (servers_of host file.remotes));
  cipher = cipher;
  auth = auth_of file.auth;
  credentials = record {
    ca = pem file.ca (codes "CERTIFICATE");
    cert = pem file.cert (codes "CERTIFICATE");
    key = pem file.key (codes "PRIVATE KEY");
  };
}

unfoldable pub profile : AccountFile → Text → Result Text Profile
unfolding cipher_of profile_with
profile file host = profile_with file host (cipher_of file.cipher)
