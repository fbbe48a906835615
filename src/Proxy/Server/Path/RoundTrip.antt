-- ===== src/Proxy/Server/Path/RoundTrip.antt =====
-- The path that names a protocol, a region, a scheme, a host and a path is read as these.
use unroxy.Base.{
  true, false, Option, none, some, ◌≡◌, refl, ap, ◌∙◌, arith, [], ◌∷◌, ◌++◌, ◌==◌, inl, inr,
}
use unroxy.Base.Text.{
  Text, is_empty, codes, contains_char, trim_start, to_ascii_uppercase, eq_ignore_ascii_case,
}
use unroxy.Base.Text.Cut.{split_once-join, rsplit_once-none}
use unroxy.Proxy.Pool.{Protocol, ssh, vpn, protocol_name}
use unroxy.Proxy.Server.{Target, Uri}
use unroxy.Proxy.Server.Path.{
  or_empty, is_valid_domain, take_head, take_heads, take_scheme, split_path, drop_user,
  parse_target, with_route, parse_path,
}
use unroxy.Proxy.Server.Path.Names.{IsHead, take_heads-step}
use unroxy.Proxy.Server.Path.Sound.{IsScheme}

-- The target as a text.
abbrev pub target_text : Text → Text → Text → Text
target_text scheme host tail = scheme ++ (codes "://" ++ (host ++ (b'/' ∷ tail)))

-- The path of a request that names the protocol and the region as well.
abbrev pub path_text : Protocol → Text → Text → Text → Text → Text
path_text p region scheme host tail =
    b'/' ∷ (protocol_name p ++ (b'/' ∷ (region ++ (b'/' ∷ target_text scheme host tail))))

protocol_name-slash : (p : Protocol) → contains_char b'/' (protocol_name p) ≡ false
unfolding protocol_name contains_char
protocol_name-slash ssh = refl
protocol_name-slash vpn = refl

take_head-protocol : (p : Protocol) → take_head none none (protocol_name p) ≡ some (some p, none)
unfolding take_head protocol_name eq_ignore_ascii_case
take_head-protocol ssh = refl
take_head-protocol vpn = refl

take_head-region :
    (p : Protocol) (head : Text)
    → IsHead head
    → take_head (some p) none head ≡ some (some p, some (to_ascii_uppercase head))
unfolding take_head
take_head-region p head (e, dot, colon) = ground (arith, e, dot, colon)

take_heads-names :
    (p : Protocol) (region lead : Text)
    → IsHead region
    → contains_char b'/' region ≡ false
    → take_heads 2 none none (protocol_name p ++ (b'/' ∷ (region ++ (b'/' ∷ lead))))
      ≡ (some p, some (to_ascii_uppercase region), lead)
unfolding take_heads
take_heads-names p region lead h slash =
    let behind = region ++ (b'/' ∷ lead) in
    take_heads-step 1 none (some p) none none (protocol_name p ++ (b'/' ∷ behind)) (protocol_name p)
      behind (split_once-join b'/' (protocol_name p) behind (protocol_name-slash p))
      (take_head-protocol p)
    ∙ take_heads-step 0 (some p) (some p) none (some (to_ascii_uppercase region)) behind region lead
        (split_once-join b'/' region lead slash) (take_head-region p region h)

take_scheme-text :
    (scheme rest : Text)
    → IsScheme scheme
    → take_scheme (scheme ++ (codes "://" ++ rest)) ≡ (scheme, rest)
unfolding take_scheme
take_scheme-text scheme rest (inl e) = rw (e) refl
take_scheme-text scheme rest (inr e) = rw (e) refl

-- A host in front of a slash is not trimmed.
trim_start-host :
    (host tail : Text)
    → is_empty host ≡ false
    → contains_char b'/' host ≡ false
    → trim_start (λ c. c == b'/') (host ++ (b'/' ∷ tail)) ≡ host ++ (b'/' ∷ tail)
unfolding trim_start contains_char
trim_start-host [] tail h slash = ground arith
trim_start-host (c ∷ host) tail h slash = ground arith

split_path-host :
    (host tail : Text)
    → contains_char b'/' host ≡ false
    → split_path (host ++ (b'/' ∷ tail)) ≡ (host, b'/' ∷ tail)
unfolding split_path
split_path-host host tail slash = ground (arith, split_once-join b'/' host tail slash)

drop_user-host : (host : Text) → contains_char b'@' host ≡ false → drop_user host ≡ host
unfolding drop_user
drop_user-host host at = ground (arith, rsplit_once-none b'@' host at)

parse_target-parts :
    (query : Option Text) (lead scheme rest domain tail : Text)
    → take_scheme lead ≡ (scheme, rest)
    → trim_start (λ c. c == b'/') rest ≡ rest
    → is_empty rest ≡ false
    → split_path rest ≡ (domain, tail)
    → drop_user domain ≡ domain
    → is_valid_domain domain ≡ true
    → parse_target query lead
      ≡ some record { scheme = scheme; host = domain; path = tail; query = or_empty query }
unfolding parse_target
parse_target-parts query lead scheme rest domain tail es et ee ep ed ev =
    rw (es, et, ee, ep, ed, ev) refl

is_valid_domain-is_empty : (host : Text) → is_valid_domain host ≡ true → is_empty host ≡ false
unfolding is_valid_domain
is_valid_domain-is_empty [] h = ground arith
is_valid_domain-is_empty (c ∷ host) h = refl

is_empty-join : (host tail : Text) → is_empty (host ++ (b'/' ∷ tail)) ≡ false
is_empty-join [] tail = refl
is_empty-join (c ∷ host) tail = refl

parse_target-target_text :
    (query : Option Text) (scheme host tail : Text)
    → IsScheme scheme
    → is_valid_domain host ≡ true
    → contains_char b'/' host ≡ false
    → contains_char b'@' host ≡ false
    → parse_target query (target_text scheme host tail)
      ≡ some record { scheme = scheme; host = host; path = b'/' ∷ tail; query = or_empty query }
parse_target-target_text query scheme host tail s v slash at =
    parse_target-parts query (target_text scheme host tail) scheme (host ++ (b'/' ∷ tail)) host
      (b'/' ∷ tail) (take_scheme-text scheme (host ++ (b'/' ∷ tail)) s)
      (trim_start-host host tail (is_valid_domain-is_empty host v) slash) (is_empty-join host tail)
      (split_path-host host tail slash) (drop_user-host host at) v

parse_path-parts :
    (uri : Uri) (rest : Text) (protocol : Option Protocol) (region : Option Text) (lead : Text)
    → (target : Target) → trim_start (λ c. c == b'/') uri.path ≡ rest
    → is_empty rest ≡ false
    → take_heads 2 none none rest ≡ (protocol, region, lead)
    → parse_target uri.query lead ≡ some target
    → parse_path uri ≡ some (record { region = region; protocol = protocol }, target)
unfolding parse_path
parse_path-parts uri rest protocol region lead target et ee eh ep =
    rw (et, ee, eh) (ap (with_route (record { region = region; protocol = protocol })) ep)

trim_start-path_text :
    (p : Protocol) (region scheme host tail : Text)
    → trim_start (λ c. c == b'/') (path_text p region scheme host tail)
      ≡ protocol_name p ++ (b'/' ∷ (region ++ (b'/' ∷ target_text scheme host tail)))
unfolding trim_start protocol_name
trim_start-path_text ssh region scheme host tail = refl
trim_start-path_text vpn region scheme host tail = refl

-- A path made of a protocol's name, a region without `/`, `.` and `:`, the scheme http or https, a
-- host that `is_valid_domain` accepts and that has no `/` or `@`, and what is behind the host, each
-- behind its separator, is read as a route of that protocol and the region in upper case and the
-- target of that scheme, host, path and the query of the request.
pub parse_path-path_text :
    (uri : Uri) (p : Protocol) (region scheme host tail : Text)
    → uri.path ≡ path_text p region scheme host tail
    → IsHead region
    → contains_char b'/' region ≡ false
    → IsScheme scheme
    → is_valid_domain host ≡ true
    → contains_char b'/' host ≡ false
    → contains_char b'@' host ≡ false
    → parse_path uri
      ≡ some (
        record { region = some (to_ascii_uppercase region); protocol = some p },
        record { scheme = scheme; host = host; path = b'/' ∷ tail; query = or_empty uri.query },
      )
parse_path-path_text uri p region scheme host tail e h slash s v host_slash at =
    parse_path-parts uri
      (protocol_name p ++ (b'/' ∷ (region ++ (b'/' ∷ target_text scheme host tail)))) (some p)
      (some (to_ascii_uppercase region)) (target_text scheme host tail)
      (record { scheme = scheme; host = host; path = b'/' ∷ tail; query = or_empty uri.query })
      (ap (trim_start (λ c. c == b'/')) e ∙ trim_start-path_text p region scheme host tail)
      (is_empty-join (protocol_name p) (region ++ (b'/' ∷ target_text scheme host tail)))
      (take_heads-names p region (target_text scheme host tail) h slash)
      (parse_target-target_text uri.query scheme host tail s v host_slash at)
