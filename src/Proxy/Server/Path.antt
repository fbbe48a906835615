-- ===== src/Proxy/Server/Path.antt =====
-- src/proxy/server.rs: the target in the path of a request, and the host and port of an authority.
pub mod Names
pub mod Sound
pub mod RoundTrip
pub mod Authority
use unroxy.Base.{
  ℕ, zero, suc, Bool, true, false, not, ◌&&◌, ◌||◌, Option, none, some, List, [], ◌∷◌, length, drop,
  all, leb, ltb, ◌==◌, ◌+◌, if◌then◌else◌,
}
use unroxy.Base.Text.{
  Text, is_empty, codes, text_eq, trim_start, trim_matches, to_ascii_uppercase, to_ascii_lowercase,
  starts_with, ends_with, split, split_once, rsplit_once, contains_char, is_digit, parse_decimal,
}
use unroxy.Base.Address.{is_ip}
use unroxy.Proxy.Pool.{Protocol, parse_protocol}
use unroxy.Proxy.Server.{Target, Route, Uri}

-- `unwrap_or_default`
abbrev pub or_empty : Option Text → Text
or_empty none = []
or_empty (some s) = s

-- `str::len`: the bytes of the characters in UTF-8.
unfoldable pub utf8_len : Text → ℕ
utf8_len [] = 0
utf8_len (c ∷ s) =
    (if ltb c 128 then 1 else if ltb c 2048 then 2 else if ltb c 65536 then 3 else 4) + utf8_len s

abbrev pub is_label_char : ℕ → Bool
is_label_char c =
    (leb b'0' c && leb c b'9')
    || (leb b'a' c && leb c b'z')
    || (leb b'A' c && leb c b'Z')
    || (c == b'-')

-- A part of a domain.
unfoldable pub is_label : Text → Bool
unfolding utf8_len starts_with ends_with
is_label part =
    not (is_empty part)
    && leb (utf8_len part) 63
    && not (starts_with (b'-' ∷ []) part)
    && not (ends_with (b'-' ∷ []) part)
    && all is_label_char part

unfoldable pub is_valid_domain : Text → Bool
unfolding is_label is_ip contains_char split utf8_len
is_valid_domain domain =
    if is_empty domain || ltb 253 (utf8_len domain)
    then false
    else if is_ip domain
    then true
    else if not (contains_char b'.' domain)
    then false
    else all is_label (split b'.' domain)

-- One name in front of the target: the protocol or the region, where that one is not known yet.
unfoldable pub take_head :
    Option Protocol → Option Text → Text → Option (Option Protocol × Option Text)
unfolding parse_protocol to_ascii_uppercase contains_char
take_head protocol region head =
    if is_empty head || contains_char b'.' head || contains_char b':' head
    then none
    else elim protocol [
      | some p ↦ elim region [
        | some r ↦ none
        | none ↦ some (some p, some (to_ascii_uppercase head))
      ]
      | none ↦ elim (parse_protocol head) [
        | some p ↦ some (some p, region)
        | none ↦ elim region [ some r ↦ none | none ↦ some (none, some (to_ascii_uppercase head)) ]
      ]
    ]

-- The loop over the names in front of the target.
unfoldable pub take_heads :
    ℕ → Option Protocol → Option Text → Text → Option Protocol × Option Text × Text
unfolding take_head split_once
take_heads zero protocol region rest = (protocol, region, rest)
take_heads (suc n) protocol region rest = elim (split_once b'/' rest) [
  | none ↦ (protocol, region, rest)
  | some (head, tail) ↦ elim (take_head protocol region head) [
    | none ↦ (protocol, region, rest)
    | some (p, r) ↦ take_heads n p r tail
  ]
]

-- The scheme in front of the target, in letters of either case.
unfoldable pub take_scheme : Text → Text × Text
unfolding to_ascii_lowercase starts_with
take_scheme rest =
    let lower = to_ascii_lowercase rest in
    if starts_with (codes "https://") lower
    then (codes "https", drop 8 rest)
    else if starts_with (codes "http://") lower
    then (codes "http", drop 7 rest)
    else if starts_with (codes "https:") lower
    then (codes "https", drop 6 rest)
    else if starts_with (codes "http:") lower
    then (codes "http", drop 5 rest)
    else (codes "https", rest)

-- The domain and the path behind it.
unfoldable pub split_path : Text → Text × Text
unfolding split_once
split_path rest = elim (split_once b'/' rest) [
  | none ↦ (rest, codes "/")
  | some (domain, path) ↦ (domain, b'/' ∷ path)
]

-- The domain behind the last `@`.
unfoldable pub drop_user : Text → Text
unfolding rsplit_once
drop_user domain = elim (rsplit_once b'@' domain) [ none ↦ domain | some (user, host) ↦ host ]

-- The target from the scheme on.
unfoldable pub parse_target : Option Text → Text → Option Target
unfolding take_scheme split_path drop_user is_valid_domain trim_start
parse_target query lead =
    let (scheme, behind) = take_scheme lead in
    let rest = trim_start (λ c. c == b'/') behind in
    let (domain, path) = split_path rest in
    let host = drop_user domain in
    if is_empty rest
    then none
    else if not (is_valid_domain host)
    then none
    else some record { scheme = scheme; host = host; path = path; query = or_empty query }

-- The route beside the target, where there is one.
abbrev pub with_route : Route → Option Target → Option (Route × Target)
with_route route none = none
with_route route (some target) = some (route, target)

unfoldable pub parse_path : Uri → Option (Route × Target)
unfolding take_heads parse_target trim_start
parse_path uri =
    let rest = trim_start (λ c. c == b'/') uri.path in
    let (protocol, region, lead) = take_heads 2 none none rest in
    if is_empty rest
    then none
    else with_route (record { region = region; protocol = protocol }) (parse_target uri.query lead)

abbrev pub is_bracket : ℕ → Bool
is_bracket c = (c == b'[') || (c == b']')

-- `split_authority` where no port is given
unfoldable pub default_port : Text → Text → Text × ℕ
unfolding text_eq trim_matches
default_port authority scheme =
    (trim_matches is_bracket authority, if text_eq scheme (codes "https") then 443 else 80)

unfoldable pub split_authority : Text → Text → Text × ℕ
unfolding default_port rsplit_once parse_decimal contains_char ends_with
split_authority authority scheme = elim (rsplit_once b':' authority) [
  | none ↦ default_port authority scheme
  | some (host, port) ↦ elim (parse_decimal 65535 port) [
    | none ↦ default_port authority scheme
    | some n ↦
        if not (contains_char b']' host) || ends_with (b']' ∷ []) host
        then (trim_matches is_bracket host, n)
        else default_port authority scheme
  ]
]
