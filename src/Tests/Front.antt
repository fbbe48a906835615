-- ===== src/Tests/Front.antt =====
-- The front of the proxy at concrete inputs.
use unroxy.Base.{ℕ, true, false, Option, some, none, ◌≡◌, refl, inl, inr, List, [], ◌∷◌, ◌++◌}
use unroxy.Base.Text.{
  Text, codes, parse_decimal, contains_char, to_ascii_uppercase, is_digit, split, decimal_digits,
  ends_with,
}
use unroxy.Base.Address.{is_ip}
use unroxy.Proxy.Pool.{Protocol, ssh, vpn}
use unroxy.Proxy.Server.{Target, Route, Uri}
use unroxy.Proxy.Server.Path.RoundTrip.{parse_path-path_text}
use unroxy.Proxy.Server.Path.Sound.{parse_path-IsTarget, IsTarget}
use unroxy.Proxy.Server.Path.Names.{RegionIsNamed}
use unroxy.Proxy.Server.Path.{parse_path, split_authority, is_valid_domain, utf8_len, is_label}

abbrev uri_of : Text → Uri
uri_of path = record { scheme_str = none; authority = none; host = none; path = path; query = none }

is_ip_test :
    (is_ip (codes "2001:db8::1") ≡ true)
    × (is_ip (codes "::") ≡ true)
    × (is_ip (codes "::ffff:1.2.3.4") ≡ true)
    × (is_ip (codes "1:2:3:4:5:6:7:8") ≡ true)
    × (is_ip (codes "1:2:3:4:5:6:7:8:9") ≡ false)
    × (is_ip (codes "12345::") ≡ false)
    × (is_ip (codes "10.0.0.1") ≡ true)
unfolding is_ip unroxy.Base.Text.split unroxy.Base.Text.is_digit unroxy.Base.Text.decimal_digits
is_ip_test = (refl, refl, refl, refl, refl, refl, refl)

parse_path_test :
    parse_path (uri_of (codes "/ssh/ca/HTTP://me@ipwho.is/a/b"))
    ≡ some (
      record { region = some (codes "CA"); protocol = some ssh },
      record { scheme = codes "http"; host = codes "ipwho.is"; path = codes "/a/b"; query = [] },
    )
unfolding parse_path unroxy.Base.Text.eq_ignore_ascii_case unroxy.Base.Text.is_digit
parse_path_test = refl

split_authority_test :
    (split_authority (codes "[::1]:8443") (codes "https") ≡ (codes "::1", 8443))
    × (split_authority (codes "[::1]") (codes "https") ≡ (codes "::1", 443))
    × (split_authority (codes "a.de") (codes "http") ≡ (codes "a.de", 80))
    × (split_authority (codes "fe80::1") (codes "https") ≡ (codes "fe80:", 1))
unfolding split_authority
split_authority_test = (refl, refl, refl, refl)

abbrev request_path : Text
request_path = codes "/vpn/us/http://ipwho.is/a"

abbrev found : Option (Route × Target)
found = some (
  record { region = some (codes "US"); protocol = some vpn },
  record { scheme = codes "http"; host = codes "ipwho.is"; path = codes "/a"; query = [] },
)

parse_path-path_text_example : parse_path (uri_of request_path) ≡ found
unfolding unroxy.Proxy.Pool.protocol_name is_valid_domain contains_char to_ascii_uppercase is_digit
    split is_ip decimal_digits utf8_len is_label ends_with
parse_path-path_text_example =
    parse_path-path_text (uri_of request_path) vpn (codes "us") (codes "http") (codes "ipwho.is")
      (codes "a") refl (refl, refl, refl) refl (inr refl) refl refl refl

abbrev found_route : Route
found_route = record { region = some (codes "US"); protocol = some vpn }

abbrev found_target : Target
found_target = record {
  scheme = codes "http";
  host = codes "ipwho.is";
  path = codes "/a";
  query = [];
}

parse_path-IsTarget_example : IsTarget none found_target × RegionIsNamed (some (codes "US"))
unfolding parse_path unroxy.Base.Text.eq_ignore_ascii_case is_digit
parse_path-IsTarget_example =
    parse_path-IsTarget (uri_of request_path) found_route found_target refl
