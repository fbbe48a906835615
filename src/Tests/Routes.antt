-- ===== src/Tests/Routes.antt =====
-- The regions, the headers and the answers of the server at concrete inputs, with what other packages
-- do as small functions.
use unroxy.Base.{
  ℕ, ◌+◌, true, false, Option, some, none, ◌≡◌, refl, sym, ap, ◌∙◌, Bool-cases, inl, inr, arith,
  List, [], ◌∷◌, filter, not, if◌then◌else◌,
}
use unroxy.Base.{ok}
use unroxy.Base.Text.{
  Text, codes, text_eq, text_eq_iff, contains_char, to_ascii_uppercase, to_ascii_lowercase,
  eq_ignore_ascii_case, is_digit, split, decimal_digits, ends_with,
}
use unroxy.Base.Address.{is_ip}
use unroxy.Proxy.Pool.{Protocol, ssh, vpn, Candidate, protocol_name}
use unroxy.Proxy.Exit.{Exit, Cache}
use unroxy.Proxy.Server.Path.{is_valid_domain, utf8_len, is_label}
use unroxy.Proxy.Server.Headers.{HeaderMap, Removes}
use unroxy.Proxy.Server.Regions.{
  Heap, Region, Proxy, add_region, region_named, variant_of, new, region_forward,
}
use unroxy.Proxy.Server.Regions.Named.{DistinctNames, add_region-DistinctNames}
use unroxy.Proxy.Server.Regions.Variants.{merged_variant}
use unroxy.Proxy.Server.Regions.Merge.{variant_named, variant_named-add_region}
use unroxy.Proxy.Server.Handle.{Outside, Request, State, Forwards, handle, answered}
use unroxy.Proxy.Server.Handle.Routed.{handle-path_text}

abbrev heap : Heap
heap = record { next = 4; proxies = λ i. []; children = λ i. [] }

abbrev region_of : Text → Protocol → ℕ → Option ℕ → Region
region_of name protocol pool forward = record {
  name = name;
  username = name;
  variants = record { protocol = protocol; pool = pool; forward = forward } ∷ [];
  merged = pool + 1;
}

abbrev proxy : Proxy
proxy = record {
  default_pool = 0;
  default_forward = none;
  protocol_pools = [];
  protocol_forwards = [];
  regions = region_of (codes "US") vpn 1 (some 7) ∷ [];
}

add_region-DistinctNames_example :
    DistinctNames (add_region (region_of (codes "us") ssh 3 none) proxy heap).0.regions
add_region-DistinctNames_example =
    add_region-DistinctNames (region_of (codes "us") ssh 3 none) proxy heap (refl, tt)

variant_named-add_region_example :
    variant_named
      (codes "Us")
      ssh
      (add_region (region_of (codes "us") ssh 3 none) proxy heap).0.regions
    ≡ (if eq_ignore_ascii_case (codes "us") (codes "Us")
        then merged_variant
            (variant_named (codes "Us") ssh proxy.regions)
            (variant_of ssh (region_of (codes "us") ssh 3 none).variants)
        else variant_named (codes "Us") ssh proxy.regions)
variant_named-add_region_example =
    variant_named-add_region (region_of (codes "us") ssh 3 none) proxy heap (codes "Us") ssh refl

-- Headers as their names and texts.
abbrev lookup : Text → List (Text × Text) → Option Text
lookup name [] = none
lookup name ((known, value) ∷ headers) =
    let rest = lookup name headers in if text_eq known name then some value else rest

abbrev http : HeaderMap
http = record {
  Headers = List (Text × Text);
  Value = Text;
  get = lookup;
  remove = λ name headers. filter (λ (h : Text × Text). not (text_eq h.0 name)) headers;
  to_str = λ value. some value;
}

same_text : (s t u : Text) → text_eq s t ≡ true → text_eq s u ≡ text_eq t u
same_text s t u e = ap (λ x. text_eq x u) ((text_eq_iff s t).0 e)

http-Removes : Removes http
http-Removes name other [] = elim (Bool-cases (text_eq name other)) [
  | inl e ↦ rw (e) refl
  | inr e ↦ rw (e) refl
]
http-Removes name other ((known, value) ∷ headers) = elim (Bool-cases (text_eq known name)) [
  | inl e ↦ elim (Bool-cases (text_eq name other)) [
    | inl f ↦ ground (arith, e, f, http-Removes name other headers)
    | inr f ↦ ground (arith, e, f, same_text known name other e, http-Removes name other headers)
  ]
  | inr e ↦ elim (Bool-cases (text_eq name other)) [
    | inl f ↦
        let apart : text_eq known other ≡ false =
          ap (text_eq known) (sym ((text_eq_iff name other).0 f)) ∙ e in
        ground (arith, e, f, apart, http-Removes name other headers)
    | inr f ↦ ground (arith, e, f, http-Removes name other headers)
  ]
]

abbrev headers : List (Text × Text)
headers = (codes "te", codes "trailers") ∷ ((codes "host", codes "a.de") ∷ [])

-- A cache as a list, the last entry first.
abbrev peek_at : Text → List (Text × Exit) → Option Exit
peek_at key [] = none
peek_at key ((known, exit) ∷ exits) =
    let rest = peek_at key exits in if text_eq known key then some exit else rest

abbrev cache : Cache
cache = record {
  Lru = List (Text × Exit);
  new = λ entries. [];
  put = λ key exit exits. (key, exit) ∷ exits;
  peek = peek_at;
  to_lowercase = to_ascii_lowercase;
}

abbrev exit : Exit
exit = record { ip = codes "1.2.3.4"; region = codes "US"; protocol = codes "openvpn" }

abbrev candidate : Candidate
candidate = record {
  key = codes "openvpn://1.2.3.4";
  tunnel = record { target_pool = 1; active_tunnels = 1; is_ready = true };
  priority = 0;
  protocol = vpn;
}

abbrev outside : Outside
outside = record {
  http = http;
  cache = cache;
  decode = λ encoded. none;
  lossy = λ bytes. bytes;
  pick = λ pool heap host. some candidate;
  Stream = ℕ;
  dial = λ c host port. inr port;
  exit_for = λ c host. exit;
}

abbrev connect_request : Request outside
connect_request = record {
  is_connect = true;
  uri = record {
    scheme_str = none;
    authority = some (codes "a.de:443");
    host = some (codes "a.de");
    path = [];
    query = none;
  };
  headers = [];
}

abbrev path_request : Request outside
path_request = record {
  is_connect = false;
  uri = record {
    scheme_str = none;
    authority = none;
    host = none;
    path = codes "/vpn/us/http://ipwho.is/a";
    query = none;
  };
  headers = headers;
}

abbrev state : State outside
state = record { heap = heap; exits = [] }

abbrev forwards : Forwards outside
forwards f request target state = (ok (record { status = 200; body = target.host }), state)

handle-path_text_example :
    handle outside forwards proxy path_request state
    ≡ answered outside forwards (
        forwards 7 path_request
          (record { scheme = codes "http"; host = codes "ipwho.is"; path = codes "/a"; query = [] })
          state)
unfolding protocol_name is_valid_domain contains_char to_ascii_uppercase is_digit split is_ip
    decimal_digits utf8_len is_label ends_with region_named region_forward eq_ignore_ascii_case
handle-path_text_example =
    handle-path_text outside forwards proxy path_request state vpn (codes "us") (codes "http")
      (codes "ipwho.is") (codes "a") (region_of (codes "US") vpn 1 (some 7)) 7 refl refl refl
      (refl, refl, refl) refl (inr refl) refl refl refl refl refl
