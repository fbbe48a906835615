-- ===== src/Proxy/Server.antt =====
-- src/proxy/server.rs: the proxy's front. Requests name a region and a protocol, by their path or by
-- the name they sign in with, and are forwarded or tunnelled.
pub mod Path
pub mod Headers
pub mod Index
pub mod Handle
pub mod Regions
use unroxy.Base.{ℕ, Option, none, some, List, [], ◌∷◌, ◌++◌}
use unroxy.Base.Text.{Text, is_empty, codes}
use unroxy.Proxy.Pool.{Protocol}

pub data Error : Type 0 where
  unknown_region unsupported_scheme missing_target forward_unavailable : Error
  tunnel upstream io forward : Text → Error

-- The text of an error.
unfoldable pub error_text : Error → Text
error_text unknown_region = codes "unknown proxy region"
error_text unsupported_scheme = codes "unsupported scheme"
error_text missing_target = codes "missing target host"
error_text forward_unavailable = codes "forwarding unavailable"
error_text (tunnel reason) = codes "ssh: " ++ reason
error_text (upstream reason) = codes "upstream: " ++ reason
error_text (io reason) = codes "io: " ++ reason
error_text (forward reason) = codes "forward: " ++ reason

pub record Response : Type 0 where
  pub status : ℕ
  pub body : Text

-- The status of `error_response`
unfoldable pub error_status : Error → ℕ
error_status unsupported_scheme = 400
error_status missing_target = 400
error_status forward_unavailable = 501
error_status unknown_region = 502
error_status (tunnel reason) = 502
error_status (forward reason) = 502
error_status (upstream reason) = 502
error_status (io reason) = 503

unfoldable pub error_response : Error → Response
unfolding error_status error_text
error_response err = record { status = error_status err; body = error_text err }

pub record Target : Type 0 where
  pub scheme : Text
  pub host : Text
  pub path : Text
  pub query : Text

-- `Target::uri` before the text is parsed
unfoldable pub uri_text : Target → Text
uri_text target =
    let uri = target.scheme ++ (codes "://" ++ (target.host ++ target.path)) in
    elim target.query [ [] ↦ uri | c ∷ q ↦ uri ++ (b'?' ∷ (c ∷ q)) ]

pub record Route : Type 0 where
  pub region : Option Text
  pub protocol : Option Protocol

-- `Route::region`
unfoldable pub region_or_default : Route → Text
region_or_default route = elim route.region [ none ↦ [] | some name ↦ name ]

-- What `hyper::Uri` answers.
pub record Uri : Type 0 where
  pub scheme_str : Option Text
  pub authority : Option Text
  pub host : Option Text
  pub path : Text
  pub query : Option Text
