-- ===== src/OpenVpn/Tls.antt =====
-- What the control channel asks of its TLS session, src/openvpn/tls.rs. A call gives its result and
-- the session after it, on an error too. `Tls/Session.antt` is the implementation.
pub mod Session
use unroxy.Base.{ℕ, Bool, Option, List, Result}
use unroxy.OpenVpn.Error.{Error}

pub record TlsOps (T : Type 0) : Type 0 where
  pub is_ready : T → Bool
  pub feed : T → List ℕ → Result Error (Unit {0}) × T
  pub drive : T → Result Error (Unit {0}) × T
  pub take_outbound : T → List ℕ × T
  pub take_plaintext : T → Option (List ℕ) × T
  pub write : T → List ℕ → Result Error (Unit {0}) × T
