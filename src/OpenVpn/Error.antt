-- ===== src/OpenVpn/Error.antt =====
-- src/openvpn/error.rs: the errors of the client. `err` of `Result` carries one of these.
use unroxy.Base.Text.{Text}

-- The kinds of `std::io::Error` that the code meets.
pub data IoError : Type 0 where
  unexpected_eof would_block other : IoError

-- `data_channel` is the variant `Data`.
pub data Error : Type 0 where
  account : Text → Error
  tls : Text → Error
  control : Text → Error
  data_channel : Text → Error
  timeout : Error
  auth : Error
  transport : Text → Error
  io : IoError → Error
