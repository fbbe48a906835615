-- ===== src/OpenVpn/Config.antt =====
-- src/openvpn/config.rs: protocols, digests and ciphers.
pub mod Names
use unroxy.Base.{ℕ, Bool, true, false, Option, none, some, List, if◌then◌else◌}
use unroxy.Base.Text.{Text, codes, trim, to_ascii_uppercase, text_eq}

pub data Protocol : Type 0 where
  udp tcp : Protocol

pub data Auth : Type 0 where
  sha1 sha256 sha512 : Auth

pub data Cipher : Type 0 where
  aes256_gcm aes128_gcm aes256_cbc aes128_cbc : Cipher

unfoldable pub protocol_name : Protocol → Text
protocol_name udp = codes "udp"
protocol_name tcp = codes "tcp"

unfoldable pub auth_name : Auth → Text
auth_name sha1 = codes "SHA1"
auth_name sha256 = codes "SHA256"
auth_name sha512 = codes "SHA512"

unfoldable pub cipher_name : Cipher → Text
cipher_name aes256_gcm = codes "AES-256-GCM"
cipher_name aes128_gcm = codes "AES-128-GCM"
cipher_name aes256_cbc = codes "AES-256-CBC"
cipher_name aes128_cbc = codes "AES-128-CBC"

unfoldable pub parse_auth : Text → Option Auth
parse_auth name =
    let key = to_ascii_uppercase (trim name) in
    if text_eq key (codes "SHA1")
    then some sha1
    else if text_eq key (codes "SHA256")
    then some sha256
    else if text_eq key (codes "SHA512")
    then some sha512
    else none

unfoldable pub parse_cipher : Text → Option Cipher
parse_cipher name =
    let key = to_ascii_uppercase (trim name) in
    if text_eq key (codes "AES-256-GCM")
    then some aes256_gcm
    else if text_eq key (codes "AES-128-GCM")
    then some aes128_gcm
    else if text_eq key (codes "AES-256-CBC")
    then some aes256_cbc
    else if text_eq key (codes "AES-128-CBC")
    then some aes128_cbc
    else none

-- `Auth::size`
unfoldable pub size : Auth → ℕ
size sha1 = 20
size sha256 = 32
size sha512 = 64

unfoldable pub is_aead : Cipher → Bool
is_aead aes256_gcm = true
is_aead aes128_gcm = true
is_aead aes256_cbc = false
is_aead aes128_cbc = false

unfoldable pub key_len : Cipher → ℕ
key_len aes256_gcm = 32
key_len aes256_cbc = 32
key_len aes128_gcm = 16
key_len aes128_cbc = 16

unfoldable pub iv_len : Cipher → ℕ
iv_len c = if is_aead c then 12 else 16

pub record Server : Type 0 where
  pub host : Text
  pub port : ℕ
  pub protocol : Protocol

pub record Credentials : Type 0 where
  pub ca : Text
  pub cert : Text
  pub key : Text

pub record Profile : Type 0 where
  pub servers : List Server
  pub cipher : Cipher
  pub auth : Auth
  pub credentials : Credentials
