-- ===== src/OpenVpn/Config/Names.antt =====
-- The names of ciphers and digests are read back, in any case and with white space around.
use unroxy.Base.{some, ◌≡◌}
use unroxy.Base.Text.{Text, trim, to_ascii_uppercase, text_eq}
use unroxy.OpenVpn.Config.{Auth, Cipher, sha1, sha256, sha512, auth_name, cipher_name}
use unroxy.OpenVpn.Config.{aes256_gcm, aes128_gcm, aes256_cbc, aes128_cbc}
use unroxy.OpenVpn.Config.{parse_auth, parse_cipher}

-- A text that trims and upper-cases to a cipher's name is read as that cipher.
pub parse_cipher-cipher_name :
    (c : Cipher) (t : Text) → to_ascii_uppercase (trim t) ≡ cipher_name c → parse_cipher t ≡ some c
unfolding parse_cipher cipher_name text_eq
parse_cipher-cipher_name aes256_gcm t h = rw h
parse_cipher-cipher_name aes128_gcm t h = rw h
parse_cipher-cipher_name aes256_cbc t h = rw h
parse_cipher-cipher_name aes128_cbc t h = rw h

pub parse_auth-auth_name :
    (a : Auth) (t : Text) → to_ascii_uppercase (trim t) ≡ auth_name a → parse_auth t ≡ some a
unfolding parse_auth auth_name text_eq
parse_auth-auth_name sha1 t h = rw h
parse_auth-auth_name sha256 t h = rw h
parse_auth-auth_name sha512 t h = rw h
