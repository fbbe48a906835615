-- ===== src/OpenVpn/DataCipher.antt =====
-- src/openvpn/crypto/aes.rs: sealing and opening data packets, with AES-GCM or AES-CBC and HMAC.
-- The ciphers and HMAC are a parameter; a keyed cipher or MAC in progress is a value of its type `C`.
pub mod Laws
pub mod Tag
pub mod Gcm
pub mod Cbc
use unroxy.Base.{ℕ, ◌+◌, ◌-◌, ◌^◌, ◌<◌, min, Bool, true, false, not, Option, none, some, ◌&&◌}
use unroxy.Base.{List, [], ◌∷◌, ◌++◌, length, take, drop, replicate, ltb, leb, ◌==◌, if◌then◌else◌}
use unroxy.Base.{Result, ok, err, panic, ◌>>=◌, slice, slice_from}
use unroxy.Base.Bytes.{be32, from_be}
use unroxy.Base.Text.{Text, codes}
use unroxy.OpenVpn.Config.{Auth, size, Cipher, aes256_gcm, aes128_gcm, aes256_cbc, aes128_cbc}
use unroxy.OpenVpn.Config.{is_aead, key_len, iv_len}
use unroxy.OpenVpn.Error.{Error, data_channel}
use unroxy.OpenVpn.Keys.{MessageDigest, digest}
use Prim.Native.Nat.{bit_or, bit_xor}

-- The calls into the crates aes-gcm, cbc and btls; `none` is their `Err`.
pub record Crypto (C : Type 0) : Type 0 where
  pub gcm256_new : List ℕ → Option C
  pub gcm128_new : List ℕ → Option C
  -- A key, the nonce, the message and the associated data; the tag stands last.
  pub gcm_encrypt : C → List ℕ → List ℕ → List ℕ → Option (List ℕ)
  pub gcm_decrypt : C → List ℕ → List ℕ → List ℕ → Option (List ℕ)
  -- A key and an initialisation vector.
  pub cbc256_encryptor : List ℕ → List ℕ → Option C
  pub cbc128_encryptor : List ℕ → List ℕ → Option C
  pub cbc256_decryptor : List ℕ → List ℕ → Option C
  pub cbc128_decryptor : List ℕ → List ℕ → Option C
  pub encrypt_padded : C → List ℕ → List ℕ
  pub decrypt_padded : C → List ℕ → Option (List ℕ)
  pub hmac_init : List ℕ → MessageDigest → Option C
  pub hmac_update : C → List ℕ → Option C
  pub hmac_finalize : C → Option (List ℕ)

-- `map_err`, and `ok_or_else`
unfoldable pub or_error : {A : Type 0} → Text → Option A → Result Error A
or_error message none = err (data_channel message)
or_error message (some a) = ok a

pub record DataCipher : Type 0 where
  pub cipher : Cipher
  pub auth : Auth
  pub digest : MessageDigest
  pub key : List ℕ
  pub mac : List ℕ
  pub implicit_iv : List ℕ

abbrev pub tag_len : ℕ
tag_len = 16

-- The first bytes of the MAC key, filled up with zeros.
unfoldable pub implicit_iv_of : Cipher → List ℕ → List ℕ
implicit_iv_of c mac =
    if is_aead c
    then (let n = iv_len c - 4 in take n mac ++ replicate (n - min n (length mac)) 0)
    else []

-- `DataCipher::new`
unfoldable pub new : Cipher → Auth → List ℕ → List ℕ → Result Error DataCipher
unfolding or_error implicit_iv_of
new cipher auth key mac =
    if ltb (length key) (key_len cipher)
    then err (data_channel (codes "short key"))
    else if not (is_aead cipher) && ltb (length mac) (size auth)
    then err (data_channel (codes "short mac key"))
    else do
      d ← or_error (codes "unknown digest") (digest auth)
      k ← slice key 0 (key_len cipher)
      ok (record {
        cipher = cipher;
        auth = auth;
        digest = d;
        key = k;
        mac = mac;
        implicit_iv = implicit_iv_of cipher mac;
      })

-- 12 bytes: the packet id, up to eight bytes of the implicit part, zeros.
unfoldable pub aead_nonce : List ℕ → ℕ → List ℕ
aead_nonce implicit_iv packet_id =
    be32 packet_id ++ (take 8 implicit_iv ++ replicate (8 - min 8 (length implicit_iv)) 0)

-- `sealed.len() - tag_len` must not pass zero.
unfoldable pub tag_first : List ℕ → ℕ → Result Error (List ℕ)
tag_first sealed n =
    if ltb (length sealed) n
    then panic
    else ok (drop (length sealed - n) sealed ++ take (length sealed - n) sealed)

unfoldable pub tag_last : List ℕ → Result Error (List ℕ)
tag_last body = do back ← slice_from body tag_len; front ← slice body 0 tag_len; ok (back ++ front)

unfoldable pub difference : ℕ → List ℕ → List ℕ → ℕ
difference diff [] bs = diff
difference diff (a ∷ as_) [] = diff
difference diff (a ∷ as_) (b ∷ bs) = difference (bit_or diff (bit_xor a b)) as_ bs

unfoldable pub constant_time_eq : List ℕ → List ℕ → Bool
unfolding difference
constant_time_eq as_ bs = if length as_ == length bs then difference 0 as_ bs == 0 else false

module _ {C : Type 0} (crypto : Crypto C) where
  open crypto use {gcm256_new, gcm128_new, gcm_encrypt, gcm_decrypt}
  open crypto use {cbc256_encryptor, cbc128_encryptor, cbc256_decryptor, cbc128_decryptor}
  open crypto use {encrypt_padded, decrypt_padded, hmac_init, hmac_update, hmac_finalize}

  -- `aead`; both kinds of cipher are values of `C`.
  unfoldable pub aead : Cipher → List ℕ → Result Error C
  unfolding or_error
  aead aes256_gcm key = or_error (codes "gcm key") (gcm256_new key)
  aead aes128_gcm key = or_error (codes "gcm key") (gcm128_new key)
  aead aes256_cbc key = err (data_channel (codes "not an aead cipher"))
  aead aes128_cbc key = err (data_channel (codes "not an aead cipher"))

  unfoldable pub encrypt_aead : DataCipher → List ℕ → ℕ → List ℕ → Result Error (List ℕ)
  unfolding or_error
  encrypt_aead d header packet_id plaintext = do
    let iv = aead_nonce d.implicit_iv packet_id
    k ← aead d.cipher d.key
    sealed ← or_error (codes "gcm encrypt") (gcm_encrypt k iv plaintext header)
    tag_first sealed tag_len

  -- The packet id is the last four bytes of the header; a shorter header is a panic.
  unfoldable pub header_id : List ℕ → Result Error ℕ
  header_id header =
      if ltb (length header) 4 then panic else ok (from_be (drop (length header - 4) header))

  unfoldable pub decrypt_aead : DataCipher → List ℕ → List ℕ → Result Error (ℕ × List ℕ)
  unfolding or_error header_id
  decrypt_aead d header body =
      if ltb (length body) tag_len then err (data_channel (codes "short gcm packet")) else do
        packet_id ← header_id header
        sealed ← tag_last body
        let iv = aead_nonce d.implicit_iv packet_id
        k ← aead d.cipher d.key
        plaintext ← or_error (codes "gcm decrypt") (gcm_decrypt k iv sealed header)
        ok (packet_id, plaintext)

  -- The HMAC of the vector and the ciphertext, under the first bytes of the MAC key.
  unfoldable pub authenticate : DataCipher → List ℕ → List ℕ → Result Error (List ℕ)
  unfolding or_error
  authenticate d iv ciphertext = do
    key ← slice d.mac 0 (size d.auth)
    m ← or_error (codes "hmac init") (hmac_init key d.digest)
    m' ← or_error (codes "hmac") (hmac_update m iv)
    m'' ← or_error (codes "hmac") (hmac_update m' ciphertext)
    or_error (codes "hmac") (hmac_finalize m'')

  unfoldable pub cbc_encryptor : Cipher → List ℕ → List ℕ → Option C
  cbc_encryptor aes256_cbc key iv = cbc256_encryptor key iv
  cbc_encryptor _ key iv = cbc128_encryptor key iv

  unfoldable pub cbc_decryptor : Cipher → List ℕ → List ℕ → Option C
  cbc_decryptor aes256_cbc key iv = cbc256_decryptor key iv
  cbc_decryptor _ key iv = cbc128_decryptor key iv

  -- `iv` is what `rand::fill` wrote.
  unfoldable pub encrypt_cbc : DataCipher → List ℕ → ℕ → List ℕ → Result Error (List ℕ)
  unfolding or_error
  encrypt_cbc d iv packet_id plaintext = do
    let input = be32 packet_id ++ plaintext
    k ← or_error (codes "cbc key") (cbc_encryptor d.cipher d.key iv)
    let ciphertext = encrypt_padded k input
    tag ← authenticate d iv ciphertext
    ok (tag ++ (iv ++ ciphertext))

  -- What follows the comparison of the tags.
  unfoldable pub open_cbc : DataCipher → List ℕ → List ℕ → Result Error (ℕ × List ℕ)
  unfolding or_error
  open_cbc d iv ciphertext = do
    k ← or_error (codes "cbc key") (cbc_decryptor d.cipher d.key iv)
    plaintext ← or_error (codes "cbc padding") (decrypt_padded k ciphertext)
    if ltb (length plaintext) 4
        then err (data_channel (codes "short cbc payload"))
        else ok (from_be (take 4 plaintext), drop 4 plaintext)

  unfoldable pub decrypt_cbc : DataCipher → List ℕ → Result Error (ℕ × List ℕ)
  unfolding open_cbc
  decrypt_cbc d body =
      let mac_len = size d.auth in
      if ltb (length body) (mac_len + 16 + 16)
      then err (data_channel (codes "short cbc packet"))
      else (let tag = take mac_len body in
          let iv = take 16 (drop mac_len body) in
          let ciphertext = drop 16 (drop mac_len body) in
          authenticate d iv ciphertext >>= λ expected.
          if not (constant_time_eq expected tag)
          then err (data_channel (codes "hmac mismatch"))
          else open_cbc d iv ciphertext)

  -- `encrypt` and `decrypt`; `iv` is read by the CBC ciphers alone.
  unfoldable pub encrypt : DataCipher → List ℕ → List ℕ → ℕ → List ℕ → Result Error (List ℕ)
  encrypt d iv nonce packet_id plaintext =
      if is_aead d.cipher
      then encrypt_aead d nonce packet_id plaintext
      else encrypt_cbc d iv packet_id plaintext

  unfoldable pub decrypt : DataCipher → List ℕ → List ℕ → Result Error (ℕ × List ℕ)
  decrypt d header body =
      if is_aead d.cipher then decrypt_aead d header body else decrypt_cbc d body
