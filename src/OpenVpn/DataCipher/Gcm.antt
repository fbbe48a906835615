-- ===== src/OpenVpn/DataCipher/Gcm.antt =====
-- Sealing and opening with AES-GCM.
use unroxy.Base.{ℕ, ◌+◌, ◌-◌, ◌^◌, ◌<◌, true, ◌≡◌, arith, List, ◌++◌, length}
use unroxy.Base.{ok, ◌>>=◌, length-append, drop-append, le→ltb}
use unroxy.Base.Bytes.{be32, from_be-be32, length-be32, IsU32}
use unroxy.OpenVpn.Config.{Cipher, aes256_gcm, aes128_gcm, aes256_cbc, aes128_cbc, is_aead, key_len}
use unroxy.OpenVpn.DataCipher.{
  Crypto, DataCipher, aead, aead_nonce, encrypt_aead, decrypt_aead, encrypt, decrypt, header_id,
  or_error,
}
use unroxy.OpenVpn.DataCipher.Laws.{GcmLaws, IsValid}
use unroxy.OpenVpn.DataCipher.Tag.{tag_moves, length-aead_nonce}

module _ {C : Type 0} (crypto : Crypto C) (laws : GcmLaws crypto) where
  -- A key of the cipher's length is accepted.
  aead_key :
      (c : Cipher) (key : List ℕ)
      → is_aead c ≡ true
      → length key ≡ key_len c
      → (k : C) × (aead crypto c key ≡ ok k)
  unfolding aead is_aead key_len or_error
  aead_key aes256_gcm key a h = let (k, e) = laws.key256 key h in (k, rw e)
  aead_key aes128_gcm key a h = let (k, e) = laws.key128 key h in (k, rw e)
  aead_key aes256_cbc key a h = cc
  aead_key aes128_cbc key a h = cc

  header_id-append :
      (front : List ℕ) (id : ℕ) → IsU32 id → header_id crypto (front ++ be32 id) ≡ ok id
  unfolding header_id
  header_id-append front id h = ground (
    arith,
    length-append front (be32 id),
    length-be32 id,
    drop-append (length (front ++ be32 id) - 4) front (be32 id),
    from_be-be32 id h,
  )

  module _ (d : DataCipher) (valid : IsValid d) (mode : is_aead d.cipher ≡ true) where
    -- With a valid GCM cipher, whose library seals as documented, decrypt gives back the packet id
    -- and the plaintext of what encrypt made under the same header, for a header that ends in the
    -- packet id and a plaintext below 2 ^ 36 bytes.
    pub decrypt-encrypt_gcm :
        (iv front plaintext : List ℕ) (id : ℕ)
        → IsU32 id
        → length plaintext < 2 ^ 36
        → (encrypt crypto d iv (front ++ be32 id) id plaintext
            >>= decrypt crypto d (front ++ be32 id))
          ≡ ok (id, plaintext)
    unfolding encrypt decrypt encrypt_aead decrypt_aead or_error
    decrypt-encrypt_gcm iv front plaintext id hid hp =
        let (k, ek) = aead_key d.cipher d.key mode valid.key_fits in
        let nonce = aead_nonce d.implicit_iv id in
        let (sealed, es, ls, ds) =
          laws.seals k nonce plaintext (front ++ be32 id) (length-aead_nonce d.implicit_iv id) hp in
        let (body, eb, lb, nb) = tag_moves sealed (omega (arith, ls)) in
        let long = le→ltb (length body) 16 (omega (arith, ls, nb)) in
        rw (mode, ek, es, eb, mode, long, header_id-append front id hid, lb, ek, ds)

    -- Sealing goes well and adds the tag to the length.
    pub encrypt_gcm-ok :
        (iv header plaintext : List ℕ) (id : ℕ)
        → length plaintext < 2 ^ 36
        → (body : List ℕ) × (encrypt crypto d iv header id plaintext ≡ ok body)
          × (length body ≡ length plaintext + 16)
    unfolding encrypt encrypt_aead or_error
    encrypt_gcm-ok iv header plaintext id hp =
        let (k, ek) = aead_key d.cipher d.key mode valid.key_fits in
        let nonce = aead_nonce d.implicit_iv id in
        let (sealed, es, ls, ds) =
          laws.seals k nonce plaintext header (length-aead_nonce d.implicit_iv id) hp in
        let (body, eb, lb, nb) = tag_moves sealed (omega (arith, ls)) in
        (body, rw (mode, ek, es, eb), omega (arith, nb, ls))
