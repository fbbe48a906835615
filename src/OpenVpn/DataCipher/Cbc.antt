-- ===== src/OpenVpn/DataCipher/Cbc.antt =====
-- Sealing and opening with AES-CBC and HMAC, and what an accepted packet must carry.
use unroxy.Base.{ℕ, ◌+◌, ◌≤◌, false, some, ◌≡◌, refl, ◌∙◌, arith, List, ◌++◌, length, take, drop}
use unroxy.Base.{
  Result-cases, ok, ◌>>=◌, length-append, drop-append, take-append, le→ltb, slice, inl, inr,
}
use unroxy.Base.Bytes.{be32, from_be-be32, length-be32, IsU32}
use unroxy.OpenVpn.Config.{
  Auth, sha1, sha256, sha512, Cipher, aes256_gcm, aes128_gcm, aes256_cbc, aes128_cbc, is_aead,
  key_len, size,
}
use unroxy.OpenVpn.Error.{Error}
use unroxy.OpenVpn.DataCipher.{
  Crypto, DataCipher, cbc_encryptor, cbc_decryptor, encrypt_cbc, decrypt_cbc, open_cbc,
  authenticate, encrypt, decrypt, or_error,
}
use unroxy.OpenVpn.DataCipher.Laws.{CbcLaws, Inverse, IsValid}
use unroxy.OpenVpn.DataCipher.Tag.{constant_time_eq_iff}

module _ {C : Type 0} (crypto : Crypto C) where
  -- A packet that decrypt_cbc opens starts with the HMAC that the receiver computes over its vector
  -- and ciphertext.
  pub decrypt_cbc_authentic :
      (d : DataCipher) (body : List ℕ) {id : ℕ} {plaintext : List ℕ}
      → decrypt_cbc crypto d body ≡ ok (id, plaintext)
      → authenticate crypto d
          (take 16 (drop (size d.auth) body))
          (drop 16 (drop (size d.auth) body))
        ≡ ok (take (size d.auth) body)
  unfolding decrypt_cbc
  decrypt_cbc_authentic d body e =
      let n = size d.auth in
      let iv = take 16 (drop n body) in
      let ct = drop 16 (drop n body) in
      elim (Result-cases (authenticate crypto d iv ct)) [
        | inl (tag, et) ↦ ground (arith, et, (constant_time_eq_iff tag (take n body)).0)
        | inr (inl (x, ex)) ↦ ground (arith, ex)
        | inr (inr ep) ↦ ground (arith, ep)
      ]

  -- The three parts of a packet are found again.
  decrypt_cbc_parts :
      (d : DataCipher) (tag iv ciphertext : List ℕ)
      → length tag ≡ size d.auth
      → length iv ≡ 16
      → 16 ≤ length ciphertext
      → authenticate crypto d iv ciphertext ≡ ok tag
      → decrypt_cbc crypto d (tag ++ (iv ++ ciphertext)) ≡ open_cbc crypto d iv ciphertext
  unfolding decrypt_cbc
  decrypt_cbc_parts d tag iv ct ht hi hc auth = rw (
    le→ltb (length (tag ++ (iv ++ ct))) (size d.auth + 16 + 16)
        (omega (arith, length-append tag (iv ++ ct), length-append iv ct)),
    drop-append (size d.auth) tag (iv ++ ct) ht,
    take-append (size d.auth) tag (iv ++ ct) ht,
    take-append 16 iv ct hi,
    drop-append 16 iv ct hi,
    auth,
    (constant_time_eq_iff tag tag).1 refl,
  )

  open_cbc_word :
      (d : DataCipher) (iv ct plaintext : List ℕ) (id : ℕ) (k : C)
      → IsU32 id
      → cbc_decryptor crypto d.cipher d.key iv ≡ some k
      → crypto.decrypt_padded k ct ≡ some (be32 id ++ plaintext)
      → open_cbc crypto d iv ct ≡ ok (id, plaintext)
  unfolding open_cbc or_error
  open_cbc_word d iv ct plaintext id k h ek ep = rw (
    ek,
    ep,
    le→ltb (length (be32 id ++ plaintext)) 4
        (omega (arith, length-append (be32 id) plaintext, length-be32 id)),
    take-append 4 (be32 id) plaintext (length-be32 id),
    drop-append 4 (be32 id) plaintext (length-be32 id),
    from_be-be32 id h,
  )

module _ {C : Type 0} (crypto : Crypto C) (laws : CbcLaws crypto) where
  cipher_pair :
      (c : Cipher) (key iv : List ℕ)
      → is_aead c ≡ false
      → length key ≡ key_len c
      → length iv ≡ 16
      → Inverse crypto (cbc_encryptor crypto c key iv) (cbc_decryptor crypto c key iv)
  unfolding is_aead key_len cbc_encryptor cbc_decryptor
  cipher_pair aes256_gcm key iv m hk hi = cc
  cipher_pair aes128_gcm key iv m hk hi = cc
  cipher_pair aes256_cbc key iv m hk hi = laws.pair256 key iv hk hi
  cipher_pair aes128_cbc key iv m hk hi = laws.pair128 key iv hk hi

  module _ (d : DataCipher) (valid : IsValid d) (mode : is_aead d.cipher ≡ false) where
    tag_total :
        (m₁ m₂ : List ℕ)
        → (tag : List ℕ) × (authenticate crypto d m₁ m₂ ≡ ok tag) × (length tag ≡ size d.auth)
    tag_total m₁ m₂ =
        let key = take (size d.auth) d.mac in
        let (c₀, c₁, c₂, tag, e₀, e₁, e₂, e₃, l) = laws.hmac key d.digest m₁ m₂ in
        let key_slice : slice {E = Error} d.mac 0 (size d.auth) ≡ ok key =
          unfold slice in (let h = valid.mac_fits mode in ground arith) in
        (tag, unfold authenticate or_error in rw (key_slice, e₀, e₁, e₂, e₃), l ∙ valid.tag_size)

    -- With a valid CBC cipher, whose libraries work as documented, and a vector of 16 bytes,
    -- decrypt gives back the packet id of 32 bits and the plaintext of what encrypt made.
    pub decrypt-encrypt_cbc :
        (iv header plaintext : List ℕ) (id : ℕ)
        → IsU32 id
        → length iv ≡ 16
        → (encrypt crypto d iv header id plaintext >>= decrypt crypto d header) ≡ ok (id, plaintext)
    unfolding encrypt decrypt encrypt_cbc decrypt_cbc open_cbc or_error
    decrypt-encrypt_cbc iv header plaintext id hid hiv =
        let (e, k, ee, ek, inv, long) = cipher_pair d.cipher d.key iv mode valid.key_fits hiv in
        let input = be32 id ++ plaintext in
        let ct = crypto.encrypt_padded e input in
        let (tag, et, lt) = tag_total iv ct in
        rw (mode, ee, et, mode, decrypt_cbc_parts crypto d tag iv ct lt hiv (long input).0 et)
          (open_cbc_word crypto d iv ct plaintext id k hid ek (inv input))

    -- Sealing goes well and adds a tag, the vector, the packet id and the padding to the length.
    pub encrypt_cbc-ok :
        (iv header plaintext : List ℕ) (id : ℕ)
        → length iv ≡ 16
        → (body : List ℕ) × (encrypt crypto d iv header id plaintext ≡ ok body)
          × (length body ≤ length plaintext + size d.auth + 36)
    unfolding encrypt encrypt_cbc or_error
    encrypt_cbc-ok iv header plaintext id hiv =
        let (e, k, ee, ek, inv, long) = cipher_pair d.cipher d.key iv mode valid.key_fits hiv in
        let input = be32 id ++ plaintext in
        let ct = crypto.encrypt_padded e input in
        let (tag, et, lt) = tag_total iv ct in
        (
          tag ++ (iv ++ ct),
          rw (mode, ee, et),
          omega (
            arith,
            length-append tag (iv ++ ct),
            length-append iv ct,
            length-append (be32 id) plaintext,
            length-be32 id,
            (long input).1,
            lt,
            hiv,
          ),
        )

pub size_le : (a : Auth) → size a ≤ 64
unfolding size
size_le sha1 = omega arith
size_le sha256 = omega arith
size_le sha512 = omega arith
