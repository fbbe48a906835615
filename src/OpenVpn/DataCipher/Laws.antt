-- ===== src/OpenVpn/DataCipher/Laws.antt =====
-- What the crates document of their ciphers and MACs: the hypotheses of the round trips. And what
-- `DataCipher::new` establishes.
use unroxy.Base.{
  ℕ, ◌+◌, ◌^◌, ◌≤◌, ◌<◌, false, not, Option, some, ◌≡◌, List, length, take, arith, min, ltb, ◌&&◌,
  length-take, length-append, length-replicate, replicate, ◌-◌, refl, Bool-cases, inl, inr, le→ltb,
}
use unroxy.Base.{ok, slice}
use unroxy.OpenVpn.Config.{Auth, sha1, sha256, sha512, Cipher, key_len, size, is_aead, iv_len}
use unroxy.OpenVpn.Error.{Error}
use unroxy.OpenVpn.Keys.{MessageDigest, digest, sha1_digest, sha256_digest, sha512_digest}
use unroxy.OpenVpn.DataCipher.{Crypto, DataCipher, new, implicit_iv_of, or_error}

abbrev pub digest_size : MessageDigest → ℕ
digest_size sha1_digest = 20
digest_size sha256_digest = 32
digest_size sha512_digest = 64

-- AES-GCM takes keys of its size and seals messages below 2 ^ 36 bytes, with a tag of 16 bytes.
pub record GcmLaws {C : Type 0} (crypto : Crypto C) : Type 0 where
  pub key256 : (key : List ℕ) → length key ≡ 32 → (c : C) × (crypto.gcm256_new key ≡ some c)
  pub key128 : (key : List ℕ) → length key ≡ 16 → (c : C) × (crypto.gcm128_new key ≡ some c)
  pub seals :
      (c : C) (nonce msg aad : List ℕ)
      → length nonce ≡ 12
      → length msg < 2 ^ 36
      → (sealed : List ℕ) × (crypto.gcm_encrypt c nonce msg aad ≡ some sealed)
        × (length sealed ≡ length msg + 16)
        × (crypto.gcm_decrypt c nonce sealed aad ≡ some msg)

-- What is sealed by an encryptor is opened by the decryptor of the same key and vector. The padding
-- fills the last block up and has a byte at least and a block at most.
abbrev pub Inverse : {C : Type 0} → Crypto C → Option C → Option C → Type 0
Inverse {C} crypto enc dec =
    (e : C) × (d : C) × (enc ≡ some e)
    × (dec ≡ some d)
    × ((m : List ℕ) → crypto.decrypt_padded d (crypto.encrypt_padded e m) ≡ some m)
    × ((m : List ℕ)
        → (16 ≤ length (crypto.encrypt_padded e m))
          × (length (crypto.encrypt_padded e m) ≤ length m + 16))

pub record CbcLaws {C : Type 0} (crypto : Crypto C) : Type 0 where
  pub pair256 :
      (key iv : List ℕ)
      → length key ≡ 32
      → length iv ≡ 16
      → Inverse crypto (crypto.cbc256_encryptor key iv) (crypto.cbc256_decryptor key iv)
  pub pair128 :
      (key iv : List ℕ)
      → length key ≡ 16
      → length iv ≡ 16
      → Inverse crypto (crypto.cbc128_encryptor key iv) (crypto.cbc128_decryptor key iv)
  -- HMAC takes every key, and its tag has the digest's size.
  pub hmac :
      (key : List ℕ) (d : MessageDigest) (m₁ m₂ : List ℕ)
      → (c₀ : C) × (c₁ : C) × (c₂ : C) × (tag : List ℕ) × (crypto.hmac_init key d ≡ some c₀)
        × (crypto.hmac_update c₀ m₁ ≡ some c₁)
        × (crypto.hmac_update c₁ m₂ ≡ some c₂)
        × (crypto.hmac_finalize c₂ ≡ some tag)
        × (length tag ≡ digest_size d)

pub record IsValid (d : DataCipher) : Type 0 where
  pub key_fits : length d.key ≡ key_len d.cipher
  pub mac_fits : is_aead d.cipher ≡ false → size d.auth ≤ length d.mac
  pub tag_size : digest_size d.digest ≡ size d.auth
  pub iv_bound : length d.implicit_iv ≤ 8

digest_of : Auth → MessageDigest
digest_of sha1 = sha1_digest
digest_of sha256 = sha256_digest
digest_of sha512 = sha512_digest

digest_lem : (a : Auth) → (digest a ≡ some (digest_of a)) × (digest_size (digest_of a) ≡ size a)
unfolding digest digest_of size
digest_lem sha1 = (refl, refl)
digest_lem sha256 = (refl, refl)
digest_lem sha512 = (refl, refl)

length-implicit_iv_of : (c : Cipher) (mac : List ℕ) → length (implicit_iv_of c mac) ≤ 8
unfolding implicit_iv_of iv_len
length-implicit_iv_of c mac = ground (
  arith,
  length-append (take 8 mac) (replicate (8 - min 8 (length mac)) 0),
  length-take 8 mac,
  length-replicate {A = ℕ} (8 - min 8 (length mac)) 0,
)

-- DataCipher::new returns a cipher that is ready for use, with the cipher and digest asked for,
-- when the key has the cipher's length at least and, without an AEAD cipher, the MAC key that of
-- the digest.
pub new-IsValid :
    (c : Cipher) (a : Auth) (key mac : List ℕ)
    → key_len c ≤ length key
    → (is_aead c ≡ false → size a ≤ length mac)
    → (d : DataCipher) × (new c a key mac ≡ ok d) × IsValid d × (d.cipher ≡ c) × (d.auth ≡ a)
new-IsValid c a key mac hk hm = (made, returns, valid, refl, refl)
  where
    made : DataCipher
    made = record {
      cipher = c;
      auth = a;
      digest = digest_of a;
      key = take (key_len c) key;
      mac = mac;
      implicit_iv = implicit_iv_of c mac;
    }

    mac_ok : (not (is_aead c) && ltb (length mac) (size a)) ≡ false
    mac_ok = elim (Bool-cases (is_aead c)) [
      | inl aead ↦ rw aead
      | inr plain ↦ let h = hm plain in rw plain (ground arith)
    ]

    key_slice : slice {E = Error} key 0 (key_len c) ≡ ok (take (key_len c) key)
    key_slice = unfold slice in ground arith

    returns : new c a key mac ≡ ok made
    returns = unfold new or_error in rw (le→ltb _ _ hk, mac_ok, (digest_lem a).0, key_slice)

    valid : IsValid made
    valid = record {
      key_fits = omega (arith, length-take (key_len c) key);
      mac_fits = hm;
      tag_size = (digest_lem a).1;
      iv_bound = length-implicit_iv_of c mac;
    }
