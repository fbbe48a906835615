-- ===== src/OpenVpn/Keys.antt =====
-- src/openvpn/crypto/keys.rs: the pseudo-random function of TLS 1.0 and the data channel's keys.
-- HMAC-MD5 and HMAC-SHA1 are parameters: functions of a key and a message.
pub mod Prf
pub mod Derive
use unroxy.Base.{ℕ, zero, suc, ◌+◌, ◌-◌, ◌*◌, ◌/◌, Option, none, some, List, [], ◌∷◌, ◌++◌}
use unroxy.Base.{length, take, drop, leb, if◌then◌else◌, Result, ok, ◌>>=◌, slice}
use unroxy.Base.Text.{Text, codes}
use unroxy.OpenVpn.Config.{Auth, sha1, sha256, sha512, Cipher, key_len}
use unroxy.OpenVpn.Error.{Error}
use Prim.Native.Nat.{bit_xor}
use mathlib.Core.List.{flatten}

abbrev pub master_len : ℕ
master_len = 48

abbrev pub half_key_len : ℕ
half_key_len = 64

-- `KEY2_LEN`
abbrev pub key2_len : ℕ
key2_len = 4 * half_key_len

abbrev pub Mac : Type 0
Mac = List ℕ → List ℕ → List ℕ

-- The loop of `p_hash`. It goes on while `out` is short; each round appends a block.
unfoldable pub p_hash_loop : Mac → List ℕ → List ℕ → ℕ → ℕ → List ℕ → List ℕ → List ℕ
p_hash_loop mac secret seed len zero a out = out
p_hash_loop mac secret seed len (suc fuel) a out =
    let block = mac secret (a ++ seed) in
    let rest = p_hash_loop mac secret seed len fuel (mac secret a) (out ++ block) in
    if leb len (length out) then out else rest

-- `len` rounds are enough when a block has a byte at least.
unfoldable pub p_hash : Mac → List ℕ → List ℕ → ℕ → List ℕ
unfolding p_hash_loop
p_hash mac secret seed len = take len (p_hash_loop mac secret seed len len (mac secret seed) [])

unfoldable pub zip_xor : List ℕ → List ℕ → List ℕ
zip_xor [] bs = []
zip_xor (a ∷ as_) [] = []
zip_xor (a ∷ as_) (b ∷ bs) = bit_xor a b ∷ zip_xor as_ bs

-- The seeds are the six arrays of `Seed` with the pre-master secret.
pub record SeedData : Type 0 where
  pub pre_master : List ℕ
  pub client_random1 : List ℕ
  pub server_random1 : List ℕ
  pub client_random2 : List ℕ
  pub server_random2 : List ℕ
  pub client_sid : List ℕ
  pub server_sid : List ℕ

pub record KeyMaterial : Type 0 where
  pub encrypt : List ℕ
  pub decrypt : List ℕ
  pub mac_encrypt : List ℕ
  pub mac_decrypt : List ℕ

module _ (hmac_md5 hmac_sha1 : Mac) where
  -- The halves of the secret overlap in one byte if its length is odd; both slices are in range.
  unfoldable pub prf : List ℕ → Text → List (List ℕ) → ℕ → List ℕ
  unfolding p_hash zip_xor
  prf secret label seed len =
      let label_seed = label ++ flatten seed in
      let half = (length secret + 1) / 2 in
      zip_xor (p_hash hmac_md5 (take half secret) label_seed len)
        (p_hash hmac_sha1 (drop (length secret - half) secret) label_seed len)

  unfoldable pub expand : SeedData → List ℕ
  expand s =
      let master =
        prf s.pre_master (codes "OpenVPN master secret") (s.client_random1 ∷ s.server_random1 ∷ [])
          master_len in
      prf master (codes "OpenVPN key expansion")
        (s.client_random2 ∷ s.server_random2 ∷ s.client_sid ∷ s.server_sid ∷ []) key2_len

  -- `KeyMaterial::derive`
  unfoldable pub derive : SeedData → Cipher → ℕ → Result Error KeyMaterial
  derive s cipher mac_len = do
    let expanded = expand s
    let n = half_key_len
    encrypt ← slice expanded 0 (key_len cipher)
    mac_encrypt ← slice expanded n (n + mac_len)
    decrypt ← slice expanded (n + n) (n + n + key_len cipher)
    mac_decrypt ← slice expanded (n + n + n) (n + n + n + mac_len)
    ok (record {
      encrypt = encrypt;
      decrypt = decrypt;
      mac_encrypt = mac_encrypt;
      mac_decrypt = mac_decrypt;
    })

-- The digests of the TLS library that `digest` chooses from.
pub data MessageDigest : Type 0 where
  sha1_digest sha256_digest sha512_digest : MessageDigest

unfoldable pub digest : Auth → Option MessageDigest
digest sha1 = some sha1_digest
digest sha256 = some sha256_digest
digest sha512 = some sha512_digest
