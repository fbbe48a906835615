-- ===== src/OpenVpn/Keys/Derive.antt =====
-- The four sections of the expanded key.
use unroxy.Base.{ℕ, ◌+◌, ◌-◌, ◌≤◌, List, length, take, drop, ◌≡◌, refl, ap, arith}
use unroxy.Base.{ok, slice}
use unroxy.OpenVpn.Config.{
  Auth, sha1, sha256, sha512, size, Cipher, key_len, aes256_gcm, aes128_gcm, aes256_cbc, aes128_cbc,
}
use unroxy.OpenVpn.Error.{Error}
use unroxy.OpenVpn.Keys.{Mac, SeedData, KeyMaterial, expand, derive}
use unroxy.OpenVpn.Keys.Prf.{Productive, length-prf}

pub key_len_bound : (c : Cipher) → key_len c ≤ 32
unfolding key_len
key_len_bound aes256_gcm = omega arith
key_len_bound aes128_gcm = omega arith
key_len_bound aes256_cbc = omega arith
key_len_bound aes128_cbc = omega arith

pub size_bound : (a : Auth) → size a ≤ 64
unfolding size
size_bound sha1 = omega arith
size_bound sha256 = omega arith
size_bound sha512 = omega arith

-- The section of `n` bytes from `start` on.
abbrev pub section : List ℕ → ℕ → ℕ → List ℕ
section xs start n = take n (drop start xs)

slice-section :
    (xs : List ℕ) (start n stop : ℕ)
    → stop ≡ start + n
    → stop ≤ length xs
    → slice {E = Error} xs start stop ≡ ok (section xs start n)
unfolding slice
slice-section xs start n stop e h = ground (arith, ap (λ k. take k (drop start xs)) back)
  where
    back : stop - start ≡ n
    back = omega arith

abbrev pub material_of : List ℕ → ℕ → ℕ → KeyMaterial
material_of xs n m = record {
  encrypt = section xs 0 n;
  decrypt = section xs 128 n;
  mac_encrypt = section xs 64 m;
  mac_decrypt = section xs 192 m;
}

module _ (md5 sha1_mac : Mac) (hm : Productive md5) (hs : Productive sha1_mac) where
  length-expand : (s : SeedData) → length (expand md5 sha1_mac s) ≡ 256
  unfolding expand
  length-expand s = length-prf md5 sha1_mac hm hs _ _ _ 256

  -- When HMAC never gives an empty result, KeyMaterial::derive never panics for the program's
  -- ciphers and digests: the keys are the four sections of the expansion, 64 bytes apart, each of
  -- the length that the cipher and the digest ask for.
  pub derive_sections :
      (s : SeedData) (c : Cipher) (a : Auth)
      → derive md5 sha1_mac s c (size a)
        ≡ ok (material_of (expand md5 sha1_mac s) (key_len c) (size a))
  unfolding derive
  derive_sections s c a =
      let xs = expand md5 sha1_mac s in
      rw (
        slice-section xs 0 (key_len c) (key_len c) (omega arith)
            (omega (arith, key_len_bound c, size_bound a, length-expand s)),
        slice-section xs 64 (size a) (64 + size a) refl
            (omega (arith, key_len_bound c, size_bound a, length-expand s)),
        slice-section xs 128 (key_len c) (128 + key_len c) refl
            (omega (arith, key_len_bound c, size_bound a, length-expand s)),
        slice-section xs 192 (size a) (192 + size a) refl
            (omega (arith, key_len_bound c, size_bound a, length-expand s)),
      )
