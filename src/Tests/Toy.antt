-- ===== src/Tests/Toy.antt =====
-- Ciphers, MACs and a TLS session that do what is documented of the real ones, and no more.
use unroxy.Base.{
  ℕ, ◌+◌, ◌-◌, true, none, some, ◌≡◌, refl, ap, arith, List, [], ◌∷◌, ◌++◌, length, take, replicate,
  length-append, take-append, length-replicate, ◌==◌, if◌then◌else◌,
}
use unroxy.Base.{ok}
use unroxy.OpenVpn.DataCipher.{Crypto}
use unroxy.OpenVpn.DataCipher.Laws.{GcmLaws, CbcLaws, Inverse, digest_size}
use unroxy.OpenVpn.Keys.{Mac}
use unroxy.OpenVpn.Tls.{TlsOps}

abbrev sealed_with : ℕ → List ℕ → List ℕ
sealed_with b m = m ++ replicate 16 b

abbrev without_tag : List ℕ → List ℕ
without_tag m = take (length m - 16) m

-- A key is its own cipher; sealing appends sixteen bytes.
abbrev pub toy : Crypto (List ℕ)
toy = record {
  gcm256_new = λ key. if length key == 32 then some key else none;
  gcm128_new = λ key. if length key == 16 then some key else none;
  gcm_encrypt = λ c nonce msg aad. some (sealed_with 7 msg);
  gcm_decrypt = λ c nonce sealed aad. some (without_tag sealed);
  cbc256_encryptor = λ key iv. some key;
  cbc128_encryptor = λ key iv. some key;
  cbc256_decryptor = λ key iv. some key;
  cbc128_decryptor = λ key iv. some key;
  encrypt_padded = λ c msg. sealed_with 9 msg;
  decrypt_padded = λ c ct. some (without_tag ct);
  hmac_init = λ key d. some (replicate (digest_size d) 1);
  hmac_update = λ c m. some c;
  hmac_finalize = λ c. some c;
}

length-sealed_with : (b : ℕ) (m : List ℕ) → length (sealed_with b m) ≡ length m + 16
length-sealed_with b m = omega (arith, length-append m (replicate 16 b), length-replicate 16 b)

unsealed : (b : ℕ) (m : List ℕ) → without_tag (sealed_with b m) ≡ m
unsealed b m =
    take-append (length (sealed_with b m) - 16) m (replicate 16 b)
      (omega (arith, length-sealed_with b m))

toy-Inverse : (key : List ℕ) → Inverse toy (some key) (some key)
toy-Inverse key = (
  key,
  key,
  refl,
  refl,
  λ m. ap some (unsealed 9 m),
  λ m. (omega (arith, length-sealed_with 9 m), omega (arith, length-sealed_with 9 m)),
)

pub toy-GcmLaws : GcmLaws toy
toy-GcmLaws = record {
  key256 = λ key h. (key, rw h refl);
  key128 = λ key h. (key, rw h refl);
  seals = λ c nonce msg aad hn hm.
      (sealed_with 7 msg, refl, length-sealed_with 7 msg, ap some (unsealed 7 msg));
}

pub toy-CbcLaws : CbcLaws toy
toy-CbcLaws = record {
  pair256 = λ key iv hk hi. toy-Inverse key;
  pair128 = λ key iv hk hi. toy-Inverse key;
  hmac = λ key d m₁ m₂.
      let tag = replicate (digest_size d) 1 in
      (tag, tag, tag, tag, refl, refl, refl, refl, length-replicate (digest_size d) 1);
}

-- A MAC of four bytes.
abbrev pub toy_mac : Mac
toy_mac key m = length key ∷ (length m ∷ (3 ∷ (4 ∷ [])))

-- A TLS session that remembers what it was fed, is ready at once and has nothing to send.
abbrev pub toy_tls : TlsOps (List ℕ)
toy_tls = record {
  is_ready = λ t. true;
  feed = λ t bytes. (ok tt, t ++ bytes);
  drive = λ t. (ok tt, t);
  take_outbound = λ t. ([], t);
  take_plaintext = λ t. (some t, []);
  write = λ t bytes. (ok tt, t);
}
