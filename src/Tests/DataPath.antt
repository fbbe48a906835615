-- ===== src/Tests/DataPath.antt =====
-- The data path at concrete inputs: replays, keys, ciphers, and a packet sent and received.
use unroxy.Base.{
  ℕ, true, false, none, some, ◌<◌, ◌≡◌, refl, arith, List, [], ◌∷◌, ◌++◌, take, drop, replicate,
  slice, ok,
}
use unroxy.Base.Bytes.{from_be}
use unroxy.OpenVpn.Config.{aes128_gcm, aes128_cbc, sha1, sha256, udp, key_len, size, is_aead}
use unroxy.OpenVpn.DataCipher.{
  DataCipher, authenticate, decrypt_cbc, constant_time_eq, difference, open_cbc, cbc_decryptor,
  or_error,
}
use unroxy.OpenVpn.DataCipher.Laws.{IsValid}
use unroxy.OpenVpn.DataCipher.Tag.{aead_nonce_injective, constant_time_eq_iff}
use unroxy.OpenVpn.DataCipher.Cbc.{decrypt_cbc_authentic}
use unroxy.OpenVpn.Keys.{SeedData, expand, derive, p_hash, sha1_digest}
use unroxy.OpenVpn.Keys.Prf.{Productive, p_hash-blocks, blocks}
use unroxy.OpenVpn.Keys.Derive.{derive_sections, material_of}
use unroxy.OpenVpn.Replay
use unroxy.OpenVpn.Replay.{answers, delivered}
use unroxy.OpenVpn.Replay.History.{history_answers, Distinct}
use unroxy.OpenVpn.Replay.Refine.{answers_refines, delivered-Distinct}
use unroxy.OpenVpn.Control.{Control, Keys}
use unroxy.OpenVpn.Control.DataPath.{Linked, Arrives, send_data-Arrives_gcm, send_data-Arrives_cbc}
use unroxy.Tests.Toy.{toy, toy-GcmLaws, toy-CbcLaws, toy_mac, toy_tls}

-- Packets out of order, replayed and too old.
abbrev ids : List ℕ
ids = 3 ∷ (1 ∷ (3 ∷ (100 ∷ (2 ∷ (0 ∷ (99 ∷ (99 ∷ [])))))))

answers_refines_example : answers Replay.new ids ≡ history_answers [] ids
answers_refines_example = answers_refines ids

delivered-Distinct_example : Distinct (delivered Replay.new ids)
delivered-Distinct_example = delivered-Distinct ids

abbrev gcm_cipher : DataCipher
gcm_cipher = record {
  cipher = aes128_gcm;
  auth = sha1;
  digest = sha1_digest;
  key = replicate 16 5;
  mac = [];
  implicit_iv = 1 ∷ (2 ∷ []);
}

abbrev cbc_cipher : DataCipher
cbc_cipher = record {
  cipher = aes128_cbc;
  auth = sha1;
  digest = sha1_digest;
  key = replicate 16 5;
  mac = replicate 20 6;
  implicit_iv = [];
}

gcm_cipher-IsValid : IsValid gcm_cipher
gcm_cipher-IsValid =
    unfold key_len is_aead size in
    record {
      key_fits = refl;
      mac_fits = λ h. absurd (ground (arith, h));
      tag_size = refl;
      iv_bound = omega arith;
    }

cbc_cipher-IsValid : IsValid cbc_cipher
cbc_cipher-IsValid =
    unfold key_len is_aead size in
    record { key_fits = refl; mac_fits = λ h. omega arith; tag_size = refl; iv_bound = omega arith }

gcm_mode : is_aead (gcm_cipher.cipher) ≡ true
gcm_mode = unfold is_aead in refl

cbc_mode : is_aead (cbc_cipher.cipher) ≡ false
cbc_mode = unfold is_aead in refl

abbrev message : List ℕ
message = 69 ∷ (0 ∷ (0 ∷ (20 ∷ [])))

aead_nonce_injective_example : ◌≡◌ {A = ℕ} 9 9
aead_nonce_injective_example =
    aead_nonce_injective (1 ∷ (2 ∷ [])) 9 9 (omega arith) (omega arith) refl

constant_time_eq_iff_example : constant_time_eq message message ≡ true
constant_time_eq_iff_example = (constant_time_eq_iff message message).1 refl

abbrev control_of : Keys → List ℕ → Control (List ℕ)
control_of keys tls = record {
  transport = record { protocol = udp; up = true; sent = [] };
  tls = tls;
  session_id = replicate 8 1;
  remote_session_id = replicate 8 2;
  next_packet_id = 5;
  cipher = keys.encrypt.cipher;
  auth = sha1;
  keys = some keys;
  seed = none;
  peer_id = 3;
  send_counter = 6;
  replay = Replay.new;
  acked = [];
  last_payload = [];
  recv_next = 1;
  reorder = [];
}

abbrev keys_of : DataCipher → Keys
keys_of d = record { encrypt = d; decrypt = d }

abbrev end_of : DataCipher → Control (List ℕ)
end_of d = control_of (keys_of d) []

new_below : ◌<◌ Replay.new.last 7
new_below = unfold Replay.new in omega arith

abbrev linked : (d : DataCipher) → IsValid d → Linked (end_of d) (end_of d)
linked d valid = record {
  up = refl;
  datagrams = refl;
  peer_datagrams = refl;
  keys = keys_of d;
  sender = refl;
  peer_keys = keys_of d;
  receiver = refl;
  shared = refl;
  valid = valid;
  unwrapped = omega arith;
  ahead = new_below;
}

send_data-Arrives_gcm_example :
    Arrives toy_tls toy (end_of gcm_cipher) (end_of gcm_cipher) [] message
send_data-Arrives_gcm_example =
    send_data-Arrives_gcm toy_tls toy (end_of gcm_cipher) (end_of gcm_cipher) toy-GcmLaws
      (linked gcm_cipher gcm_cipher-IsValid) gcm_mode [] message (omega arith)

send_data-Arrives_cbc_example :
    Arrives toy_tls toy (end_of cbc_cipher) (end_of cbc_cipher) (replicate 16 8) message
send_data-Arrives_cbc_example =
    send_data-Arrives_cbc toy_tls toy (end_of cbc_cipher) (end_of cbc_cipher) toy-CbcLaws
      (linked cbc_cipher cbc_cipher-IsValid) cbc_mode (replicate 16 8) message refl (omega arith)

-- A tag of the toy's HMAC, a vector, and the sealed packet id and message.
abbrev cbc_body : List ℕ
cbc_body = replicate 20 1 ++ (replicate 16 8 ++ ((0 ∷ (0 ∷ (0 ∷ (7 ∷ message)))) ++ replicate 16 9))

cbc_body-opens : decrypt_cbc toy cbc_cipher cbc_body ≡ ok (7, message)
cbc_body-opens =
    unfold decrypt_cbc open_cbc authenticate cbc_decryptor or_error slice size constant_time_eq
      difference from_be in
    refl

decrypt_cbc_authentic_example :
    authenticate toy cbc_cipher
      (take 16 (drop (size sha1) cbc_body))
      (drop 16 (drop (size sha1) cbc_body))
    ≡ ok (take (size sha1) cbc_body)
decrypt_cbc_authentic_example = decrypt_cbc_authentic toy cbc_cipher cbc_body cbc_body-opens

abbrev seed : SeedData
seed = record {
  pre_master = replicate 48 1;
  client_random1 = replicate 32 2;
  server_random1 = replicate 32 3;
  client_random2 = replicate 32 4;
  server_random2 = replicate 32 5;
  client_sid = replicate 8 6;
  server_sid = replicate 8 7;
}

toy_mac-Productive : Productive toy_mac
toy_mac-Productive key m = omega arith

p_hash-blocks_example :
    p_hash toy_mac message (1 ∷ []) 9
    ≡ take 9 (blocks toy_mac message (1 ∷ []) 9 (toy_mac message (1 ∷ [])))
p_hash-blocks_example = p_hash-blocks toy_mac message (1 ∷ []) (λ m. omega arith) 9

derive_sections_example :
    derive toy_mac toy_mac seed aes128_cbc (size sha256)
    ≡ ok (material_of (expand toy_mac toy_mac seed) (key_len aes128_cbc) (size sha256))
derive_sections_example =
    derive_sections toy_mac toy_mac toy_mac-Productive toy_mac-Productive seed aes128_cbc sha256
