-- ===== src/Ssh/Ossh.antt =====
-- src/ssh/ossh.rs: the obfuscation of an SSH connection: the RC4 stream, its keys, the preamble, and
-- the padding of packets. SHA-1 is the parameter `sha1`; random bytes are arguments.
pub mod Stream
pub mod Published
pub mod Write
pub mod Read
use unroxy.Base.{
  ℕ, zero, suc, ◌+◌, ◌-◌, ◌%◌, min, Option, none, some, List, [], ◌∷◌, ◌++◌, length, take, drop,
  get_or, set, replicate, ltb, ◌==◌, if◌then◌else◌,
}
use unroxy.Base.{Result, ok, err, panic, ◌>>=◌, slice}
use unroxy.Base.Bytes.{be32, from_be}
use unroxy.Base.Text.{codes}
use unroxy.OpenVpn.Error.{Error}
use Prim.Native.Nat.{bit_xor}

pub record Rc4 : Type 0 where
  pub s : List ℕ
  pub i : ℕ
  pub j : ℕ

-- `swap` on a slice
abbrev pub swap : List ℕ → ℕ → ℕ → List ℕ
swap s a b = set (set s a (get_or s b 0)) b (get_or s a 0)

-- The numbers from `n` on, `count` of them.
abbrev pub counting : ℕ → ℕ → List ℕ
counting n zero = []
counting n (suc count) = n ∷ counting (n + 1) count

-- The loop of `Rc4::new` over the indices.
unfoldable pub schedule : List ℕ → List ℕ → List ℕ → ℕ → List ℕ
schedule key [] s j = s
schedule key (i ∷ indices) s j =
    let j' = ((j + get_or s i 0) % 256 + get_or key (i % length key) 0) % 256 in
    schedule key indices (swap s i j') j'

-- `Rc4::new`; the key has a byte at least.
unfoldable pub new : List ℕ → Rc4
unfolding schedule
new key = record { s = schedule key (counting 0 256) (counting 0 256) 0; i = 0; j = 0 }

-- One round of `apply`: the byte of the key stream, and the state after it.
unfoldable pub next_byte : Rc4 → ℕ × Rc4
next_byte r =
    let i = (r.i + 1) % 256 in
    let j = (r.j + get_or r.s i 0) % 256 in
    let s = swap r.s i j in
    (get_or s ((get_or s i 0 + get_or s j 0) % 256) 0, record { s = s; i = i; j = j })

-- `Rc4::apply`
unfoldable pub apply : Rc4 → List ℕ → List ℕ × Rc4
unfolding next_byte
apply r [] = ([], r)
apply r (byte ∷ buf) =
    let (k, r') = next_byte r in let (out, r'') = apply r' buf in (bit_xor byte k ∷ out, r'')

unfoldable pub hash_again : (List ℕ → List ℕ) → ℕ → List ℕ → List ℕ
hash_again sha1 zero digest = digest
hash_again sha1 (suc n) digest = hash_again sha1 n (sha1 digest)

abbrev pub hash_iterations : ℕ
hash_iterations = 6000

unfoldable pub derive_key : (List ℕ → List ℕ) → List ℕ → List ℕ → List ℕ → List ℕ
unfolding hash_again
derive_key sha1 seed keyword iv =
    take 16 (hash_again sha1 hash_iterations (sha1 (seed ++ (keyword ++ iv))))

abbrev pub magic : ℕ
magic = 0x0BF5CA7E

-- What `OsshStream::new` sends first, and the cipher towards the server behind it.
unfoldable pub preamble : (List ℕ → List ℕ) → List ℕ → List ℕ → List ℕ → List ℕ × Rc4
unfolding derive_key new apply
preamble sha1 seed keyword padding =
    let c2s = new (derive_key sha1 seed keyword (codes "client_to_server")) in
    let (sealed, c2s') = apply c2s (be32 magic ++ (be32 (length padding) ++ padding)) in
    (seed ++ sealed, c2s')

-- The loop that looks for the padding. It ends within eight rounds.
unfoldable pub pad_from : ℕ → ℕ → ℕ → ℕ
pad_from zero size padding = padding
pad_from (suc fuel) size padding =
    let more = pad_from fuel size (padding + 1) in
    if (size + 1 + padding + 4) % 8 == 0 then padding else more

unfoldable pub normalize_packet : List ℕ → Result Error (List ℕ)
unfolding pad_from
normalize_packet packet = do
  word ← slice packet 0 4
  pad ← slice packet 4 5
  let payload_length = from_be word - (get_or pad 0 0 + 1)
  payload ← slice packet 5 (min (5 + payload_length) (length packet))
  let new_padding = pad_from 8 (length payload) 4
  ok (
      be32 (length payload + 1 + new_padding)
      ++ (new_padding % 256 ∷ (payload ++ replicate new_padding 0)))

unfoldable pub find_crlf : List ℕ → Option ℕ
find_crlf [] = none
find_crlf (b ∷ []) = none
find_crlf (b ∷ (c ∷ buf)) =
    let more : Option ℕ = elim (find_crlf (c ∷ buf)) [ none ↦ none | some n ↦ some (suc n) ] in
    if b == 13 then (if c == 10 then some 0 else more) else more
