-- ===== src/Ssh/Ossh/Read/Enough.antt =====
-- The loop of process_read ends within the rounds it is given.
use mathlib.Core.Path.{subst}
use unroxy.Base.{
  ℕ, zero, suc, ◌+◌, ◌-◌, ◌<◌, Bool, true, false, ◌||◌, Option, none, some, is_some, List, [], ◌∷◌,
  ◌++◌, length, length-drop, take, drop, get_or, ltb, ◌==◌, if◌then◌else◌, ◌≡◌, refl, sym, ap, ◌∙◌,
  arith, Bool-cases, inl, inr, ltb→le, ◌⊎◌,
}
use unroxy.Base.{Result, ok, err, panic, ◌>>=◌}
use unroxy.Base.Bytes.{from_be}
use unroxy.Base.Text.{codes, starts_with, ends_with}
use unroxy.OpenVpn.Error.{Error}
use unroxy.Ssh.Ossh.{apply, normalize_packet}
use unroxy.Ssh.Ossh.Write.{max_packet, msg_newkeys}
use unroxy.Ssh.Ossh.Read.{
  max_line, ReadState, ident, kex, done, Reader, Round, stop, go, read_ident, read_rest, read_kex,
  read_round, read_rounds, process_read,
}

-- What a reader has left to read: its bytes, and the prefix at hand.
abbrev pub left : Reader → ℕ
left r = length r.rin + (if is_some r.kex_prefix then 1 else 0)

-- Going on leaves less to read.
abbrev Less : ℕ → Round → Type 0
Less bound (stop r) = Unit
Less bound (go r) = left r < bound

abbrev IsLess : ℕ → Result Error Round → Type 0
IsLess bound (ok round) = Less bound round
IsLess bound (err e) = Unit
IsLess bound panic = Unit

read_ident-Less : (r : Reader) (rin : List ℕ) → r.rin ≡ rin → Less (left r) (read_ident r rin)
unfolding read_ident
read_ident-Less r [] e = tt
read_ident-Less r (byte ∷ rin) e =
    let line = r.rline ++ (apply r.s2c (byte ∷ [])).0 in
    let less : length rin < length r.rin = omega (arith, ap length e) in
    elim (Bool-cases (ltb max_line (length line))) [
      | inl f ↦ rw (f) (omega (arith, less))
      | inr f ↦ elim (Bool-cases (ends_with (codes "\r\n") line)) [
        | inr g ↦ rw (f, g) (omega (arith, less))
        | inl g ↦ elim (Bool-cases (starts_with (codes "SSH-") line)) [
          | inl s ↦ rw (f, g, s) tt
          | inr s ↦ rw (f, g, s) (omega (arith, less))
        ]
      ]
    ]

read_rest-Less :
    (r : Reader) (prefix : List ℕ) (remaining bound : ℕ)
    → length r.rin < bound
    → IsLess bound (read_rest r prefix remaining)
unfolding read_rest
read_rest-Less r prefix remaining bound h = elim (Bool-cases (ltb (length r.rin) remaining)) [
  | inl f ↦ rw (f) tt
  | inr f ↦ rw (f) (behind (normalize_packet packet))
]
  where
    packet : List ℕ
    packet = prefix ++ (apply r.s2c (take remaining r.rin)).0

    behind :
        (n : Result Error (List ℕ))
        → IsLess bound (
            n >>= (λ normalized. ok (
              if get_or packet 5 0 == msg_newkeys
              then stop (record r {
                s2c = (apply r.s2c (take remaining r.rin)).1;
                rin = drop remaining r.rin;
                rbuf = r.rbuf ++ normalized;
                kex_prefix = none;
                rstate = done;
              })
              else go (record r {
                s2c = (apply r.s2c (take remaining r.rin)).1;
                rin = drop remaining r.rin;
                rbuf = r.rbuf ++ normalized;
                kex_prefix = none;
              }))))
    behind (err e) = tt
    behind panic = tt
    behind (ok normalized) = elim (Bool-cases (get_or packet 5 0 == msg_newkeys)) [
      | inl g ↦ rw (g) tt
      | inr g ↦ rw (g) (omega (arith, h, length-drop remaining r.rin))
    ]

read_kex-Less :
    (r : Reader) (slot : Option (List ℕ × ℕ))
    → r.kex_prefix ≡ slot
    → IsLess (left r) (read_kex r slot)
unfolding read_kex
read_kex-Less r (some (prefix, remaining)) e =
    read_rest-Less r prefix remaining (left r)
      (omega (arith, ap {B = ℕ} (λ s. if is_some s then 1 else 0) e))
read_kex-Less r none e =
    let prefix = (apply r.s2c (take 5 r.rin)).0 in
    let packet_length = from_be (take 4 prefix) in
    let behind = record r { s2c = (apply r.s2c (take 5 r.rin)).1; rin = drop 5 r.rin } in
    elim (Bool-cases (ltb (length r.rin) 5)) [
      | inl f ↦ rw (f) tt
      | inr f ↦ elim (Bool-cases ((packet_length == 0) || ltb max_packet packet_length)) [
        | inl g ↦ rw (f, g) tt
        | inr g ↦
            rw (f, g)
              (read_rest-Less behind prefix (packet_length - 1) (left r)
                (omega (arith, length-drop 5 r.rin, ltb→le (length r.rin) 5 f)))
      ]
    ]

read_round-Less : (r : Reader) (rstate : ReadState) → IsLess (left r) (read_round r rstate)
unfolding read_round
read_round-Less r ident = read_ident-Less r r.rin refl
read_round-Less r kex = read_kex-Less r r.kex_prefix refl
read_round-Less r done = tt

Round-cases :
    (t : Result Error Round)
    → ((r : Reader) × (t ≡ ok (go r)))
      ⊎ ((n m : ℕ) (r : Reader)
          → read_round r r.rstate ≡ t
          → read_rounds (suc n) r ≡ read_rounds (suc m) r)
unfolding read_rounds
Round-cases (ok (go r)) = inl (r, refl)
Round-cases (ok (stop r)) = inr (λ n m r e. rw (read_rounds, e) refl)
Round-cases (err e) = inr (λ n m r e. rw (read_rounds, e) refl)
Round-cases panic = inr (λ n m r e. rw (read_rounds, e) refl)

round_on :
    (n : ℕ) (r u : Reader)
    → read_round r r.rstate ≡ ok (go u)
    → read_rounds (suc n) r ≡ read_rounds n u
unfolding read_rounds
round_on n r u e = rw (read_rounds, e) refl

read_rounds-enough :
    (n m : ℕ) (r : Reader) → left r < n → left r < m → read_rounds n r ≡ read_rounds m r
read_rounds-enough zero m r h k = absurd (omega (arith, h))
read_rounds-enough (suc n) zero r h k = absurd (omega (arith, k))
read_rounds-enough (suc n) (suc m) r h k = elim (Round-cases (read_round r r.rstate)) [
  | inr same ↦ same n m r refl
  | inl (u, e) ↦
      let less : left u < left r = subst (IsLess (left r)) e (read_round-Less r r.rstate) in
      round_on n r u e
      ∙ read_rounds-enough n m u (omega (arith, less, h)) (omega (arith, less, k))
      ∙ sym (round_on m r u e)
]

one_more : (b : Bool) (size : ℕ) → size + (if b then 1 else 0) < size + 2
one_more true size = omega arith
one_more false size = omega arith

-- The rounds that process_read grants its loop are enough: any number of rounds above the bytes
-- that arrived, and one for a prefix at hand, gives the result of process_read.
pub process_read-enough : (n : ℕ) (r : Reader) → left r < n → process_read r ≡ read_rounds n r
unfolding process_read
process_read-enough n r h =
    read_rounds-enough (length r.rin + 2) n r (one_more (is_some r.kex_prefix) (length r.rin)) h
