-- ===== src/OpenVpn/Keys/Prf.antt =====
-- `p_hash` is the P_hash of RFC 2246, section 5, and it has the length that is asked for.
use unroxy.Base.{
  ℕ, zero, suc, ◌+◌, ◌-◌, ◌/◌, ◌≤◌, ◌<◌, List, [], ◌∷◌, ◌++◌, length, take, drop, leb,
}
use unroxy.Base.{
  ◌≡◌, refl, sym, ◌∙◌, ap, arith, length-append, length-take, append_assoc, append-nil, Bool-cases,
  inl, inr,
}
use unroxy.Base.Text.{Text}
use mathlib.Core.List.{flatten}
use unroxy.OpenVpn.Keys.{Mac, p_hash_loop, p_hash, zip_xor, prf}

module _ (mac : Mac) (secret seed : List ℕ) where
  -- HMAC(secret, A(i) + seed) for `n` numbers i, where A goes on from `a` by HMAC(secret, a).
  unfoldable pub blocks : ℕ → List ℕ → List ℕ
  blocks zero a = []
  blocks (suc n) a = mac secret (a ++ seed) ++ blocks n (mac secret a)

  -- Every block has a byte at least.
  module _ (pos : (m : List ℕ) → 0 < length (mac secret m)) where
    length-blocks : (n : ℕ) (a : List ℕ) → n ≤ length (blocks n a)
    unfolding blocks
    length-blocks zero a = omega arith
    length-blocks (suc n) a = omega (
      arith,
      length-append (mac secret (a ++ seed)) (blocks n (mac secret a)),
      pos (a ++ seed),
      length-blocks n (mac secret a),
    )

    -- Bytes behind the first `len` do not matter.
    take_enough : (len : ℕ) (xs ys : List ℕ) → len ≤ length xs → take len (xs ++ ys) ≡ take len xs
    take_enough zero xs ys h = refl
    take_enough (suc len) [] ys h = absurd (omega arith)
    take_enough (suc len) (x ∷ xs) ys h = ap (λ r. x ∷ r) (take_enough len xs ys (omega arith))

    p_hash_loop-blocks :
        (len fuel : ℕ) (a out : List ℕ)
        → take len (p_hash_loop mac secret seed len fuel a out) ≡ take len (out ++ blocks fuel a)
    unfolding p_hash_loop blocks
    p_hash_loop-blocks len zero a out = ap (λ r. take len r) (sym (append-nil out))
    p_hash_loop-blocks len (suc fuel) a out = elim (Bool-cases (leb len (length out))) [
      | inl done ↦ rw done (sym (take_enough len out (blocks (suc fuel) a) (ground arith)))
      | inr more ↦
          rw (more, ← append_assoc out (mac secret (a ++ seed)) (blocks fuel (mac secret a)))
            (p_hash_loop-blocks len fuel (mac secret a) (out ++ mac secret (a ++ seed)))
    ]

    -- When HMAC never gives an empty result, p_hash gives the first bytes of the blocks of P_hash
    -- in RFC 2246, as many as asked for.
    pub p_hash-blocks :
        (len : ℕ) → p_hash mac secret seed len ≡ take len (blocks len (mac secret seed))
    unfolding p_hash
    p_hash-blocks len = p_hash_loop-blocks len len (mac secret seed) []

    pub length-p_hash : (len : ℕ) → length (p_hash mac secret seed len) ≡ len
    length-p_hash len = rw (p_hash-blocks len) (
        omega (
          arith,
          length-take len (blocks len (mac secret seed)),
          length-blocks len (mac secret seed),
        ))

pub length-zip_xor : (xs ys : List ℕ) → length xs ≡ length ys → length (zip_xor xs ys) ≡ length xs
unfolding zip_xor
length-zip_xor [] ys h = refl
length-zip_xor (x ∷ xs) [] h = absurd (omega arith)
length-zip_xor (x ∷ xs) (y ∷ ys) h = ap suc (length-zip_xor xs ys (omega arith))

-- A MAC that never returns the empty list, as HMAC with MD5 (16 bytes) and with SHA-1 (20 bytes).
abbrev pub Productive : Mac → Type 0
Productive mac = (key m : List ℕ) → 0 < length (mac key m)

module _ (md5 sha1 : Mac) (hm : Productive md5) (hs : Productive sha1) where
  pub length-prf :
      (secret : List ℕ) (label : Text) (seed : List (List ℕ)) (len : ℕ)
      → length (prf md5 sha1 secret label seed len) ≡ len
  unfolding prf
  length-prf secret label seed len =
      let half = (length secret + 1) / 2 in
      let ls = label ++ flatten seed in
      let a = length-p_hash md5 (take half secret) ls (hm (take half secret)) len in
      let b = length-p_hash sha1 (drop (length secret - half) secret) ls (hs _) len in
      length-zip_xor (p_hash md5 (take half secret) ls len)
        (p_hash sha1 (drop (length secret - half) secret) ls len) (a ∙ sym b)
      ∙ a
