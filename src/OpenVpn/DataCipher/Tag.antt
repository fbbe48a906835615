-- ===== src/OpenVpn/DataCipher/Tag.antt =====
-- Moving the tag to the front and back, the nonce, and the comparison of tags.
use unroxy.Base.{
  ℕ, zero, suc, ◌+◌, ◌-◌, ◌/◌, ◌%◌, ◌≤◌, min, true, ◌≡◌, refl, sym, ◌∙◌, ap, arith, ◌↔◌,
}
use unroxy.Base.{
  List, [], ◌∷◌, ◌++◌, length, take, drop, replicate, ◌==◌, ==_iff, Bool-cases, inl, inr, ok,
}
use unroxy.Base.{
  length-append, length-take, length-drop, length-replicate, take-append, take-append-drop,
  slice-append, slice_from-append,
}
use unroxy.Base.Bits.{bit_or_digit, bit_xor_digit}
use unroxy.Base.Bytes.{be32, from_be, from_be-be32, length-be32, IsU32}
use unroxy.OpenVpn.Error.{Error}
use unroxy.OpenVpn.DataCipher.{
  tag_first, tag_last, tag_len, aead_nonce, constant_time_eq, difference,
}
use mathlib.Core.Path.{ap₂}
use native.Mathlib.Nat.{le_refl}
use Prim.Native.Nat.{bit_or, bit_xor, differ}

-- Sealed bytes with a tag of 16 bytes at their end come back from the order of the wire, where the
-- tag stands first, and have the same length there.
pub tag_moves :
    (sealed : List ℕ)
    → tag_len ≤ length sealed
    → (body : List ℕ) × (tag_first sealed tag_len ≡ ok body)
      × (tag_last body ≡ ok sealed)
      × (length body ≡ length sealed)
unfolding tag_first tag_last
tag_moves sealed h = (
  tag ++ front,
  ground arith,
  ground (
    arith,
    length-drop n sealed,
    slice_from-append Error tag front 16,
    slice-append Error [] tag front 0 16,
    take-append-drop n sealed,
  ),
  omega (arith, length-append tag front, length-drop n sealed, length-take n sealed),
)
  where
    n : ℕ
    n = length sealed - 16

    tag : List ℕ
    tag = drop n sealed

    front : List ℕ
    front = take n sealed

pub length-aead_nonce : (iv : List ℕ) (id : ℕ) → length (aead_nonce iv id) ≡ 12
unfolding aead_nonce
length-aead_nonce iv id = omega (
  arith,
  length-append (be32 id) (take 8 iv ++ replicate (8 - min 8 (length iv)) 0),
  length-append (take 8 iv) (replicate (8 - min 8 (length iv)) 0),
  length-take 8 iv,
  length-replicate {A = ℕ} (8 - min 8 (length iv)) 0,
  length-be32 id,
)

-- Under one implicit vector two packet ids of 32 bits never share a nonce.
pub aead_nonce_injective :
    (iv : List ℕ) (a b : ℕ) → IsU32 a → IsU32 b → aead_nonce iv a ≡ aead_nonce iv b → a ≡ b
unfolding aead_nonce
aead_nonce_injective iv a b ha hb e = sym (from_be-be32 a ha) ∙ ap from_be words ∙ from_be-be32 b hb
  where
    fill : List ℕ
    fill = take 8 iv ++ replicate (8 - min 8 (length iv)) 0

    words : be32 a ≡ be32 b
    words =
        sym (take-append 4 (be32 a) fill (length-be32 a))
        ∙ ap (take 4) e
        ∙ take-append 4 (be32 b) fill (length-be32 b)

differ_zero : (x y : ℕ) → differ x y ≡ 0 → x ≡ y
differ_zero zero y h = sym h
differ_zero (suc x) zero h = h
differ_zero (suc x) (suc y) h = ap suc (differ_zero x y h)

xor_zero : (n a b : ℕ) → a + b ≤ n → bit_xor a b ≡ 0 → a ≡ b
xor_zero zero a b h e = omega arith
xor_zero (suc n) a b h e = omega (
  arith,
  bit_xor_digit a b,
  differ_zero (a % 2) (b % 2) (omega (arith, bit_xor_digit a b)),
  xor_zero n (a / 2) (b / 2) (omega arith) (omega (arith, bit_xor_digit a b)),
)

or_zero : (n a b : ℕ) → a + b ≤ n → bit_or a b ≡ 0 → (a ≡ 0) × (b ≡ 0)
or_zero zero a b h e = omega arith
or_zero (suc n) a b h e = omega (
  arith,
  bit_or_digit a b,
  or_zero n (a / 2) (b / 2) (omega arith) (omega (arith, bit_or_digit a b)),
)

differ_self : (x : ℕ) → differ x x ≡ 0
differ_self zero = refl
differ_self (suc x) = differ_self x

xor_self : (n a : ℕ) → a ≤ n → bit_xor a a ≡ 0
xor_self n zero h = refl
xor_self zero (suc a) h = absurd (omega arith)
xor_self (suc n) (suc a) h = omega (
  arith,
  bit_xor_digit (suc a) (suc a),
  differ_self (suc a % 2),
  xor_self n (suc a / 2) (omega arith),
)

or_xor_zero : (d a b : ℕ) → (bit_or d (bit_xor a b) ≡ 0) ↔ ((d ≡ 0) × (a ≡ b))
or_xor_zero d a b = (
  λ e. let (p, q) = or_zero _ d (bit_xor a b) (le_refl _) e in (p, xor_zero _ a b (le_refl _) q),
  λ (p, q). rw (p, q, xor_self b b (le_refl b)),
)

difference_iff :
    (diff : ℕ) (as_ bs : List ℕ)
    → length as_ ≡ length bs
    → (difference diff as_ bs ≡ 0) ↔ ((diff ≡ 0) × (as_ ≡ bs))
unfolding difference
difference_iff diff [] [] h = (λ e. (e, refl), λ p. p.0)
difference_iff diff [] (b ∷ bs) h = absurd (omega arith)
difference_iff diff (a ∷ as_) [] h = absurd (omega arith)
difference_iff diff (a ∷ as_) (b ∷ bs) h =
    let (to, back) = difference_iff (bit_or diff (bit_xor a b)) as_ bs (omega arith) in
    let (zero_of, of_zero) = or_xor_zero diff a b in
    (
      λ e. let (d, t) = to e in let (p, q) = zero_of d in (p, ap₂ ◌∷◌ q t),
      λ (p, q). back (of_zero (p, head_eq q), tail_eq q),
    )
  where
    head_eq : a ∷ as_ ≡ b ∷ bs → a ≡ b
    head_eq q = cc

    tail_eq : a ∷ as_ ≡ b ∷ bs → as_ ≡ bs
    tail_eq q = cc

-- Constant_time_eq holds of two slices if and only if they are equal, bytes and length.
pub constant_time_eq_iff : (as_ bs : List ℕ) → (constant_time_eq as_ bs ≡ true) ↔ (as_ ≡ bs)
unfolding constant_time_eq
constant_time_eq_iff as_ bs = elim (Bool-cases (length as_ == length bs)) [
  | inl same ↦
      let (to, back) = difference_iff 0 as_ bs ((==_iff _ _).0 same) in
      rw same (λ e. (to ((==_iff _ 0).0 e)).1, λ q. (==_iff _ 0).1 (back (refl, q)))
  | inr other ↦ rw other (λ e. cc, λ q. ground (arith, ap length q))
]
