-- ===== src/Ssh/Ossh/Published.antt =====
-- The cipher of src/ssh/ossh.rs is RC4 as it is published, on a permutation that is a function.
use mathlib.Core.Path.{subst, ap₂}
use unroxy.Base.{
  ℕ, zero, suc, ◌+◌, ◌%◌, ◌<◌, ◌≤◌, List, [], ◌∷◌, length, get_or, set, ◌==◌, if◌then◌else◌, ◌≡◌,
  refl, sym, ap, ◌∙◌, arith, Bool-cases, inl, inr,
}
use unroxy.Ssh.Ossh.{swap, counting, schedule, new, next_byte, apply}
use unroxy.Ssh.Ossh.Stream.{apply-apply}
use Prim.Native.Nat.{bit_xor}

abbrev swapped : ℕ → ℕ → (ℕ → ℕ) → ℕ → ℕ
swapped a b S k = if k == b then S a else if k == a then S b else S k

-- The key schedule from the index `i` on, for `n` indices.
unfoldable pub scheduled : List ℕ → ℕ → ℕ → (ℕ → ℕ) → ℕ → ℕ → ℕ
scheduled key zero i S j = S
scheduled key (suc n) i S j =
    let j' = (j + S i + get_or key (i % length key) 0) % 256 in
    scheduled key n (i + 1) (swapped i j' S) j'

-- The bytes, each with the next one of the key stream.
unfoldable pub enciphered : (ℕ → ℕ) → ℕ → ℕ → List ℕ → List ℕ
enciphered S i j [] = []
enciphered S i j (byte ∷ bytes) =
    let i' = (i + 1) % 256 in
    let j' = (j + S i') % 256 in
    let T = swapped i' j' S in bit_xor byte (T ((T i' + T j') % 256)) ∷ enciphered T i' j' bytes

-- RC4 under a key.
unfoldable pub rc4 : List ℕ → List ℕ → List ℕ
unfolding scheduled enciphered
rc4 key bytes = enciphered (scheduled key 256 0 (λ k. k) 0) 0 0 bytes

-- A list of 256 numbers is a function below 256.
abbrev Stands : List ℕ → (ℕ → ℕ) → Type 0
Stands s S = (length s ≡ 256) × ((k : ℕ) → k < 256 → get_or s k 0 ≡ S k)

length-set : (s : List ℕ) (i v : ℕ) → length (set s i v) ≡ length s
length-set [] i v = refl
length-set (x ∷ s) zero v = refl
length-set (x ∷ s) (suc i) v = ap suc (length-set s i v)

get_or-set :
    (s : List ℕ) (i v k : ℕ)
    → i < length s
    → get_or (set s i v) k 0 ≡ (if k == i then v else get_or s k 0)
get_or-set [] i v k h = absurd (omega (arith, h))
get_or-set (x ∷ s) zero v zero h = refl
get_or-set (x ∷ s) zero v (suc k) h = ground arith
get_or-set (x ∷ s) (suc i) v zero h = ground arith
get_or-set (x ∷ s) (suc i) v (suc k) h = ground (arith, get_or-set s i v k)

swap-Stands :
    (s : List ℕ) (S : ℕ → ℕ) (a b : ℕ)
    → a < 256
    → b < 256
    → Stands s S
    → Stands (swap s a b) (swapped a b S)
swap-Stands s S a b ha hb (l, e) = (
  length-set (set s a (get_or s b 0)) b (get_or s a 0) ∙ length-set s a (get_or s b 0) ∙ l,
  λ k h. entry k h,
)
  where
    entry : (k : ℕ) → k < 256 → get_or (swap s a b) k 0 ≡ swapped a b S k
    entry k h =
        let outer =
          get_or-set (set s a (get_or s b 0)) b (get_or s a 0) k
            (omega (arith, length-set s a (get_or s b 0), l, hb)) in
        let inner = get_or-set s a (get_or s b 0) k (omega (arith, l, ha)) in
        elim (Bool-cases (k == b)) [
          | inl f ↦ ground (arith, outer, f, e a ha)
          | inr f ↦ elim (Bool-cases (k == a)) [
            | inl g ↦ ground (arith, outer, inner, f, g, e b hb)
            | inr g ↦ ground (arith, outer, inner, f, g, e k h)
          ]
        ]

length-counting : (n count : ℕ) → length (counting n count) ≡ count
length-counting n zero = refl
length-counting n (suc count) = ap suc (length-counting (n + 1) count)

get_or-counting : (n count k : ℕ) → k < count → get_or (counting n count) k 0 ≡ n + k
get_or-counting n zero k h = absurd (omega (arith, h))
get_or-counting n (suc count) zero h = omega arith
get_or-counting n (suc count) (suc k) h =
    omega (arith, get_or-counting (n + 1) count k (omega (arith, h)))

schedule-Stands :
    (key : List ℕ) (n i : ℕ) (s : List ℕ) (S : ℕ → ℕ) (j : ℕ)
    → i + n ≤ 256
    → Stands s S
    → Stands (schedule key (counting i n) s j) (scheduled key n i S j)
unfolding schedule scheduled
schedule-Stands key zero i s S j h st = st
schedule-Stands key (suc n) i s S j h (l, e) =
    let next = (j + S i + get_or key (i % length key) 0) % 256 in
    let same : ((j + get_or s i 0) % 256 + get_or key (i % length key) 0) % 256 ≡ next =
      omega (arith, e i (omega (arith, h))) in
    subst
      (λ x.
        Stands (schedule key (counting (i + 1) n) (swap s i x) x)
          (scheduled key n (i + 1) (swapped i next S) next))
      (sym same)
      (schedule-Stands key n (i + 1) (swap s i next) (swapped i next S) next (omega (arith, h))
        (swap-Stands s S i next (omega (arith, h)) (omega arith) (l, e)))

-- A byte and those behind it, with the indices that the round has reached.
abbrev sealed_at : List ℕ → ℕ → ℕ → ℕ → List ℕ → List ℕ
sealed_at s i j byte bytes =
    let t = swap s i j in
    bit_xor byte (get_or t ((get_or t i 0 + get_or t j 0) % 256) 0)
    ∷ (apply (record { s = t; i = i; j = j }) bytes).0

apply-enciphered :
    (s : List ℕ) (S : ℕ → ℕ) (i j : ℕ) (bytes : List ℕ)
    → Stands s S
    → (apply (record { s = s; i = i; j = j }) bytes).0 ≡ enciphered S i j bytes
unfolding apply enciphered next_byte
apply-enciphered s S i j [] st = refl
apply-enciphered s S i j (byte ∷ bytes) st =
    let i' = (i + 1) % 256 in
    let j' = (j + S i') % 256 in
    let t = swap s i' j' in
    let T = swapped i' j' S in
    let (l, e) = swap-Stands s S i' j' (omega arith) (omega arith) st in
    let key_byte =
      e ((get_or t i' 0 + get_or t j' 0) % 256) (omega arith)
      ∙ ap T (ap₂ (λ a b. (a + b) % 256) (e i' (omega arith)) (e j' (omega arith))) in
    ap (λ x. sealed_at s i' ((j + x) % 256) byte bytes) (st.1 i' (omega arith))
    ∙ ap₂ (λ b bs. b ∷ bs) (ap (bit_xor byte) key_byte) (apply-enciphered t T i' j' bytes (l, e))

same_as_published : (key bytes : List ℕ) → (apply (new key) bytes).0 ≡ rc4 key bytes
unfolding new rc4
same_as_published key bytes =
    apply-enciphered (schedule key (counting 0 256) (counting 0 256) 0)
      (scheduled key 256 0 (λ k. k) 0) 0 0 bytes
      (schedule-Stands key 256 0 (counting 0 256) (λ k. k) 0 (omega arith)
        (length-counting 0 256, λ k h. omega (arith, get_or-counting 0 256 k h)))

-- What Rc4::apply makes of any bytes under a new Rc4 is what RC4 as it is published, over a
-- permutation that is a function, makes of them under the same key, and Rc4::apply under a new Rc4
-- of that key makes the bytes of it again.
pub apply-rc4 :
    (key bytes : List ℕ)
    → ((apply (new key) bytes).0 ≡ rc4 key bytes) × ((apply (new key) (rc4 key bytes)).0 ≡ bytes)
apply-rc4 key bytes = (
  same_as_published key bytes,
  ap (λ out. (apply (new key) out).0) (sym (same_as_published key bytes))
      ∙ (apply-apply (new key) bytes).0,
)
