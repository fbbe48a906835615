-- ===== src/Ssh/Ossh/Stream.antt =====
-- The obfuscation is undone by itself, and packets are padded to whole blocks.
use unroxy.Base.{ℕ, zero, suc, ◌+◌, ◌*◌, ◌/◌, ◌%◌, ◌≤◌, ◌<◌, ◌≡◌, refl, ◌∙◌, arith, List, [], ◌∷◌}
use unroxy.Base.Bits.{bit_xor_digit}
use unroxy.Ssh.Ossh.{Rc4, next_byte, apply, pad_from}
use mathlib.Core.Path.{ap₂}
use Prim.Native.Nat.{bit_xor, differ}

-- Two digits that differ twice.
differ_twice : (p q : ℕ) → p < 2 → q < 2 → differ (differ p q) q ≡ p
differ_twice zero zero hp hq = refl
differ_twice zero (suc zero) hp hq = refl
differ_twice zero (suc (suc q)) hp hq = absurd (omega arith)
differ_twice (suc zero) zero hp hq = refl
differ_twice (suc zero) (suc zero) hp hq = refl
differ_twice (suc zero) (suc (suc q)) hp hq = absurd (omega arith)
differ_twice (suc (suc p)) q hp hq = absurd (omega arith)

differ_lt : (p q : ℕ) → p < 2 → q < 2 → differ p q < 2
differ_lt zero q hp hq = hq
differ_lt (suc p) zero hp hq = hp
differ_lt (suc zero) (suc q) hp hq = omega arith
differ_lt (suc (suc p)) (suc q) hp hq = absurd (omega arith)

-- The two parts of a number written by its last digit.
last_digit : (n h d : ℕ) → n ≡ h * 2 + d → d < 2 → (n / 2 ≡ h) × (n % 2 ≡ d)
last_digit n h d e l = (omega arith, omega arith)

xor_twice : (n a k : ℕ) → a + k ≤ n → bit_xor (bit_xor a k) k ≡ a
xor_twice zero a k h =
    let ea : a ≡ 0 = omega arith in let ek : k ≡ 0 = omega arith in rw (ea, ek) refl
xor_twice (suc n) a k h =
    let d = differ (a % 2) (k % 2) in
    let (half, digit) =
      last_digit (bit_xor a k) (bit_xor (a / 2) (k / 2)) d (bit_xor_digit a k)
        (differ_lt (a % 2) (k % 2) (omega arith) (omega arith)) in
    bit_xor_digit (bit_xor a k) k
    ∙ rw
        (
          half,
          digit,
          xor_twice n (a / 2) (k / 2) (omega arith),
          differ_twice (a % 2) (k % 2) (omega arith) (omega arith),
        )
        (omega arith)

-- What one end seals with Rc4::apply, the other end opens with a cipher in the same state, and both
-- are in the same state behind it.
pub apply-apply :
    (r : Rc4) (bytes : List ℕ)
    → ((apply r (apply r bytes).0).0 ≡ bytes) × ((apply r (apply r bytes).0).1 ≡ (apply r bytes).1)
unfolding apply
apply-apply r [] = (refl, refl)
apply-apply r (byte ∷ bytes) =
    let (k, r') = next_byte r in
    let (same, state) = apply-apply r' bytes in
    (ap₂ (λ b bs. b ∷ bs) (xor_twice (byte + k) byte k (omega arith)) same, state)

-- The eight rounds that look for the padding of a payload are enough: the packet fills whole blocks
-- of eight bytes, with four to eleven bytes of padding.
pub pad_from_lem :
    (size : ℕ)
    → ((size + 1 + pad_from 8 size 4 + 4) % 8 ≡ 0)
      × (4 ≤ pad_from 8 size 4)
      × (pad_from 8 size 4 < 12)
unfolding pad_from
pad_from_lem size = ground arith
