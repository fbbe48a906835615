-- ===== src/Base/Bits.antt =====
-- Single binary digits of a number, and how `|`, `&`, `^`, `<<` and a truncation act on them.
use Prim.Native.Nat.{ℕ, zero, suc, ◌+◌, ◌-◌, ◌*◌, ◌/◌, ◌%◌, ◌^◌, ◌≤◌, ◌<◌, min, max}
use Prim.Native.Nat.{bit_and, bit_or, bit_xor, digits, bitwise, differ}
use Prim.Native.Nat.{bit_and-bitwise, bit_or-bitwise, bit_xor-bitwise}
use mathlib.Core.Bool.{Bool, true, ◌&&◌}
use mathlib.Core.Path.{◌≡◌, refl, ap, ◌∙◌}
use native.Mathlib.Nat.{
  pow-suc, one-le-pow, div-add-mod, mod-lt, mod-eq_of_lt, add-mul-mod_self_left,
}
use native.Mathlib.Omega.{arith}
use unroxy.Base.Tests.{if◌then◌else◌, ltb, ◌==◌}

-- Digit `k` of `n`, 0 or 1.
unfoldable pub bit : ℕ → ℕ → ℕ
bit n zero = n % 2
bit n (suc k) = bit (n / 2) k

module _ (z : ℕ → ℕ) (f : ℕ → ℕ → ℕ) where
  -- The count of rounds does not matter once it covers the first number.
  digits_enough : (k l a b : ℕ) → a ≤ k → a ≤ l → digits z f k a b ≡ digits z f l a b
  digits_enough zero zero a b hk hl = refl
  digits_enough zero (suc l) zero b hk hl = refl
  digits_enough (suc k) zero zero b hk hl = refl
  digits_enough (suc k) (suc l) zero b hk hl = refl
  digits_enough zero l (suc a) b hk hl = absurd (omega arith)
  digits_enough (suc k) zero (suc a) b hk hl = absurd (omega arith)
  digits_enough (suc k) (suc l) (suc a) b hk hl =
      ap (λ r. r * 2 + f (suc a % 2) (b % 2))
        (digits_enough k l (suc a / 2) (b / 2) (omega arith) (omega arith))

  lowest_digit :
      (a b : ℕ)
      → bitwise z f (suc a) b ≡ bitwise z f (suc a / 2) (b / 2) * 2 + f (suc a % 2) (b % 2)
  lowest_digit a b =
      ap (λ r. r * 2 + f (suc a % 2) (b % 2))
        (digits_enough a (suc a / 2) (suc a / 2) (b / 2) (omega arith) (omega arith))

pub bit_or_digit : (a b : ℕ) → bit_or a b ≡ bit_or (a / 2) (b / 2) * 2 + max (a % 2) (b % 2)
bit_or_digit zero b = omega (arith, bit_or-bitwise 0 b, bit_or-bitwise 0 (b / 2))
bit_or_digit (suc a) b = omega (
  arith,
  bit_or-bitwise (suc a) b,
  bit_or-bitwise (suc a / 2) (b / 2),
  lowest_digit (λ y. y) max a b,
)

pub bit_and_digit : (a b : ℕ) → bit_and a b ≡ bit_and (a / 2) (b / 2) * 2 + min (a % 2) (b % 2)
bit_and_digit zero b = omega (arith, bit_and-bitwise 0 b, bit_and-bitwise 0 (b / 2))
bit_and_digit (suc a) b = omega (
  arith,
  bit_and-bitwise (suc a) b,
  bit_and-bitwise (suc a / 2) (b / 2),
  lowest_digit (λ y. 0) min a b,
)

pub bit_xor_digit : (a b : ℕ) → bit_xor a b ≡ bit_xor (a / 2) (b / 2) * 2 + differ (a % 2) (b % 2)
bit_xor_digit zero b = xor_zero b
  where
    xor_zero : (b : ℕ) → bit_xor 0 b ≡ bit_xor (0 / 2) (b / 2) * 2 + differ (0 % 2) (b % 2)
    xor_zero b = omega (arith, bit_xor-bitwise 0 b, bit_xor-bitwise 0 (b / 2))
bit_xor_digit (suc a) b = omega (
  arith,
  bit_xor-bitwise (suc a) b,
  bit_xor-bitwise (suc a / 2) (b / 2),
  lowest_digit (λ y. y) differ a b,
)

pub bit_le_one : (n k : ℕ) → bit n k ≤ 1
unfolding bit
bit_le_one n zero = omega arith
bit_le_one n (suc k) = bit_le_one (n / 2) k

pub bit-bit_or : (a b k : ℕ) → bit (bit_or a b) k ≡ max (bit a k) (bit b k)
unfolding bit
bit-bit_or a b zero = omega (arith, bit_or_digit a b)
bit-bit_or a b (suc k) = ap (λ n. bit n k) half ∙ bit-bit_or (a / 2) (b / 2) k
  where
    half : bit_or a b / 2 ≡ bit_or (a / 2) (b / 2)
    half = omega (arith, bit_or_digit a b)

pub bit-zero : (k : ℕ) → bit 0 k ≡ 0
unfolding bit
bit-zero zero = refl
bit-zero (suc k) = bit-zero k

-- A mask with one digit set.
pub bit-pow : (k j : ℕ) → bit (2 ^ k) j ≡ (if k == j then 1 else 0)
unfolding bit
bit-pow zero zero = refl
bit-pow zero (suc j) = bit-zero j ∙ ground arith
bit-pow (suc k) zero = ground (arith, pow-suc 2 k)
bit-pow (suc k) (suc j) = ap (λ n. bit n j) half ∙ bit-pow k j ∙ ground arith
  where
    half : 2 ^ suc k / 2 ≡ 2 ^ k
    half = omega (arith, pow-suc 2 k)

-- `a & (1 << k)` keeps digit `k`.
pub bit_and-pow : (k a : ℕ) → bit_and a (2 ^ k) ≡ bit a k * 2 ^ k
unfolding bit
bit_and-pow zero a = omega (arith, bit_and_digit a 1, bit_and-zero (a / 2))
  where
    bit_and-zero : (a : ℕ) → bit_and a 0 ≡ 0
    bit_and-zero a = go a a (omega arith)
      where
        go : (n a : ℕ) → a ≤ n → bit_and a 0 ≡ 0
        go n zero h = bit_and-bitwise 0 0
        go zero (suc a) h = absurd (omega arith)
        go (suc n) (suc a) h =
            omega (arith, bit_and_digit (suc a) 0, go n (suc a / 2) (omega arith))
bit_and-pow (suc k) a = omega (
  arith,
  bit_and_digit a (2 ^ suc k),
  ap (λ (m : ℕ). bit_and (a / 2) m) half,
  pow-suc 2 k,
  bit_and-pow k (a / 2),
  ap (λ (m : ℕ). bit (a / 2) k * m) (pow-suc 2 k),
)
  where
    half : 2 ^ suc k / 2 ≡ 2 ^ k
    half = omega (arith, pow-suc 2 k)

-- A shift to the left moves digits up.
pub bit-shift : (s a k : ℕ) → bit (a * 2 ^ s) k ≡ (if ltb k s then 0 else bit a (k - s))
unfolding bit
bit-shift zero a k = ap (λ n. bit n k) once ∙ ground arith
  where
    once : a * 2 ^ 0 ≡ a
    once = omega arith
bit-shift (suc s) a zero = ground (arith, ap (λ (m : ℕ). a * m) (pow-suc 2 s))
bit-shift (suc s) a (suc k) = ap (λ n. bit n k) half ∙ bit-shift s a k ∙ ground arith
  where
    half : a * 2 ^ suc s / 2 ≡ a * 2 ^ s
    half = omega (arith, ap (λ (m : ℕ). a * m) (pow-suc 2 s))

-- The digits of a remainder by `2 ^ suc w`, from those of a remainder by `2 ^ w`.
mod_two_pow : (w a : ℕ) → a % 2 ^ suc w ≡ 2 * (a / 2 % 2 ^ w) + a % 2
mod_two_pow w a =
    ap (λ m. a % m) double
    ∙ ap (λ n. n % (2 * p)) split
    ∙ add-mul-mod_self_left (2 * (a / 2 % p) + a % 2) (2 * p) (a / 2 / p)
    ∙ mod-eq_of_lt small
  where
    p : ℕ
    p = 2 ^ w

    double : 2 ^ suc w ≡ 2 * p
    double = omega (arith, pow-suc 2 w)

    split : a ≡ 2 * (a / 2 % p) + a % 2 + 2 * p * (a / 2 / p)
    split = omega (arith, ap (λ (t : ℕ). 2 * t) (div-add-mod (a / 2) p))

    small : 2 * (a / 2 % p) + a % 2 < 2 * p
    small = omega (arith, mod-lt (a / 2) {m = p} (omega (arith, one-le-pow w 2)))

-- A truncation to `w` digits keeps those below `w`.
pub bit-mod : (w a k : ℕ) → k < w → bit (a % 2 ^ w) k ≡ bit a k
unfolding bit
bit-mod zero a k h = absurd (omega arith)
bit-mod (suc w) a zero h = omega (arith, mod_two_pow w a)
bit-mod (suc w) a (suc k) h = ap (λ n. bit n k) half ∙ bit-mod w (a / 2) k (omega arith)
  where
    half : a % 2 ^ suc w / 2 ≡ a / 2 % 2 ^ w
    half = omega (arith, mod_two_pow w a)

-- A test that passes below a bound, by evaluation.
unfoldable pub holds_below : (ℕ → Bool) → ℕ → Bool
holds_below p zero = true
holds_below p (suc n) = p n && holds_below p n

pub holds_below_sound : (p : ℕ → Bool) (n i : ℕ) → holds_below p n ≡ true → i < n → p i ≡ true
unfolding holds_below
holds_below_sound p zero i h lt = absurd (omega arith)
holds_below_sound p (suc n) i h lt = ground (arith, holds_below_sound p n i, ap p {x = i} {y = n})
