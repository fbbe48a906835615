-- ===== src/Base/Bytes.antt =====
-- Bytes and big-endian words, as `to_be_bytes` and `from_be_bytes` have them.
use Prim.Native.Nat.{ℕ, ◌+◌, ◌*◌, ◌/◌, ◌%◌, ◌^◌, ◌<◌}
use mathlib.Core.List.{List, [], ◌∷◌}
use mathlib.Core.Path.{◌≡◌, refl}
use native.Mathlib.Omega.{arith}
use unroxy.Base.Lists.{length}

abbrev pub IsByte : ℕ → Type 0
IsByte b = b < 256

abbrev pub IsU16 : ℕ → Type 0
IsU16 n = n < 2 ^ 16

abbrev pub IsU32 : ℕ → Type 0
IsU32 n = n < 2 ^ 32

-- `u16::to_be_bytes`
unfoldable pub be16 : ℕ → List ℕ
be16 n = n / 256 % 256 ∷ n % 256 ∷ []

-- `u32::to_be_bytes`
unfoldable pub be32 : ℕ → List ℕ
be32 n = n / 2 ^ 24 % 256 ∷ n / 2 ^ 16 % 256 ∷ n / 256 % 256 ∷ n % 256 ∷ []

-- `from_be_bytes` of an array of two or four bytes; the callers pass that many.
abbrev be_digits : ℕ → List ℕ → ℕ
be_digits acc [] = acc
be_digits acc (b ∷ bs) = be_digits (acc * 256 + b) bs

unfoldable pub from_be : List ℕ → ℕ
from_be = be_digits 0

pub from_be-be16 : (n : ℕ) → IsU16 n → from_be (be16 n) ≡ n
unfolding from_be be16
from_be-be16 n h = omega arith

pub from_be-be32 : (n : ℕ) → IsU32 n → from_be (be32 n) ≡ n
unfolding from_be be32
from_be-be32 n h = omega arith

pub length-be16 : (n : ℕ) → length (be16 n) ≡ 2
unfolding be16
length-be16 n = refl

pub length-be32 : (n : ℕ) → length (be32 n) ≡ 4
unfolding be32
length-be32 n = refl

-- A four-byte list is what the word that it stands for is written as.
pub be32-from_be :
    (a b c d : ℕ)
    → IsByte a
    → IsByte b
    → IsByte c
    → IsByte d
    → be32 (from_be (a ∷ b ∷ c ∷ d ∷ [])) ≡ a ∷ b ∷ c ∷ d ∷ []
unfolding from_be be32
be32-from_be a b c d ha hb hc hd = ground arith
