-- ===== src/Base/Panic.antt =====
-- Rust computations that may panic: an index or a slice out of range, `expect` on a failure.
use Prim.Native.Nat.{ℕ, ◌-◌, ◌+◌, ◌≤◌}
use mathlib.Core.Path.{◌≡◌, refl}
use mathlib.Core.Logic.{◌⊎◌, inl, inr}
use mathlib.Core.Bool.{◌&&◌}
use mathlib.Core.List.{List, ◌++◌}
use native.Mathlib.Omega.{arith}
use unroxy.Base.Tests.{leb, if◌then◌else◌}
use unroxy.Base.Lists.{length, take, drop, take-append, drop-append, length-append}

-- `err` is the `Err` of a `Result` with the error type `E`.
pub data Result (E : Type 0) (A : Type 0) : Type 0 where
  ok : A → Result E A
  err : E → Result E A
  panic : Result E A

infixl 5 ◌>>=◌ ◌>>◌
abbrev pub ◌>>=◌ : {E A B : Type 0} → Result E A → (A → Result E B) → Result E B
ok a >>= f = f a
err e >>= f = err e
panic >>= f = panic

abbrev pub ◌>>◌ : {E B : Type 0} → Result E (Unit {0}) → Result E B → Result E B
m >> k = m >>= λ _. k

-- `&xs[a..b]`
unfoldable pub slice : {E A : Type 0} → List A → ℕ → ℕ → Result E (List A)
slice xs a b = if leb a b && leb b (length xs) then ok (take (b - a) (drop a xs)) else panic

-- `&xs[a..]`
unfoldable pub slice_from : {E A : Type 0} → List A → ℕ → Result E (List A)
slice_from xs a = if leb a (length xs) then ok (drop a xs) else panic

-- A slice that starts behind a known prefix and ends before a known rest.
pub slice-append :
    (E : Type 0) {A : Type 0} (front mid rest : List A) (a b : ℕ)
    → length front ≡ a
    → length front + length mid ≡ b
    → slice {E = E} (front ++ (mid ++ rest)) a b ≡ ok mid
unfolding slice
slice-append E front mid rest a b ha hb = ground (
  arith,
  length-append front (mid ++ rest),
  length-append mid rest,
  drop-append a front (mid ++ rest),
  take-append (b - a) mid rest,
)

pub slice_from-append :
    (E : Type 0) {A : Type 0} (front rest : List A) (a : ℕ)
    → length front ≡ a
    → slice_from {E = E} (front ++ rest) a ≡ ok rest
unfolding slice_from
slice_from-append E front rest a ha =
    ground (arith, length-append front rest, drop-append a front rest)

pub slice_from-drop :
    (E : Type 0) {A : Type 0} (xs : List A) (a : ℕ)
    → a ≤ length xs
    → slice_from {E = E} xs a ≡ ok (drop a xs)
unfolding slice_from
slice_from-drop E xs a h = ground arith

pub Result-cases :
    {E A : Type 0} (r : Result E A)
    → ((a : A) × (r ≡ ok a)) ⊎ (((e : E) × (r ≡ err e)) ⊎ (r ≡ panic))
Result-cases (ok a) = inl (a, refl)
Result-cases (err e) = inr (inl (e, refl))
Result-cases panic = inr (inr refl)

-- A chain that ends well went well in its first part.
pub bind-ok :
    {E A B : Type 0} (m : Result E A) (f : A → Result E B) (b : B)
    → (m >>= f) ≡ ok b
    → (a : A) × (m ≡ ok a) × (f a ≡ ok b)
bind-ok (ok a) f b h = (a, refl, h)
bind-ok (err e) f b h = ground arith
bind-ok panic f b h = ground arith
