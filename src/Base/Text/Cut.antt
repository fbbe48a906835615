-- ===== src/Base/Text/Cut.antt =====
-- Texts cut at a character: what the parts hold, and that a joined text is cut again.
use unroxy.Base.{
  ℕ, false, none, some, ◌≡◌, refl, arith, [], ◌∷◌, ◌++◌, ◌==◌, Bool-cases, Option-cases, inl, inr,
}
use unroxy.Base.Text.{Text, split_once, rsplit_once, contains_char}

-- Without the character a text is not cut.
pub split_once-absent : (d : ℕ) (s : Text) → split_once d s ≡ none → contains_char d s ≡ false
unfolding split_once contains_char
split_once-absent d [] h = refl
split_once-absent d (c ∷ s) h = elim (Bool-cases (c == d)) [
  | inl e ↦ ground (arith, e)
  | inr e ↦ elim (Option-cases (split_once d s)) [
    | inl n ↦ ground (arith, e, split_once-absent d s n)
    | inr (ab, m) ↦ ground (arith, e, m)
  ]
]

-- The first part of a cut holds no such character.
pub split_once-front :
    (d : ℕ) (s a b : Text) → split_once d s ≡ some (a, b) → contains_char d a ≡ false
unfolding split_once contains_char
split_once-front d [] a b h = ground arith
split_once-front d (c ∷ s) a b h = elim (Bool-cases (c == d)) [
  | inl e ↦ ground (arith, e)
  | inr e ↦ elim (Option-cases (split_once d s)) [
    | inl n ↦ ground (arith, e, n)
    | inr ((a', b'), m) ↦ ground (arith, e, m, split_once-front d s a' b' m)
  ]
]

pub split_once-join :
    (d : ℕ) (a b : Text) → contains_char d a ≡ false → split_once d (a ++ (d ∷ b)) ≡ some (a, b)
unfolding split_once contains_char
split_once-join d [] b h = ground arith
split_once-join d (c ∷ a) b h = ground (arith, split_once-join d a b)

pub rsplit_once-absent : (d : ℕ) (s : Text) → rsplit_once d s ≡ none → contains_char d s ≡ false
unfolding rsplit_once contains_char
rsplit_once-absent d [] h = refl
rsplit_once-absent d (c ∷ s) h = elim (Option-cases (rsplit_once d s)) [
  | inl n ↦ ground (arith, n, rsplit_once-absent d s n)
  | inr (ab, m) ↦ ground (arith, m)
]

-- The last part of a cut at the last such character holds none.
pub rsplit_once-back :
    (d : ℕ) (s a b : Text) → rsplit_once d s ≡ some (a, b) → contains_char d b ≡ false
unfolding rsplit_once contains_char
rsplit_once-back d [] a b h = ground arith
rsplit_once-back d (c ∷ s) a b h = elim (Option-cases (rsplit_once d s)) [
  | inl n ↦ ground (arith, n, rsplit_once-absent d s n)
  | inr ((a', b'), m) ↦ ground (arith, m, rsplit_once-back d s a' b' m)
]

-- What a text does not hold, the last part of it does not hold.
pub rsplit_once-keeps :
    (d e : ℕ) (s a b : Text)
    → rsplit_once d s ≡ some (a, b)
    → contains_char e s ≡ false
    → contains_char e b ≡ false
unfolding rsplit_once contains_char
rsplit_once-keeps d e [] a b h n = ground arith
rsplit_once-keeps d e (c ∷ s) a b h n = elim (Option-cases (rsplit_once d s)) [
  | inl m ↦ ground (arith, m)
  | inr ((a', b'), m) ↦ ground (arith, m, rsplit_once-keeps d e s a' b' m)
]

pub rsplit_once-none : (d : ℕ) (s : Text) → contains_char d s ≡ false → rsplit_once d s ≡ none
unfolding rsplit_once contains_char
rsplit_once-none d [] h = refl
rsplit_once-none d (c ∷ s) h = ground (arith, rsplit_once-none d s)

pub rsplit_once-join :
    (d : ℕ) (a b : Text) → contains_char d b ≡ false → rsplit_once d (a ++ (d ∷ b)) ≡ some (a, b)
unfolding rsplit_once contains_char
rsplit_once-join d [] b h = ground (arith, rsplit_once-none d b h)
rsplit_once-join d (c ∷ a) b h = ground (arith, rsplit_once-join d a b h)
