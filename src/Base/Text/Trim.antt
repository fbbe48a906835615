-- ===== src/Base/Text/Trim.antt =====
-- Texts that are trimmed of characters at their ends, and the numbers that are read of digits.
use mathlib.Core.List.{reverse, reverse-cons, reverse-append, reverse-reverse}
use unroxy.Base.{
  ℕ, ◌+◌, ◌*◌, ◌-◌, ◌≤◌, Bool, true, false, ◌&&◌, none, some, ◌≡◌, refl, ap, ◌∙◌, arith, [], ◌∷◌,
  ◌++◌, any, any-append, leb, ◌==◌, Bool-cases, inl, inr,
}
use unroxy.Base.Text.{
  Text, trim_start, trim_end, trim_matches, contains_char, is_digit, decimal_digits, parse_decimal,
  drop_plus, starts_with, ends_with,
}

any-reverse : (p : ℕ → Bool) (s : Text) → any p (reverse s) ≡ any p s
any-reverse p [] = refl
any-reverse p (c ∷ s) =
    ap (any p) (reverse-cons c s)
    ∙ any-append p (reverse s) (c ∷ [])
    ∙ ground (arith, any-reverse p s)

trim_start-none : (p : ℕ → Bool) (s : Text) → any p s ≡ false → trim_start p s ≡ s
unfolding trim_start
trim_start-none p [] h = refl
trim_start-none p (c ∷ s) h = ground (arith, h)

trim_end-none : (p : ℕ → Bool) (s : Text) → any p s ≡ false → trim_end p s ≡ s
unfolding trim_end
trim_end-none p s h =
    ap reverse (trim_start-none p (reverse s) (any-reverse p s ∙ h)) ∙ reverse-reverse s

-- A text without the characters is not trimmed.
pub trim_matches-none : (p : ℕ → Bool) (s : Text) → any p s ≡ false → trim_matches p s ≡ s
unfolding trim_matches
trim_matches-none p s h = ap (trim_end p) (trim_start-none p s h) ∙ trim_end-none p s h

trim_start-first :
    (p : ℕ → Bool) (c : ℕ) (s : Text) → p c ≡ true → any p s ≡ false → trim_start p (c ∷ s) ≡ s
unfolding trim_start
trim_start-first p c s e h = rw (e) (trim_start-none p s h)

trim_end-last :
    (p : ℕ → Bool) (s : Text) (c : ℕ)
    → p c ≡ true
    → any p s ≡ false
    → trim_end p (s ++ (c ∷ [])) ≡ s
unfolding trim_end trim_start
trim_end-last p s c e h =
    ap (λ t. reverse (trim_start p t)) (reverse-append s (c ∷ []))
    ∙ ap reverse (trim_start-first p c (reverse s) e (any-reverse p s ∙ h))
    ∙ reverse-reverse s

-- Around a text without the characters one of them at each end is trimmed.
pub trim_matches-around :
    (p : ℕ → Bool) (b c : ℕ) (s : Text)
    → p b ≡ true
    → p c ≡ true
    → any p s ≡ false
    → trim_matches p (b ∷ (s ++ (c ∷ []))) ≡ s
unfolding trim_matches trim_start trim_end
trim_matches-around p b c [] e f h = rw (e, f) refl
trim_matches-around p b c (x ∷ s) e f h = elim (Bool-cases (p x)) [
  | inl g ↦ ground (arith, g, h)
  | inr g ↦ rw (e, g) (trim_end-last p (x ∷ s) c f h)
]

decimal_digits-le :
    (bound acc : ℕ) (s : Text) (n : ℕ)
    → acc ≤ bound
    → decimal_digits bound acc s ≡ some n
    → n ≤ bound
unfolding decimal_digits
decimal_digits-le bound acc [] n h e = ground arith
decimal_digits-le bound acc (c ∷ s) n h e =
    elim (Bool-cases (is_digit c && leb (acc * 10 + (c - 48)) bound)) [
      | inl t ↦
          decimal_digits-le bound (acc * 10 + (c - 48)) s n (ground (arith, t))
            (ground (arith, t, e))
      | inr t ↦ ground (arith, t, e)
    ]

-- A number that is read is within its bound.
pub parse_decimal-le : (bound : ℕ) (s : Text) (n : ℕ) → parse_decimal bound s ≡ some n → n ≤ bound
unfolding parse_decimal
parse_decimal-le bound s n e = go (drop_plus s) e
  where
    go :
        (t : Text)
        → elim t [ [] ↦ none | c ∷ u ↦ decimal_digits bound 0 (c ∷ u) ] ≡ some n
        → n ≤ bound
    go [] h = ground arith
    go (c ∷ u) h = decimal_digits-le bound 0 (c ∷ u) n (omega arith) h

decimal_digits-absent :
    (d bound acc : ℕ) (s : Text) (n : ℕ)
    → is_digit d ≡ false
    → decimal_digits bound acc s ≡ some n
    → contains_char d s ≡ false
unfolding decimal_digits contains_char is_digit
decimal_digits-absent d bound acc [] n h e = refl
decimal_digits-absent d bound acc (c ∷ s) n h e =
    elim (Bool-cases (is_digit c && leb (acc * 10 + (c - 48)) bound)) [
      | inl t ↦ ground (
        arith,
        t,
        h,
        decimal_digits-absent d bound (acc * 10 + (c - 48)) s n h (ground (arith, t, e)),
      )
      | inr t ↦ ground (arith, t, e)
    ]

digits_absent :
    (d bound : ℕ) (s : Text) (n : ℕ)
    → is_digit d ≡ false
    → elim s [ [] ↦ none | c ∷ t ↦ decimal_digits bound 0 (c ∷ t) ] ≡ some n
    → contains_char d s ≡ false
unfolding contains_char
digits_absent d bound [] n h e = refl
digits_absent d bound (c ∷ s) n h e = decimal_digits-absent d bound 0 (c ∷ s) n h e

-- What is no digit and no `+` does not stand in a number that is read.
pub parse_decimal-absent :
    (d bound : ℕ) (s : Text) (n : ℕ)
    → is_digit d ≡ false
    → (d == b'+') ≡ false
    → parse_decimal bound s ≡ some n
    → contains_char d s ≡ false
unfolding parse_decimal contains_char drop_plus
parse_decimal-absent d bound [] n h plus e = refl
parse_decimal-absent d bound (c ∷ s) n h plus e = elim (Bool-cases (c == b'+')) [
  | inl g ↦ ground (arith, g, h, plus, digits_absent d bound s n h (ground (arith, g, e)))
  | inr g ↦ decimal_digits-absent d bound 0 (c ∷ s) n h (ground (arith, g, e))
]

-- A text ends with its last character.
pub ends_with-last : (c : ℕ) (s : Text) → ends_with (c ∷ []) (s ++ (c ∷ [])) ≡ true
unfolding ends_with starts_with
ends_with-last c s =
    ap (starts_with (c ∷ [])) (reverse-append s (c ∷ [])) ∙ first_equal c (reverse s)
  where
    first_equal : (d : ℕ) (t : Text) → starts_with (d ∷ []) (d ∷ t) ≡ true
    first_equal d t = ground arith
