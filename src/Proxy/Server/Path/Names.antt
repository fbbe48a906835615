-- ===== src/Proxy/Server/Path/Names.antt =====
-- The names that a route is read of.
use unroxy.Base.{
  ℕ, zero, suc, true, false, ◌||◌, Option, some, ◌≡◌, refl, sym, ◌∙◌, arith, [], ◌∷◌, ltb,
  Bool-cases, Option-cases, inl, inr, ◌⊎◌,
}
use mathlib.Core.Path.{subst}
use unroxy.Base.Text.{Text, is_empty, split_once, contains_char, to_ascii_uppercase, upper}
use unroxy.Proxy.Pool.{Protocol}
use unroxy.Proxy.Server.Path.{take_head, take_heads}

-- The name of a region in a route: in upper case, and without a dot or a colon.
abbrev pub IsRegionName : Text → Type 0
IsRegionName name =
    (is_empty name ≡ false)
    × (contains_char b'.' name ≡ false)
    × (contains_char b':' name ≡ false)
    × (to_ascii_uppercase name ≡ name)

abbrev pub RegionIsNamed : Option Text → Type 0
RegionIsNamed region = (name : Text) → region ≡ some name → IsRegionName name

upper-upper : (c : ℕ) → upper (upper c) ≡ upper c
unfolding upper
upper-upper c = ground arith

uppercase_again : (s : Text) → to_ascii_uppercase (to_ascii_uppercase s) ≡ to_ascii_uppercase s
unfolding to_ascii_uppercase
uppercase_again [] = refl
uppercase_again (c ∷ s) = ground (arith, upper-upper c, uppercase_again s)

contains_char-upper :
    (d : ℕ) (s : Text)
    → upper d ≡ d
    → (ltb 90 d || ltb d 65) ≡ true
    → contains_char d (to_ascii_uppercase s) ≡ contains_char d s
unfolding contains_char to_ascii_uppercase upper
contains_char-upper d [] u h = refl
contains_char-upper d (c ∷ s) u h = ground (arith, contains_char-upper d s u h)

is_empty-upper : (s : Text) → is_empty (to_ascii_uppercase s) ≡ is_empty s
unfolding to_ascii_uppercase
is_empty-upper [] = refl
is_empty-upper (c ∷ s) = refl

-- A name that may stand before the target.
abbrev pub IsHead : Text → Type 0
IsHead head =
    (is_empty head ≡ false) × (contains_char b'.' head ≡ false) × (contains_char b':' head ≡ false)

upper-IsRegionName : (head : Text) → IsHead head → IsRegionName (to_ascii_uppercase head)
unfolding upper
upper-IsRegionName head (e, dot, colon) = (
  is_empty-upper head ∙ e,
  contains_char-upper b'.' head refl refl ∙ dot,
  contains_char-upper b':' head refl refl ∙ colon,
  uppercase_again head,
)

named_some : (name : Text) → IsRegionName name → RegionIsNamed (some name)
named_some name n other e = subst IsRegionName (ground arith) n

-- A name is taken as the protocol, or as the region, in upper case.
take_head-cases :
    (protocol : Option Protocol) (region : Option Text) (head : Text) (p : Option Protocol)
    → (r : Option Text) → take_head protocol region head ≡ some (p, r)
    → (r ≡ region) ⊎ (IsHead head × (r ≡ some (to_ascii_uppercase head)))
unfolding take_head
take_head-cases protocol region head p r h = elim (Bool-cases (is_empty head)) [
  | inl e ↦ ground (arith, e)
  | inr e ↦ elim (Bool-cases (contains_char b'.' head)) [
    | inl dot ↦ ground (arith, e, dot)
    | inr dot ↦ elim (Bool-cases (contains_char b':' head)) [
      | inl colon ↦ ground (arith, e, dot, colon)
      | inr colon ↦ ground (arith, e, dot, colon)
    ]
  ]
]

take_head-named :
    (protocol p : Option Protocol) (region r : Option Text) (head : Text)
    → RegionIsNamed region
    → take_head protocol region head ≡ some (p, r)
    → RegionIsNamed r
take_head-named protocol p region r head n h = elim (take_head-cases protocol region head p r h) [
  | inl e ↦ subst RegionIsNamed (sym e) n
  | inr (is_head, e) ↦
      subst RegionIsNamed (sym e)
        (named_some (to_ascii_uppercase head) (upper-IsRegionName head is_head))
]

pub take_heads-step :
    (n : ℕ) (protocol p : Option Protocol) (region r : Option Text) (rest head tail : Text)
    → split_once b'/' rest ≡ some (head, tail)
    → take_head protocol region head ≡ some (p, r)
    → take_heads (suc n) protocol region rest ≡ take_heads n p r tail
unfolding take_heads
take_heads-step n protocol p region r rest head tail e f = ground (arith, e, f)

pub take_heads-named :
    (n : ℕ) (protocol : Option Protocol) (region : Option Text) (rest : Text)
    → RegionIsNamed region
    → RegionIsNamed (take_heads n protocol region rest).1
unfolding take_heads
take_heads-named zero protocol region rest h = h
take_heads-named (suc n) protocol region rest h = elim (Option-cases (split_once b'/' rest)) [
  | inl e ↦ rw (take_heads, e) h
  | inr ((head, tail), e) ↦ elim (Option-cases (take_head protocol region head)) [
    | inl f ↦ rw (take_heads, e, f) h
    | inr ((p, r), f) ↦
        subst (λ t. RegionIsNamed t.1)
          (sym (take_heads-step n protocol p region r rest head tail e f))
          (take_heads-named n p r tail (take_head-named protocol p region r head h f))
  ]
]
