-- ===== src/Ssh/Account/Groups.antt =====
-- The groups by region hold what the choice of that region gives.
use unroxy.Base.{
  true, false, Option, none, some, ◌≡◌, sym, ◌∙◌, ap, arith, List, [], ◌∷◌, ◌++◌, Bool-cases,
  Option-cases, inl, inr, append_assoc, append-nil,
}
use unroxy.Base.Text.{Text, text_eq, text_eq_iff, is_empty}
use unroxy.Ssh.Account.{Account, Grouped, parse, push_entry, group_from, group_by_region}

-- The accounts of an entry, none without one.
abbrev pub accounts_of : Option (List Account) → List Account
accounts_of none = []
accounts_of (some accounts) = accounts

-- A region at hand is not empty, so an account of it has a region.
region_there :
    (a : Account) (region : Text)
    → is_empty region ≡ false
    → text_eq a.region region ≡ true
    → is_empty a.region ≡ false
region_there a region h e = ap is_empty ((text_eq_iff a.region region).0 e) ∙ h

pushed :
    (a : Account) (grouped : Grouped) (region : Text)
    → text_eq a.region region ≡ true
    → accounts_of (push_entry a grouped region) ≡ accounts_of (grouped region) ++ (a ∷ [])
unfolding push_entry
pushed a grouped region e = elim (Option-cases (grouped region)) [
  | inl n ↦ ground (arith, e, n)
  | inr (known, n) ↦ ground (arith, e, n)
]

elsewhere :
    (a : Account) (grouped : Grouped) (region : Text)
    → text_eq a.region region ≡ false
    → push_entry a grouped region ≡ grouped region
unfolding push_entry
elsewhere a grouped region e = ground (arith, e)

group_from-parse :
    (grouped : Grouped) (accounts : List Account) (region : Text)
    → is_empty region ≡ false
    → accounts_of (group_from grouped accounts region)
      ≡ accounts_of (grouped region) ++ parse accounts region
unfolding group_from parse
group_from-parse grouped [] region h = sym (append-nil (accounts_of (grouped region)))
group_from-parse grouped (a ∷ accounts) region h = elim (Bool-cases (text_eq a.region region)) [
  | inl e ↦
      rw (region_there a region h e, h, e)
        (group_from-parse (push_entry a grouped) accounts region h
          ∙ ap (λ xs. xs ++ parse accounts region) (pushed a grouped region e)
          ∙ append_assoc (accounts_of (grouped region)) (a ∷ []) (parse accounts region))
  | inr e ↦ elim (Bool-cases (is_empty a.region)) [
    | inl none_there ↦ rw (none_there, h, e) (group_from-parse grouped accounts region h)
    | inr there ↦
        rw (there, h, e)
          (group_from-parse (push_entry a grouped) accounts region h
            ∙ ap (λ o. accounts_of o ++ parse accounts region) (elsewhere a grouped region e))
  ]
]

-- For a region that is not empty, the group of the region holds the accounts that parse chooses for
-- it, in the same order.
pub group_by_region-parse :
    (accounts : List Account) (region : Text)
    → is_empty region ≡ false
    → accounts_of (group_by_region accounts region) ≡ parse accounts region
unfolding group_by_region
group_by_region-parse accounts region h = group_from-parse (λ region. none) accounts region h
