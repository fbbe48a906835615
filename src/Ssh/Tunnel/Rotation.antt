-- ===== src/Ssh/Tunnel/Rotation.antt =====
-- The choice of the account for the next session, in turn.
use native.Mathlib.Nat.{add-mul-mod_self_left, mod-eq_of_lt, div-add-mod, mod-lt, add-mod_right}
use unroxy.Base.{
  ℕ, zero, suc, ◌+◌, ◌-◌, ◌*◌, ◌/◌, ◌%◌, ◌^◌, ◌<◌, true, false, Option, none, some, List, length,
  get_or, leb, ◌≡◌, refl, sym, ap, ◌∙◌, arith, Bool-cases, inl, inr, lt_or_ge,
}
use unroxy.Ssh.Tunnel.{Inner, add_one, pick_from, pick_account}

-- Some number of steps on leads to every index.
steps_to : (r i n : ℕ) → i < n → (k : ℕ) × (k < n) × ((r + k) % n ≡ i)
steps_to r i n h =
    let below : r % n < n = mod-lt r (omega (arith, h)) in
    let parts = div-add-mod r n in
    let back = add-mul-mod_self_left i n (r / n) ∙ mod-eq_of_lt h in
    elim (lt_or_ge i (r % n)) [
      | inr up ↦
          let eq : r + (i - r % n) ≡ i + n * (r / n) = omega (arith, parts, up) in
          (i - r % n, omega (arith, h), ap (λ x. x % n) eq ∙ back)
      | inl down ↦
          let eq : r + (n + i - r % n) ≡ i + n * (r / n) + n = omega (arith, parts, below) in
          (
            n + i - r % n,
            omega (arith, down, below),
            ap (λ x. x % n) eq ∙ add-mod_right (i + n * (r / n)) n ∙ back,
          )
    ]

-- Without a choice, no index that was looked at may be used.
pick_from-none :
    (rounds : ℕ) (not_before : List ℕ) (now rotate k : ℕ)
    → rotate + rounds < 2 ^ 64
    → (pick_from rounds not_before now rotate).0 ≡ none
    → k < rounds
    → leb (get_or not_before ((rotate + k) % length not_before) 0) now ≡ false
unfolding pick_from
pick_from-none zero not_before now rotate k small h below = absurd (omega (arith, below))
pick_from-none (suc rounds) not_before now rotate zero small h below =
    elim (Bool-cases (leb (get_or not_before (rotate % length not_before) 0) now)) [
      | inl e ↦ ground (arith, e, h)
      | inr e ↦ ap (λ at. leb (get_or not_before (at % length not_before) 0) now) (omega arith) ∙ e
    ]
pick_from-none (suc rounds) not_before now rotate (suc k) small h below =
    let onward : add_one rotate ≡ suc rotate = omega (arith, small) in
    let shift : rotate + suc k ≡ add_one rotate + k = omega (arith, onward) in
    elim (Bool-cases (leb (get_or not_before (rotate % length not_before) 0) now)) [
      | inl e ↦ ground (arith, e, h)
      | inr e ↦
          ap (λ at. leb (get_or not_before (at % length not_before) 0) now) shift
          ∙ pick_from-none rounds not_before now (add_one rotate) k (omega (arith, onward, small))
              (ground (arith, e, h)) (omega (arith, below))
    ]

pick_from-some :
    (rounds : ℕ) (not_before : List ℕ) (now rotate i : ℕ)
    → 0 < length not_before
    → (pick_from rounds not_before now rotate).0 ≡ some i
    → (i < length not_before) × (leb (get_or not_before i 0) now ≡ true)
unfolding pick_from
pick_from-some zero not_before now rotate i some_there h = ground arith
pick_from-some (suc rounds) not_before now rotate i some_there h =
    elim (Bool-cases (leb (get_or not_before (rotate % length not_before) 0) now)) [
      | inl e ↦
          let chosen : rotate % length not_before ≡ i = ground (arith, e, h) in
          (
            omega (arith, mod-lt rotate some_there, chosen),
            ap (λ x. leb (get_or not_before x 0) now) (sym chosen) ∙ e,
          )
      | inr e ↦
          pick_from-some rounds not_before now (add_one rotate) i some_there (ground (arith, e, h))
    ]

-- What `pick_account` answers: an account whose wait is over, or nothing if there is none.
abbrev pub IsPick : List ℕ → ℕ → Option ℕ → Type 0
IsPick not_before now none =
    (i : ℕ) → i < length not_before → leb (get_or not_before i 0) now ≡ false
IsPick not_before now (some i) = (i < length not_before) × (leb (get_or not_before i 0) now ≡ true)

pick_from-IsPick :
    (not_before : List ℕ) (now rotate : ℕ) (picked : Option ℕ)
    → 0 < length not_before
    → rotate + length not_before < 2 ^ 64
    → (pick_from (length not_before) not_before now rotate).0 ≡ picked
    → IsPick not_before now picked
pick_from-IsPick not_before now rotate (some i) some_there small h =
    pick_from-some (length not_before) not_before now rotate i some_there h
pick_from-IsPick not_before now rotate none some_there small h = λ i below.
    let (k, k_below, at) = steps_to rotate i (length not_before) below in
    ap (λ x. leb (get_or not_before x 0) now) (sym at)
    ∙ pick_from-none (length not_before) not_before now rotate k small h k_below

-- The account that pick_account gives is one of the tunnel's whose wait is over, and it gives none
-- only if every account waits, as long as there are accounts and the counter of the rotation does
-- not wrap within the rounds.
pub pick_account-IsPick :
    (now : ℕ) (inner : Inner)
    → 0 < length inner.account_not_before
    → inner.rotate + length inner.account_not_before < 2 ^ 64
    → IsPick inner.account_not_before now (pick_account now inner).0
unfolding pick_account
pick_account-IsPick now inner some_there small =
    pick_from-IsPick inner.account_not_before now inner.rotate
      (pick_from (length inner.account_not_before) inner.account_not_before now inner.rotate).0
      some_there small refl
