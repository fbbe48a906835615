-- ===== src/OpenVpn/Replay/History.antt =====
-- What the window promises, told by the list of the packets let through so far.
use unroxy.Base.{ℕ, ◌+◌, ◌<◌, max, Bool, true, false, List, [], ◌∷◌}
use unroxy.Base.{
  Bool-cases, inl, inr, ap, ltb, ◌==◌, if◌then◌else◌, any, ◌≡◌, refl, arith, ◌&&◌, not,
}

-- The highest packet id so far.
abbrev pub top : List ℕ → ℕ
top [] = 0
top (x ∷ xs) = max x (top xs)

abbrev pub contains : List ℕ → ℕ → Bool
contains xs n = any (λ x. x == n) xs

-- A packet is let through unless it is 0, 64 or more behind the highest, or known.
unfoldable pub fresh : List ℕ → ℕ → Bool
fresh seen id = not (id == 0) && (ltb (top seen) (id + 64) && not (contains seen id))

unfoldable pub history_answers : List ℕ → List ℕ → List Bool
history_answers seen [] = []
history_answers seen (id ∷ ids) =
    fresh seen id ∷ history_answers (if fresh seen id then id ∷ seen else seen) ids

-- Nothing above the highest is known.
pub contains_above : (seen : List ℕ) (n : ℕ) → top seen < n → contains seen n ≡ false
contains_above [] n h = refl
contains_above (x ∷ xs) n h = ground (arith, contains_above xs n)

unfoldable pub history_delivered : List ℕ → List ℕ → List ℕ
history_delivered seen [] = []
history_delivered seen (id ∷ ids) =
    let rest = history_delivered (if fresh seen id then id ∷ seen else seen) ids in
    if fresh seen id then id ∷ rest else rest

-- No element occurs again behind itself.
abbrev pub Distinct : List ℕ → Type 0
Distinct [] = Unit {0}
Distinct (n ∷ ns) = (contains ns n ≡ false) × Distinct ns

-- A known packet does not pass again.
known_stays_out :
    (seen ids : List ℕ) (n : ℕ)
    → contains seen n ≡ true
    → contains (history_delivered seen ids) n ≡ false
unfolding history_delivered fresh
known_stays_out seen [] n h = refl
known_stays_out seen (id ∷ ids) n h = elim (Bool-cases (fresh seen id)) [
  | inl passes ↦ rw passes (
      ground (arith, ap (λ k. contains seen k) {x = id} {y = n}, known_stays_out (id ∷ seen) ids n))
  | inr stopped ↦ rw stopped (known_stays_out seen ids n h)
]

pub history_delivered-Distinct : (seen ids : List ℕ) → Distinct (history_delivered seen ids)
unfolding history_delivered
history_delivered-Distinct seen [] = tt
history_delivered-Distinct seen (id ∷ ids) = elim (Bool-cases (fresh seen id)) [
  | inl passes ↦ rw passes (
    known_stays_out (id ∷ seen) ids id (ground arith),
    history_delivered-Distinct (id ∷ seen) ids,
  )
  | inr stopped ↦ rw stopped (history_delivered-Distinct seen ids)
]
