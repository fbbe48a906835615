-- ===== src/OpenVpn/Control/Queue.antt =====
-- The map of control packets that arrived early, and the entry that is waited for.
use unroxy.Base.{
  ℕ, ◌+◌, ◌-◌, ◌^◌, ◌≤◌, ◌<◌, none, some, ◌≡◌, refl, ◌∙◌, ap, arith, List, [], ◌∷◌, length, ltb,
  ◌==◌,
}
use unroxy.Base.{Bool-cases, inl, inr}
use mathlib.Core.Path.{subst}
use unroxy.OpenVpn.Control.Receive.{insert, lookup, remove}

-- Ids stay below the last `u32`, so that the next one does not wrap.
abbrev pub last_id : ℕ
last_id = 2 ^ 32 - 1

-- `msg n` is the payload of the peer's packet with the id `n`.
module _ (msg : ℕ → List ℕ) where
  -- The entries have rising keys above `lo`, and each is the peer's payload.
  abbrev pub Above : ℕ → List (ℕ × List ℕ) → Type 0
  Above lo [] = Unit {0}
  Above lo ((k, v) ∷ m) = (lo < k) × (k < last_id) × (v ≡ msg k) × Above k m

  pub insert-Above :
      (lo k : ℕ) (m : List (ℕ × List ℕ))
      → lo < k
      → k < last_id
      → Above lo m
      → Above lo (insert k (msg k) m) × (length (insert k (msg k) m) ≤ length m + 1)
  unfolding insert
  insert-Above lo k [] h b a = ((h, b, refl, tt), omega arith)
  insert-Above lo k ((j, w) ∷ m) h b (p, q, e, r) = elim (Bool-cases (ltb k j)) [
    | inl before ↦ rw before ((h, b, refl, (ground arith, q, e, r)), omega arith)
    | inr behind ↦ elim (Bool-cases (k == j)) [
      | inl same ↦
          rw (behind, same) ((h, b, refl, subst (λ n. Above n m) (ground arith) r), omega arith)
      | inr other ↦
          let (above, bound) = insert-Above j k m (ground arith) b r in
          rw (behind, other) ((p, q, e, above), omega arith)
    ]
  ]

  pub absent_below : (k lo : ℕ) (m : List (ℕ × List ℕ)) → k ≤ lo → Above lo m → lookup k m ≡ none
  unfolding lookup
  absent_below k lo [] h a = refl
  absent_below k lo ((j, w) ∷ m) h (p, q, e, r) = ground (arith, absent_below k j m (omega arith) r)

  -- The entry that is waited for can only stand first.
  pub data FirstEntry (n : ℕ) (m : List (ℕ × List ℕ)) : Type 0 where
    missing : lookup n m ≡ none → Above n m → FirstEntry n m
    present :
        n < last_id
        → lookup n m ≡ some (msg n)
        → Above n (remove n m)
        → length (remove n m) + 1 ≡ length m
        → FirstEntry n m

  pub first_entry : (r : ℕ) (m : List (ℕ × List ℕ)) → Above r m → FirstEntry (r + 1) m
  unfolding lookup remove
  first_entry r [] a = missing refl tt
  first_entry r ((j, w) ∷ m) (p, q, e, rest) = elim (Bool-cases (r + 1 == j)) [
    | inl same ↦
        let at : j ≡ r + 1 = ground arith in
        present (omega arith) (rw same (ap some (e ∙ ap msg at)))
          (rw same (subst (λ n. Above n m) at rest)) (rw same (omega arith))
    | inr other ↦
        missing (rw other (absent_below (r + 1) j m (omega arith) rest)) (ground arith, q, e, rest)
  ]
