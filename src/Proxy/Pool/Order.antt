-- ===== src/Proxy/Pool/Order.antt =====
-- The order of the candidates, and what it holds: sorting and turning lose and add nothing.
use unroxy.Base.{
  ℕ, ◌+◌, ◌%◌, ◌≤◌, Bool, ◌≡◌, refl, sym, ◌∙◌, arith, List, [], ◌∷◌, ◌++◌, length, take, drop, ltb,
  if◌then◌else◌, Bool-cases, inl, inr, take-append-drop, append-nil,
}
use unroxy.Proxy.Pool.{Candidate, Rotation, insert, sort, rotate_left, arrange}

-- How many candidates pass a test.
unfoldable pub count_if : (Candidate → Bool) → List Candidate → ℕ
count_if p [] = 0
count_if p (c ∷ ready) = (if p c then 1 else 0) + count_if p ready

pub count-append :
    (p : Candidate → Bool) (xs ys : List Candidate)
    → count_if p (xs ++ ys) ≡ count_if p xs + count_if p ys
unfolding count_if
count-append p [] ys = omega arith
count-append p (x ∷ xs) ys = omega (arith, count-append p xs ys)

count-insert :
    (p : Candidate → Bool) (c : Candidate) (ready : List Candidate)
    → count_if p (insert c ready) ≡ count_if p (c ∷ ready)
unfolding count_if insert
count-insert p c [] = refl
count-insert p c (d ∷ ready) = ground (arith, count-insert p c ready)

count-sort :
    (p : Candidate → Bool) (ready : List Candidate) → count_if p (sort ready) ≡ count_if p ready
unfolding count_if sort
count-sort p [] = refl
count-sort p (c ∷ ready) = omega (arith, count-insert p c (sort ready), count-sort p ready)

-- Each priority is at least the one before it.
pub Sorted : ℕ → List Candidate → Type 0
Sorted low [] = Unit
Sorted low (c ∷ ready) = (low ≤ c.priority) × Sorted c.priority ready

insert-Sorted :
    (low : ℕ) (c : Candidate) (ready : List Candidate)
    → low ≤ c.priority
    → Sorted low ready
    → Sorted low (insert c ready)
unfolding Sorted insert
insert-Sorted low c [] h s = (h, tt)
insert-Sorted low c (d ∷ ready) h (l, s) = elim (Bool-cases (ltb d.priority c.priority)) [
  | inl e ↦ rw e (l, insert-Sorted d.priority c ready (ground arith) s)
  | inr e ↦ rw e (h, (ground arith, s))
]

sort-Sorted : (ready : List Candidate) → Sorted 0 (sort ready)
unfolding Sorted sort
sort-Sorted [] = tt
sort-Sorted (c ∷ ready) = insert-Sorted 0 c (sort ready) (omega arith) (sort-Sorted ready)

count-rotate :
    (p : Candidate → Bool) (offset : ℕ) (xs : List Candidate)
    → count_if p (rotate_left offset xs) ≡ count_if p xs
unfolding rotate_left
count-rotate p offset xs = ground (
  arith,
  count-append p (drop offset xs) (take offset xs),
  count-append p (take offset xs) (drop offset xs),
  take-append-drop offset xs,
)

-- The end of filtered keeps the number of candidates that pass any test, so none is lost or
-- doubled, and gives them in rising order of priority up to a turn: two parts which, put together
-- the other way round, are sorted.
pub arrange-Sorted :
    (id : ℕ) (rotation : Rotation) (ready : List Candidate)
    → ((p : Candidate → Bool) → count_if p (arrange id rotation ready).0 ≡ count_if p ready)
      × ((front : List Candidate) × (back : List Candidate) × ((arrange id rotation ready).0
            ≡ back ++ front)
          × Sorted 0 (front ++ back))
unfolding arrange
arrange-Sorted id rotation ready = elim (Bool-cases (ltb 1 (length (sort ready)))) [
  | inl e ↦
      let k = rotation id % length (sort ready) in
      rw e (
        λ p. count-rotate p k (sort ready) ∙ count-sort p ready,
        (
          take k (sort ready),
          drop k (sort ready),
          unfold rotate_left in refl,
          rw (take-append-drop k (sort ready)) (sort-Sorted ready),
        ),
      )
  | inr e ↦
      rw e (
        λ p. count-sort p ready,
        ([], sort ready, sym (append-nil (sort ready)), sort-Sorted ready),
      )
]
