-- ===== src/OpenVpn/Push/Message.antt =====
-- Where a message stands in the buffer.
use unroxy.Base.{
  ℕ, ◌+◌, true, false, Option, none, some, ◌≡◌, ◌≢◌, refl, sym, ◌∙◌, ap, arith, List, [], ◌∷◌, ◌++◌,
  length, take, drop, take-append, drop-append, length-append, append_assoc, All, ◌==◌,
  Option-cases, Bool-cases, inl, inr,
}
use unroxy.Base.{ok}
use unroxy.Base.Text.{starts_with}
use unroxy.OpenVpn.Push.{position, zero_at, message_at, take_message}

abbrev SplitAtZero : List ℕ → ℕ → Type 0
SplitAtZero bytes n =
    (m : List ℕ) × (rest : List ℕ) × (bytes ≡ m ++ (0 ∷ rest)) × (length m ≡ n) × All (λ b. b ≢ 0) m

zero_step :
    (b n : ℕ) (bytes : List ℕ) (at : Option ℕ)
    → zero_at bytes ≡ at
    → (b == 0) ≡ false
    → ((k : ℕ) → at ≡ some k → SplitAtZero bytes k)
    → zero_at (b ∷ bytes) ≡ some n
    → SplitAtZero (b ∷ bytes) n
unfolding zero_at
zero_step b n bytes none e nz again h = absurd (ground (arith, e, nz, h))
zero_step b n bytes (some k) e nz again h =
    let (m, rest, split, l, all) = again k refl in
    (b ∷ m, rest, ap (λ xs. b ∷ xs) split, ground (arith, e, nz, h, l), ((ground arith), all))

-- The bytes before the first 0, and those behind it.
zero_at-split : (bytes : List ℕ) (n : ℕ) → zero_at bytes ≡ some n → SplitAtZero bytes n
unfolding zero_at
zero_at-split [] n h = absurd (ground (arith, h))
zero_at-split (b ∷ bytes) n h = elim (Bool-cases (b == 0)) [
  | inl e ↦ ([], bytes, ground arith, ground (arith, h, e), tt)
  | inr e ↦ zero_step b n bytes (zero_at bytes) refl e (λ k. zero_at-split bytes k) h
]

abbrev SplitAtPrefix : List ℕ → List ℕ → ℕ → Type 0
SplitAtPrefix prefix bytes n =
    (front : List ℕ) × (rest : List ℕ) × (bytes ≡ front ++ rest)
    × (length front ≡ n)
    × (starts_with prefix rest ≡ true)

prefix_step :
    (prefix : List ℕ) (b n : ℕ) (bytes : List ℕ) (at : Option ℕ)
    → position prefix bytes ≡ at
    → starts_with prefix (b ∷ bytes) ≡ false
    → ((k : ℕ) → at ≡ some k → SplitAtPrefix prefix bytes k)
    → position prefix (b ∷ bytes) ≡ some n
    → SplitAtPrefix prefix (b ∷ bytes) n
unfolding position
prefix_step prefix b n bytes none e not_here again h = absurd (ground (arith, e, not_here, h))
prefix_step prefix b n bytes (some k) e not_here again h =
    let (front, rest, split, l, starts) = again k refl in
    (b ∷ front, rest, ap (λ xs. b ∷ xs) split, ground (arith, e, not_here, h, l), starts)

-- The bytes before the prefix, and the prefix with all that follows.
position-split :
    (prefix bytes : List ℕ) (n : ℕ) → position prefix bytes ≡ some n → SplitAtPrefix prefix bytes n
unfolding position
position-split prefix [] n h = absurd (ground (arith, h))
position-split prefix (b ∷ bytes) n h = elim (Bool-cases (starts_with prefix (b ∷ bytes))) [
  | inl e ↦ ([], b ∷ bytes, refl, ground (arith, h, e), e)
  | inr e ↦
      prefix_step prefix b n bytes (position prefix bytes) refl e
        (λ k. position-split prefix bytes k) h
]

-- Some bytes, the message, its terminator and what is left are the buffer.
abbrev pub Found : List ℕ → List ℕ → List ℕ → List ℕ → Type 0
Found buffer prefix message rest =
    (front : List ℕ) × (buffer ≡ front ++ (message ++ (0 ∷ rest)))
    × All (λ b. b ≢ 0) message
    × (starts_with prefix (message ++ (0 ∷ rest)) ≡ true)

taken :
    (buffer prefix : List ℕ) (at offset : ℕ)
    → position prefix buffer ≡ some at
    → zero_at (drop at buffer) ≡ some offset
    → Found buffer prefix (take offset (drop at buffer)) (drop (at + offset + 1) buffer)
taken buffer prefix at offset p z =
    let (front, tail, split, l, starts) = position-split prefix buffer at p in
    let behind : drop at buffer ≡ tail = rw split (drop-append at front tail l) in
    let (m, rest, split', l', all) = zero_at-split (drop at buffer) offset z in
    let whole : tail ≡ m ++ (0 ∷ rest) = sym behind ∙ split' in
    let taken_m : take offset (drop at buffer) ≡ m =
      rw (behind, whole) (take-append offset m (0 ∷ rest) l') in
    let left : drop (at + offset + 1) buffer ≡ rest =
      ap (drop (at + offset + 1)) (
        split
        ∙ ap (λ xs. front ++ xs) whole
        ∙ ap (λ xs. front ++ xs) (sym (append_assoc m (0 ∷ []) rest))
        ∙ sym (append_assoc front (m ++ (0 ∷ [])) rest))
      ∙ drop-append (at + offset + 1) (front ++ (m ++ (0 ∷ []))) rest
          (omega (arith, l, l', length-append front (m ++ (0 ∷ [])), length-append m (0 ∷ []))) in
    rw (taken_m, left)
      (
        front,
        split ∙ ap (λ xs. front ++ xs) whole,
        all,
        sym (ap (starts_with prefix) whole) ∙ starts,
      )

message_at-Found :
    (buffer prefix : List ℕ) {message rest : List ℕ}
    → message_at buffer prefix ≡ some (message, rest)
    → Found buffer prefix message rest
unfolding message_at
message_at-Found buffer prefix {message = m} {rest = r} h =
    elim (Option-cases (position prefix buffer)) [
      | inl e ↦ absurd (ground (arith, h, e))
      | inr (at, e) ↦ elim (Option-cases (zero_at (drop at buffer))) [
        | inl e' ↦ absurd (ground (arith, h, e, e'))
        | inr (offset, e') ↦
            let found = taken buffer prefix at offset e e' in
            let same_message : take offset (drop at buffer) ≡ m = ground (arith, h, e, e') in
            let same_rest : drop (at + offset + 1) buffer ≡ r = ground (arith, h, e, e') in
            rw (← same_message, ← same_rest) found
      ]
    ]

-- When take_message gives a message, the buffer is some bytes, the message, the byte 0 that ends
-- it, and what is left in the buffer; the message holds no 0, and the prefix stands where it
-- starts.
pub take_message-Found :
    (buffer prefix : List ℕ) {message rest : List ℕ}
    → take_message buffer prefix ≡ ok (some (message, rest))
    → Found buffer prefix message rest
unfolding take_message
take_message-Found buffer [] h = absurd (ground (arith, h))
take_message-Found buffer (b ∷ prefix) h = message_at-Found buffer (b ∷ prefix) (ground (arith, h))
