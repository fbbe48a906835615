-- ===== src/OpenVpn/Replay/Refine.antt =====
-- The window of 64 digits gives the answers of the full history.
use unroxy.Base.{ℕ, ◌-◌, ◌*◌, ◌%◌, ◌^◌, ◌≤◌, ◌<◌, true, false, List, [], ◌∷◌}
use unroxy.Base.{ltb, ◌==◌, if◌then◌else◌, ◌≡◌, refl, ap, ◌∙◌, arith, Bool-cases, inl, inr}
use unroxy.Base.Bits.{
  bit, bit-zero, bit_le_one, bit-bit_or, bit-pow, bit_and-pow, bit-shift, bit-mod,
}
use unroxy.OpenVpn.Replay.{
  ReplayWindow, new, accept, advance, check_behind, answers, delivered, shift_left,
}
use unroxy.OpenVpn.Replay.History.{
  top, contains, fresh, history_answers, history_delivered, contains_above,
}
use unroxy.OpenVpn.Replay.History.{Distinct, history_delivered-Distinct}
use Prim.Native.Nat.{bit_and, bit_or}
use native.Mathlib.Nat.{mod-eq_of_lt, one-le-pow, pow-le-pow_right}

-- `bits` holds a digit for each of the 64 ids up to the highest.
pub record Tracks (w : ReplayWindow) (seen : List ℕ) : Type 0 where
  pub width : w.window ≡ 64
  pub highest : w.last ≡ top seen
  pub digits :
      (k : ℕ) → k < 64 → k < w.last → bit w.bits k ≡ (if contains seen (w.last - k) then 1 else 0)

pub new-Tracks : Tracks new []
unfolding new
new-Tracks = record { width = refl; highest = refl; digits = λ k h l. absurd (omega arith) }

-- The digits after a move of the window by `shift`.
advance_digit :
    (w : ReplayWindow) (id k : ℕ)
    → w.window ≡ 64
    → w.last < id
    → k < 64
    → bit (advance w id).bits k
      ≡ (if k == 0 then 1 else if ltb k (id - w.last) then 0 else bit w.bits (k - (id - w.last)))
unfolding advance
advance_digit w id k hw hl hk = ground (
  arith,
  bit-zero k,
  bit-bit_or 0 1 k,
  bit-bit_or (shift_left w.bits (id - w.last)) 1 k,
  bit-pow 0 k,
  bit-mod 64 (w.bits * 2 ^ (id - w.last)) k hk,
  bit-shift (id - w.last) w.bits k,
  bit_le_one w.bits (k - (id - w.last)),
)

module _ (w : ReplayWindow) (seen : List ℕ) (id : ℕ) (t : Tracks w seen) (h : w.last < id) where
  -- An id that the move passes over is not known yet; one below it keeps its digit.
  advance_indicator :
      (k : ℕ)
      → k < 64
      → k < id
      → bit (advance w id).bits k ≡ (if contains (id ∷ seen) (id - k) then 1 else 0)
  advance_indicator k hk hl = elim (Bool-cases (ltb k (id - w.last))) [
    | inl jumped ↦
        ground (arith, advance_digit w id k t.width h hk, t.highest, contains_above seen (id - k))
    | inr kept ↦ ground (
      arith,
      advance_digit w id k t.width h hk,
      t.digits (k - (id - w.last)) (omega arith) (ground arith),
      ap (λ n. contains seen n) (same (ground arith)),
    )
  ]
    where
      same : id - w.last ≤ k → w.last - (k - (id - w.last)) ≡ id - k
      same l = omega arith

  advance-Tracks : Tracks (advance w id) (id ∷ seen)
  advance-Tracks = record {
    width = unfold advance in t.width;
    highest = unfold advance in omega (arith, t.highest);
    digits = unfold advance in advance_indicator;
  }

two_pow_below : (b : ℕ) → b < 64 → 2 ^ b % 2 ^ 64 ≡ 2 ^ b
two_pow_below b h =
    mod-eq_of_lt
      (omega (arith, pow-le-pow_right {n = 2} (omega arith) {i = b} {j = 63} (omega arith)))

module _ (w : ReplayWindow) (seen : List ℕ) (id : ℕ) (t : Tracks w seen) where
  -- The mask test reads the digit of the packet.
  mask_test :
      w.last - id < 64
      → (bit_and w.bits (2 ^ (w.last - id) % 2 ^ 64) == 0) ≡ (bit w.bits (w.last - id) == 0)
  mask_test h = ground (
    arith,
    two_pow_below (w.last - id) h,
    bit_and-pow (w.last - id) w.bits,
    bit_le_one w.bits (w.last - id),
    one-le-pow (w.last - id) 2,
  )

  -- The digit of a packet of the window tells whether it is known.
  known_digit :
      0 < id
      → id ≤ w.last
      → w.last - id < 64
      → bit w.bits (w.last - id) ≡ (if contains seen id then 1 else 0)
  known_digit pos le near =
      t.digits (w.last - id) near (omega arith) ∙ ap (λ n. if contains seen n then 1 else 0) same
    where
      same : w.last - (w.last - id) ≡ id
      same = omega arith

  mark : ReplayWindow
  mark = record w { bits = bit_or w.bits (2 ^ (w.last - id) % 2 ^ 64) }

  mark-Tracks : 0 < id → id ≤ w.last → w.last - id < 64 → Tracks mark (id ∷ seen)
  unfolding mark
  mark-Tracks pos le near = record {
    width = t.width;
    highest = omega (arith, t.highest);
    digits = λ k hk hl. ground (
      arith,
      two_pow_below (w.last - id) near,
      bit-bit_or w.bits (2 ^ (w.last - id)) k,
      bit-pow (w.last - id) k,
      bit_le_one w.bits k,
      t.digits k hk hl,
    );
  }

  -- What each branch of `check_behind` does, and what the history says there.
  too_old : 64 ≤ w.last - id → (check_behind w id ≡ (w, false)) × (fresh seen id ≡ false)
  unfolding check_behind fresh
  too_old old = (ground (arith, t.width), ground (arith, t.highest))

  replayed :
      0 < id
      → id ≤ w.last
      → w.last - id < 64
      → contains seen id ≡ true
      → (check_behind w id ≡ (w, false)) × (fresh seen id ≡ false)
  unfolding check_behind fresh
  replayed pos le near known =
      (ground (arith, t.width, mask_test near, known_digit pos le near), rw known (ground arith))

  late :
      0 < id
      → id ≤ w.last
      → w.last - id < 64
      → contains seen id ≡ false
      → (check_behind w id ≡ (mark, true)) × (fresh seen id ≡ true)
  unfolding check_behind fresh mark
  late pos le near unknown = (
    ground (arith, t.width, mask_test near, known_digit pos le near),
    rw unknown (ground (arith, t.highest)),
  )

  behind_refines :
      0 < id
      → id ≤ w.last
      → ((check_behind w id).1 ≡ fresh seen id)
        × Tracks (check_behind w id).0 (if fresh seen id then id ∷ seen else seen)
  behind_refines pos le = elim (Bool-cases (ltb (w.last - id) 64)) [
    | inr old ↦ let (c, f) = too_old (ground arith) in rw (c, f) (refl, t)
    | inl near ↦ elim (Bool-cases (contains seen id)) [
      | inl known ↦ let (c, f) = replayed pos le (ground arith) known in rw (c, f) (refl, t)
      | inr new_one ↦
          let (c, f) = late pos le (ground arith) new_one in
          rw (c, f) (refl, mark-Tracks pos le (ground arith))
    ]
  ]

  -- One packet: the answer is the history's, and the window goes on tracking it.
  pub accept_refines :
      ((accept w id).1 ≡ fresh seen id)
      × Tracks (accept w id).0 (if fresh seen id then id ∷ seen else seen)
  accept_refines = elim (Bool-cases (id == 0)) [
    | inl zero_id ↦ let (c, f) = reserved zero_id in rw (c, f) (refl, t)
    | inr pos ↦ elim (Bool-cases (ltb w.last id)) [
      | inl ahead ↦
          let (c, f) = moved pos ahead in
          rw (c, f) (refl, advance-Tracks w seen id t (ground arith))
      | inr le ↦ rw (falls pos le) (behind_refines (ground arith) (ground arith))
    ]
  ]
    where
      reserved : (id == 0) ≡ true → (accept w id ≡ (w, false)) × (fresh seen id ≡ false)
      reserved z = unfold accept fresh in rw z (refl, refl)

      moved :
          (id == 0) ≡ false
          → ltb w.last id ≡ true
          → (accept w id ≡ (advance w id, true)) × (fresh seen id ≡ true)
      moved z a =
          unfold accept fresh in (rw (z, a), ground (arith, t.highest, contains_above seen id))

      falls : (id == 0) ≡ false → ltb w.last id ≡ false → accept w id ≡ check_behind w id
      falls z a = unfold accept in rw (z, a)

-- A packet above all the others is let through.
pub accept_ahead : (w : ReplayWindow) (id : ℕ) → w.last < id → (accept w id).1 ≡ true
unfolding accept
accept_ahead w id h = ground arith

-- Over a whole session the window answers as the full history does.
answers_track :
    (w : ReplayWindow) (seen ids : List ℕ)
    → Tracks w seen
    → answers w ids ≡ history_answers seen ids
unfolding answers history_answers
answers_track w seen [] t = refl
answers_track w seen (id ∷ ids) t =
    let (a, t') = accept_refines w seen id t in
    rw (a, answers_track (accept w id).0 (if fresh seen id then id ∷ seen else seen) ids t')

-- The answers of a new replay window to any sequence of packet ids are those of the rule told by
-- the full history: an id passes unless it is 0, is 64 or more behind the highest one let through,
-- or was let through before.
pub answers_refines : (ids : List ℕ) → answers new ids ≡ history_answers [] ids
answers_refines ids = answers_track new [] ids new-Tracks

delivered_track :
    (w : ReplayWindow) (seen ids : List ℕ)
    → Tracks w seen
    → delivered w ids ≡ history_delivered seen ids
unfolding delivered history_delivered
delivered_track w seen [] t = refl
delivered_track w seen (id ∷ ids) t =
    let (a, t') = accept_refines w seen id t in
    rw (a, delivered_track (accept w id).0 (if fresh seen id then id ∷ seen else seen) ids t')

-- No packet id is let through twice by a new replay window, in whatever order the packets of a
-- session arrive and however often they are repeated.
pub delivered-Distinct : (ids : List ℕ) → Distinct (delivered new ids)
delivered-Distinct ids =
    rw (delivered_track new [] ids new-Tracks) (history_delivered-Distinct [] ids)
