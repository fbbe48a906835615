-- ===== src/OpenVpn/Packet/Panics.antt =====
-- When `Packet::parse` slices out of range.
use unroxy.Base.{ℕ, ◌+◌, ◌*◌, ◌/◌, ◌≤◌, ◌<◌, ◌≡◌, ◌↔◌, ◌≢◌, arith}
use unroxy.Base.{List, [], ◌∷◌, length, get_or}
use unroxy.Base.{panic, slice, slice_from}
use unroxy.OpenVpn.Packet.{parse, parse_data, parse_control, p_ack_v1}

-- An acknowledgement that announces packet ids, holds them, and ends within the session id that must
-- follow them.
abbrev pub CutAck : List ℕ → Type 0
CutAck raw =
    (get_or raw 0 0 / 8 ≡ p_ack_v1)
    × (0 < get_or raw 9 0)
    × (10 + get_or raw 9 0 * 4 ≤ length raw)
    × (length raw < 18 + get_or raw 9 0 * 4)

parse_data-ne-panic : (opcode : ℕ) (raw : List ℕ) → parse_data opcode raw ≢ panic
unfolding parse_data slice slice_from
parse_data-ne-panic opcode raw e = ground arith

parse_control-panic :
    (opcode : ℕ) (raw : List ℕ)
    → parse_control opcode raw ≡ panic
    → (opcode ≡ p_ack_v1)
      × (0 < get_or raw 9 0)
      × (10 + get_or raw 9 0 * 4 ≤ length raw)
      × (length raw < 18 + get_or raw 9 0 * 4)
unfolding parse_control slice slice_from
parse_control-panic opcode raw e = ground arith

parse_control-cut :
    (opcode : ℕ) (raw : List ℕ)
    → opcode ≡ p_ack_v1
    → 0 < get_or raw 9 0
    → 10 + get_or raw 9 0 * 4 ≤ length raw
    → length raw < 18 + get_or raw 9 0 * 4
    → parse_control opcode raw ≡ panic
unfolding parse_control slice slice_from
parse_control-cut opcode raw h pos lo hi = ground arith

-- Packet::parse panics on exactly those inputs that are an acknowledgement packet which announces
-- at least one packet id and ends between its last id and the end of the session id behind it.
pub parse_panics_iff : (raw : List ℕ) → (parse raw ≡ panic) ↔ CutAck raw
unfolding parse
parse_panics_iff [] = (λ e. ground arith, λ c. ground arith)
parse_panics_iff (byte ∷ rest) = (
  λ e. ground (
    arith,
    parse_data-ne-panic (byte / 8) (byte ∷ rest),
    parse_control-panic (byte / 8) (byte ∷ rest),
  ),
  λ c. ground (arith, parse_control-cut (byte / 8) (byte ∷ rest)),
)
