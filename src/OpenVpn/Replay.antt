-- ===== src/OpenVpn/Replay.antt =====
-- src/openvpn/crypto/replay.rs: the sliding window that drops replayed data packets.
-- The atomics and the lock are only reached through `&mut Control`, so one call runs at a time.
pub mod History
pub mod Refine
use unroxy.Base.{ℕ, ◌-◌, ◌*◌, ◌%◌, ◌^◌, Bool, true, false, List, [], ◌∷◌}
use unroxy.Base.{ltb, leb, ◌==◌, if◌then◌else◌}
use Prim.Native.Nat.{bit_and, bit_or}

pub record ReplayWindow : Type 0 where
  pub last : ℕ
  pub bits : ℕ
  pub window : ℕ

unfoldable pub new : ReplayWindow
new = record { last = 0; bits = 0; window = 64 }

-- `bits <<= shift` on a `u64`
abbrev pub shift_left : ℕ → ℕ → ℕ
shift_left bits shift = bits * 2 ^ shift % 2 ^ 64

-- `id > last`: the window moves up to the new packet.
advance : ReplayWindow → ℕ → ReplayWindow
advance w id =
    let shift = id - w.last in
    let bits = if leb w.window shift then 0 else shift_left w.bits shift in
    record w { last = id; bits = bit_or bits 1 }

-- `id <= last`: the packet has a digit in the window, or is too old.
check_behind : ReplayWindow → ℕ → ReplayWindow × Bool
check_behind w id =
    let behind = w.last - id in
    let mask = 2 ^ behind % 2 ^ 64 in
    if leb w.window behind
    then (w, false)
    else if bit_and w.bits mask == 0
    then (record w { bits = bit_or w.bits mask }, true)
    else (w, false)

pub accept : ReplayWindow → ℕ → ReplayWindow × Bool
accept w id =
    if id == 0
    then (w, false)
    else if ltb w.last id
    then (advance w id, true)
    else check_behind w id

-- The answers to the packets of a session, in the order of their arrival.
pub answers : ReplayWindow → List ℕ → List Bool
answers w [] = []
answers w (id ∷ ids) = let (w', fresh) = accept w id in fresh ∷ answers w' ids

-- The packets that are let through.
pub delivered : ReplayWindow → List ℕ → List ℕ
delivered w [] = []
delivered w (id ∷ ids) =
    let (w', fresh) = accept w id in
    let rest = delivered w' ids in if fresh then id ∷ rest else rest
