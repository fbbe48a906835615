-- ===== src/Ssh/Ossh/Write/Sends.antt =====
-- Nothing is lost, doubled or put out of order of what the client writes.
use mathlib.Core.Path.{ap₂, subst}
use Prim.Native.Nat.{bit_xor}
use unroxy.Base.{
  ℕ, zero, suc, ◌+◌, true, false, Option, none, some, List, [], ◌∷◌, ◌++◌, length, take, get_or,
  append-nil, append_assoc, take-append-drop, ltb, ◌==◌, ◌≡◌, refl, sym, ap, ◌∙◌, arith, Bool-cases,
  Option-cases, inl, inr, ◌⊎◌,
}
use unroxy.Base.{Result, ok, panic, bind-ok, ◌>>=◌}
use unroxy.Base.Bytes.{from_be}
use unroxy.OpenVpn.Error.{Error}
use unroxy.Ssh.Ossh.{Rc4, next_byte, apply, find_crlf}
use unroxy.Ssh.Ossh.Write.{
  WriteState, ident, kex, done, Writer, msg_newkeys, send_sealed, packet_size, send_packets,
  send_ident_at, send_ident, send_kex, send_rest, process_write,
}

-- Two buffers one after the other are enciphered as one.
apply-append :
    (r : Rc4) (a b : List ℕ)
    → ((apply r (a ++ b)).0 ≡ (apply r a).0 ++ (apply (apply r a).1 b).0)
      × ((apply r (a ++ b)).1 ≡ (apply (apply r a).1 b).1)
unfolding apply
apply-append r [] b = (refl, refl)
apply-append r (x ∷ a) b =
    let rest = apply-append (next_byte r).1 a b in
    (ap (λ bytes. bit_xor x (next_byte r).0 ∷ bytes) rest.0, rest.1)

-- The writer after a part of its buffer was sent enciphered.
abbrev Seals : Writer → Writer → Type 0
Seals w u =
    (sealed : List ℕ) × (w.wbuf ≡ sealed ++ u.wbuf)
    × (u.wout ≡ w.wout ++ (apply w.c2s sealed).0)
    × (u.c2s ≡ (apply w.c2s sealed).1)

Seals-refl : (w : Writer) → Seals w w
unfolding apply
Seals-refl w = ([], refl, sym (append-nil w.wout), refl)

Seals-trans : (w u v : Writer) → Seals w u → Seals u v → Seals w v
Seals-trans w u v (a, wbuf, wout, c2s) (b, wbuf', wout', c2s') =
    let both = apply-append w.c2s a b in
    (
      a ++ b,
      wbuf ∙ ap (λ rest. a ++ rest) wbuf' ∙ sym (append_assoc a b v.wbuf),
      wout'
          ∙ ap₂ (λ sent c. sent ++ (apply c b).0) wout c2s
          ∙ append_assoc w.wout (apply w.c2s a).0 (apply (apply w.c2s a).1 b).0
          ∙ ap (λ more. w.wout ++ more) (sym both.0),
      c2s' ∙ ap (λ c. (apply c b).1) c2s ∙ sym both.1,
    )

send_sealed-Seals :
    (count : ℕ) (wstate : WriteState) (w : Writer) → Seals w (send_sealed count wstate w)
unfolding send_sealed
send_sealed-Seals count wstate w =
    (take count w.wbuf, sym (take-append-drop count w.wbuf), refl, refl)

same_writer : (w u : Writer) → ◌≡◌ {A = Result Error Writer} (ok w) (ok u) → w ≡ u
same_writer w u h = ground arith

-- A writer that is given as it is.
Seals-ok : (w v u : Writer) → Seals w v → ◌≡◌ {A = Result Error Writer} (ok v) (ok u) → Seals w u
Seals-ok w v u s h = subst (Seals w) (same_writer v u h) s

-- One round of the loop by what is at the front of the buffer.
round_none :
    (rounds : ℕ) (w : Writer) → packet_size w.wbuf ≡ none → send_packets (suc rounds) w ≡ ok w
unfolding send_packets
round_none rounds w e = ground (arith, e)

round_short :
    (rounds : ℕ) (w : Writer) (total : ℕ)
    → packet_size w.wbuf ≡ some total
    → ltb total 6 ≡ true
    → send_packets (suc rounds) w ≡ panic
unfolding send_packets
round_short rounds w total e f = ground (arith, e, f)

round_last :
    (rounds : ℕ) (w : Writer) (total : ℕ)
    → packet_size w.wbuf ≡ some total
    → ltb total 6 ≡ false
    → (get_or w.wbuf 5 0 == msg_newkeys) ≡ true
    → send_packets (suc rounds) w ≡ ok (send_sealed total done w)
unfolding send_packets
round_last rounds w total e f g = ground (arith, e, f, g)

round_more :
    (rounds : ℕ) (w : Writer) (total : ℕ)
    → packet_size w.wbuf ≡ some total
    → ltb total 6 ≡ false
    → (get_or w.wbuf 5 0 == msg_newkeys) ≡ false
    → send_packets (suc rounds) w ≡ send_packets rounds (send_sealed total kex w)
unfolding send_packets
round_more rounds w total e f g = ground (arith, e, f, g)

panic_never : (u : Writer) → ◌≡◌ {A = Result Error Writer} panic (ok u) → ⊥
panic_never u h = ground arith

send_packets-Seals : (rounds : ℕ) (w u : Writer) → send_packets rounds w ≡ ok u → Seals w u
unfolding send_packets
send_packets-Seals zero w u h = Seals-ok w w u (Seals-refl w) h
send_packets-Seals (suc rounds) w u h = elim (Option-cases (packet_size w.wbuf)) [
  | inl e ↦ Seals-ok w w u (Seals-refl w) (sym (round_none rounds w e) ∙ h)
  | inr (total, e) ↦ elim (Bool-cases (ltb total 6)) [
    | inl f ↦ absurd (panic_never u (sym (round_short rounds w total e f) ∙ h))
    | inr f ↦ elim (Bool-cases (get_or w.wbuf 5 0 == msg_newkeys)) [
      | inl g ↦
          Seals-ok w (send_sealed total done w) u (send_sealed-Seals total done w)
            (sym (round_last rounds w total e f g) ∙ h)
      | inr g ↦ Seals-trans w (send_sealed total kex w) u (send_sealed-Seals total kex w) (
          send_packets-Seals rounds (send_sealed total kex w) u
            (sym (round_more rounds w total e f g) ∙ h))
    ]
  ]
]

send_ident_at-Seals :
    (wstate : WriteState) (found : Option ℕ) (w : Writer) → Seals w (send_ident_at wstate found w)
unfolding send_ident_at
send_ident_at-Seals ident (some index) w = send_sealed-Seals (index + 2) kex w
send_ident_at-Seals ident none w = Seals-refl w
send_ident_at-Seals kex found w = Seals-refl w
send_ident_at-Seals done found w = Seals-refl w

send_kex-Seals : (wstate : WriteState) (w u : Writer) → send_kex wstate w ≡ ok u → Seals w u
unfolding send_kex
send_kex-Seals ident w u h = Seals-ok w w u (Seals-refl w) h
send_kex-Seals kex w u h = send_packets-Seals (length w.wbuf) w u h
send_kex-Seals done w u h = Seals-ok w w u (Seals-refl w) h

-- What the writer sent is what left its buffer: first a part enciphered, then, only once the new keys
-- are in use, a part as it is.
abbrev pub Sends : Writer → Writer → Type 0
Sends w u =
    (sealed plain : List ℕ) × (w.wbuf ≡ sealed ++ (plain ++ u.wbuf))
    × (u.wout ≡ w.wout ++ ((apply w.c2s sealed).0 ++ plain))
    × (u.c2s ≡ (apply w.c2s sealed).1)
    × ((plain ≡ []) ⊎ (u.wstate ≡ done))

Seals-Sends : (w u : Writer) → Seals w u → Sends w u
Seals-Sends w u (sealed, wbuf, wout, c2s) = (
  sealed,
  [],
  wbuf,
  wout ∙ ap (λ sent. w.wout ++ sent) (sym (append-nil (apply w.c2s sealed).0)),
  c2s,
  inl refl,
)

send_rest-Sends :
    (wstate : WriteState) (w u : Writer)
    → Seals w u
    → u.wstate ≡ wstate
    → Sends w (send_rest wstate u)
unfolding send_rest
send_rest-Sends ident w u s e = Seals-Sends w u s
send_rest-Sends kex w u s e = Seals-Sends w u s
send_rest-Sends done w u (sealed, wbuf, wout, c2s) e = (
  sealed,
  u.wbuf,
  wbuf ∙ ap (λ rest. sealed ++ rest) (sym (append-nil u.wbuf)),
  ap (λ sent. sent ++ u.wbuf) wout ∙ append_assoc w.wout (apply w.c2s sealed).0 u.wbuf,
  c2s,
  inr e,
)

-- When process_write does not panic, what it adds to the bytes that are to be sent is what left the
-- front of its buffer, in order: a part enciphered with the key stream from where it stood, which
-- moves on by just that part, and a part as it is, which is empty until the new keys are in use.
pub process_write-Sends : (w u : Writer) → process_write w ≡ ok u → Sends w u
unfolding process_write send_ident
process_write-Sends w u h =
    let named = send_ident w in
    let (v, sent, rest) =
      bind-ok (send_kex named.wstate named) (λ v. ok (send_rest v.wstate v)) u h in
    subst (Sends w) (same_writer (send_rest v.wstate v) u rest) (
      send_rest-Sends v.wstate w v
        (Seals-trans w named v (send_ident_at-Seals w.wstate (find_crlf w.wbuf) w)
          (send_kex-Seals named.wstate named v sent))
        refl)

short_packet : (b : ℕ) (more : List ℕ) → packet_size (0 ∷ (0 ∷ (0 ∷ (1 ∷ (b ∷ more))))) ≡ some 5
unfolding packet_size from_be
short_packet b more = ground arith

-- A packet of one byte at the front of the buffer makes process_write panic between the line of the
-- client and the new keys.
pub process_write-short :
    (w : Writer) (b : ℕ) (more : List ℕ)
    → w.wstate ≡ kex
    → w.wbuf ≡ 0 ∷ (0 ∷ (0 ∷ (1 ∷ (b ∷ more))))
    → process_write w ≡ panic
unfolding process_write send_ident send_ident_at send_kex
process_write-short w b more s e =
    let same : send_ident w ≡ w = ap (λ wstate. send_ident_at wstate (find_crlf w.wbuf) w) s in
    let stops : send_packets (length w.wbuf) w ≡ panic =
      ap (λ wbuf. send_packets (length wbuf) w) e
      ∙ round_short (suc (suc (suc (suc (length more))))) w 5
          (ap packet_size e ∙ short_packet b more) refl in
    ap (λ named. send_kex named.wstate named >>= (λ v. ok (send_rest v.wstate v))) same
    ∙ ap (λ wstate. send_kex wstate w >>= (λ v. ok (send_rest v.wstate v))) s
    ∙ ap (λ r. r >>= (λ v. ok (send_rest v.wstate v))) stops
