-- ===== src/OpenVpn/Control/Handshake/Progress.antt =====
-- The loops of the handshake come to an end, and `connect` tries the servers in their order.
use unroxy.Base.{
  ℕ, zero, suc, ◌≤◌, ◌<◌, Bool, Option, none, some, ◌≡◌, refl, ap, arith, List, [], ◌∷◌, ◌++◌,
  length, ◌==◌, if◌then◌else◌, All,
}
use unroxy.Base.{Result, ok, err, panic, Bool-cases, Result-cases, inl, inr}
use mathlib.Core.Path.{subst}
use unroxy.OpenVpn.Config.{Server}
use unroxy.OpenVpn.Error.{Error}
use unroxy.OpenVpn.Packet.{Packet, parse, p_control_v1}
use unroxy.OpenVpn.Tls.{TlsOps}
use unroxy.OpenVpn.Control.{Control, Step, ◌>>=◌, ◌>>◌, on_tls, flush_tls}
use unroxy.OpenVpn.Control.Receive.{
  Event, received, arrived, silent, broken, pump, on_parsed, on_control, resend_if,
}
use unroxy.OpenVpn.Control.Handshake.{drive_loop, connect}

-- A server that answers behind others that fail is the one that connect gives, whatever the servers
-- after it do.
pub connect-first :
    {A : Type 0} (attempt : Server → Result Error A) (failed : Option Error)
    (before after : List Server) (server : Server) (session : A)
    → All (λ s. (e : Error) × (attempt s ≡ err e)) before
    → attempt server ≡ ok session
    → connect attempt failed (before ++ (server ∷ after)) ≡ ok session
unfolding connect
connect-first attempt none [] after server session h e = rw e refl
connect-first attempt (some x) [] after server session h e = rw e refl
connect-first attempt none (s ∷ before) after server session ((x, f), h) e =
    rw f (connect-first attempt (some x) before after server session h e)
connect-first attempt (some y) (s ∷ before) after server session ((x, f), h) e =
    rw f (connect-first attempt (some x) before after server session h e)

-- A chain of calls that ends well went well in its first one.
chain-ok :
    {T A B : Type 0} (m : Step T A) (f : A → Step T B) (c : Control T) {b : B}
    → ((m >>= f) c).0 ≡ ok b
    → (a : A) × ((m c).0 ≡ ok a) × ((f a (m c).1).0 ≡ ok b)
chain-ok m f c h = elim (Result-cases ((m c).0)) [
  | inl (a, e) ↦ (a, e, ground (arith, h, e))
  | inr (inl (x, e)) ↦ absurd (ground (arith, h, e))
  | inr (inr e) ↦ absurd (ground (arith, h, e))
]

-- Two continuations that agree where they are reached.
chain-same :
    {T A B : Type 0} (m : Step T A) (f g : A → Step T B) (c : Control T)
    → ((a : A) → (m c).0 ≡ ok a → f a (m c).1 ≡ g a (m c).1)
    → (m >>= f) c ≡ (m >>= g) c
chain-same m f g c h = elim (Result-cases ((m c).0)) [
  | inl (a, e) ↦ ground (arith, e, h a e)
  | inr (inl (x, e)) ↦ ground (arith, e)
  | inr (inr e) ↦ ground (arith, e)
]

module _ {T : Type 0} (ops : TlsOps T) where
  -- A call that gives fewer than `n` events when it does not fail.
  Below : Step T (List Event) → ℕ → Type 0
  Below m n = (c : Control T) (left : List Event) → (m c).0 ≡ ok left → length left < n

  resend-Below :
      (due : Bool) (m : Step T (List Event)) (n : ℕ)
      → Below m n
      → Below (resend_if ops due >>= λ _. m) n
  unfolding Below
  resend-Below due m n again c left h =
      let (_, _, h') = chain-ok (resend_if ops due) (λ _. m) c h in
      again (resend_if ops due c).1 left h'

  packet-Below :
      (wait skip : Step T (List Event)) (events : List Event) (r : Result Error (Option Packet))
      → Below wait (suc (length events))
      → Below skip (suc (length events))
      → Below (on_parsed ops wait skip events r) (suc (length events))
  unfolding Below on_parsed
  packet-Below wait skip events (err e) hw hs c left h = absurd (ground (arith, h))
  packet-Below wait skip events panic hw hs c left h = absurd (ground (arith, h))
  packet-Below wait skip events (ok none) hw hs c left h = hw c left h
  packet-Below wait skip events (ok (some packet)) hw hs c left h =
      elim (Bool-cases (packet.opcode == p_control_v1)) [
        | inl e ↦
            let (_, _, h') =
              chain-ok (on_control ops packet) (λ _. λ c'. (ok events, c')) c {b = left}
                (subst
                  (λ t.
                    ((if t
                      then (on_control ops packet >>= λ _. λ c'. (ok events, c')) c
                      else skip c)).0
                    ≡ ok left)
                  e h) in
            ground (arith, h')
        | inr e ↦ hs c left (
            subst
              (λ t.
                ((if t then (on_control ops packet >>= λ _. λ c'. (ok events, c')) c else skip c)).0
                ≡ ok left)
              e h)
      ]

  weaken : (m : Step T (List Event)) (n : ℕ) → Below m n → Below m (suc n)
  unfolding Below
  weaken m n b c left h = omega (arith, b c left h)

  -- `pump` takes an event at least, when it does not fail.
  pump-Below : (events : List Event) → Below (pump ops events) (length events)
  unfolding pump Below
  pump-Below [] c left h = absurd (ground (arith, h))
  pump-Below (broken e ∷ events) c left h = absurd (ground (arith, h))
  pump-Below (silent due ∷ events) c left h =
      let more = weaken (pump ops events) (length events) (pump-Below events) in
      resend-Below due (pump ops events) (suc (length events)) more c left h
  pump-Below (arrived raw due ∷ events) c left h =
      let more = weaken (pump ops events) (length events) (pump-Below events) in
      packet-Below (resend_if ops due >>= λ _. pump ops events) (pump ops events) events
        (parse (received c.transport.protocol raw))
        (resend-Below due (pump ops events) (suc (length events)) more) more c left h

  -- The end of a round: the test and the wait for the next event.
  abbrev end_round : ℕ → List Event → Step T (List Event)
  end_round n events c =
      if ops.is_ready c.tls then (ok events, c) else (pump ops events >>= drive_loop ops n) c

  round :
      (m n : ℕ) (events : List Event) (c : Control T)
      → ((left : List Event) (c' : Control T)
          → length left < length events
          → drive_loop ops m left c' ≡ drive_loop ops n left c')
      → drive_loop ops (suc m) events c ≡ drive_loop ops (suc n) events c
  unfolding drive_loop
  round m n events c again =
      chain-same (on_tls ops.drive) (λ _. flush_tls ops >> end_round m events)
        (λ _. flush_tls ops >> end_round n events) c
        (λ _ _.
          chain-same (flush_tls ops) (λ _. end_round m events) (λ _. end_round n events)
            (on_tls ops.drive c).1
            (λ _ _.
              let c' = (flush_tls ops (on_tls ops.drive c).1).1 in
              ap (λ out. if ops.is_ready c'.tls then (ok events, c') else out)
                (chain-same (pump ops events) (drive_loop ops m) (drive_loop ops n) c' (λ left e.
                  again left (pump ops events c').1
                    (unfold Below in pump-Below events c' left e)))))

  -- The rounds that drive_tls grants its loop are enough: every number of rounds above the number
  -- of events gives the same outcome.
  drive_loop-enough :
      (m n : ℕ) (events : List Event) (c : Control T)
      → length events < n
      → n ≤ m
      → drive_loop ops m events c ≡ drive_loop ops n events c
  drive_loop-enough m zero events c h le = absurd (omega arith)
  drive_loop-enough zero (suc n) events c h le = absurd (omega arith)
  drive_loop-enough (suc m) (suc n) events c h le =
      round m n events c (λ left c' l. drive_loop-enough m n left c' (omega arith) (omega arith))
