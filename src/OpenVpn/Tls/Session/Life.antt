-- ===== src/OpenVpn/Tls/Session/Life.antt =====
-- The life of a TLS session: the handshake, the open stream, and the closed session after a failure.
use unroxy.Base.{
  ℕ, zero, suc, ◌≤◌, ◌<◌, true, false, Option, none, some, ◌≡◌, refl, sym, ◌∙◌, ap, arith, List, [],
  ◌∷◌, ◌++◌, length, drop, take, take-append-drop, append_assoc, is_some, ◌⊎◌, inl, inr,
}
use unroxy.Base.{Result, ok, err, slice_from, Option-cases, slice_from-drop}
use unroxy.Base.Text.{codes}
use unroxy.OpenVpn.Error.{Error, tls}
use unroxy.OpenVpn.Tls.Session.{
  Btls, TlsState, SslStream, Handshake, done, would_block, failure, is_ready, read_all, feed, drive,
  write_pending, write,
}

-- A read that gives bytes leaves fewer to read.
abbrev pub Shrinks : {S : Type 0} → Btls S → Type 0
Shrinks {S} btls =
    (s s' : SslStream S) (b : ℕ) (bs : List ℕ)
    → btls.ssl_read s ≡ (some (b ∷ bs), s')
    → btls.readable s' < btls.readable s

-- A write takes no more than it is given.
abbrev pub TakesGiven : {S : Type 0} → Btls S → Type 0
TakesGiven {S} btls =
    (s s' : SslStream S) (bytes : List ℕ) (n : ℕ)
    → btls.ssl_write s bytes ≡ (some n, s')
    → n ≤ length bytes

-- A session is in the handshake, open or closed; it is never in the handshake and open at once.
abbrev pub OneStream : {S : Type 0} → TlsState S → Type 0
OneStream t = (t.handshake ≡ none) ⊎ (t.stream ≡ none)

module _ {S : Type 0} (btls : Btls S) where
  read_step :
      (m n : ℕ) (s : SslStream S) (r : Option (List ℕ) × SslStream S)
      → btls.ssl_read s ≡ r
      → ((b : ℕ) (bs : List ℕ) → r.0 ≡ some (b ∷ bs) → read_all btls m r.1 ≡ read_all btls n r.1)
      → read_all btls (suc m) s ≡ read_all btls (suc n) s
  unfolding read_all
  read_step m n s (none, s') e again = ground (arith, e)
  read_step m n s (some [], s') e again = ground (arith, e)
  read_step m n s (some (b ∷ bs), s') e again = ground (arith, e, again b bs refl)

  -- The rounds that pump grants its loop are enough: when reading leaves fewer bytes to read, every
  -- number of rounds above the bytes that can be read gives the same bytes and the same connection.
  read_all-enough :
      Shrinks btls
      → (m n : ℕ) (s : SslStream S) → btls.readable s < n
      → n ≤ m
      → read_all btls m s ≡ read_all btls n s
  read_all-enough shrinks m zero s h le = absurd (omega arith)
  read_all-enough shrinks zero (suc n) s h le = absurd (omega arith)
  read_all-enough shrinks (suc m) (suc n) s h le =
      let (r, s') = btls.ssl_read s in
      read_step m n s (r, s') refl
        (λ b bs e.
          read_all-enough shrinks m n s'
            (let less = shrinks s s' b bs (ap (λ r. (r, s')) e) in omega (arith, less))
            (omega arith))

  closed_step :
      (t : TlsState S) (mid : SslStream S) (r : Handshake S) (x : Error)
      → t.handshake ≡ some mid
      → btls.handshake mid ≡ r
      → (drive btls t).0 ≡ err x
      → (drive btls t).1 ≡ record t { handshake = none }
  unfolding drive
  closed_step t mid (done s) x eh er ex = absurd (ground (arith, eh, er, ex))
  closed_step t mid (would_block s) x eh er ex = absurd (ground (arith, eh, er, ex))
  closed_step t mid (failure reason) x eh er ex = ground (arith, eh, er)

  no_handshake : (t : TlsState S) → t.handshake ≡ none → (drive btls t).0 ≡ ok tt
  unfolding drive
  no_handshake t e = ground (arith, e)

  feed_closed :
      (t : TlsState S) (bytes : List ℕ)
      → t.stream ≡ none
      → feed btls (record t { handshake = none }) bytes
        ≡ (err (tls (codes "tls closed")), record t { handshake = none })
  unfolding feed
  feed_closed t bytes e = ground (arith, e)

  -- When drive gives an error, on a session that is not in the handshake and open at once, the
  -- session is closed: it is not ready, and feed refuses whatever arrives later with the error that
  -- says so.
  pub drive-closes :
      (t : TlsState S) {x : Error} (bytes : List ℕ)
      → OneStream t
      → (drive btls t).0 ≡ err x
      → (is_ready (drive btls t).1 ≡ false)
        × ((feed btls (drive btls t).1 bytes).0 ≡ err (tls (codes "tls closed")))
  unfolding is_ready
  drive-closes t {x = x} bytes one e = elim (Option-cases (t.handshake)) [
    | inl h ↦ absurd (ground (arith, no_handshake t h, e))
    | inr (mid, h) ↦ elim one [
      | inl h' ↦ absurd (ground (arith, h, h'))
      | inr s ↦
          rw (closed_step t mid (btls.handshake mid) x h refl e)
            (ap is_some s, ap (λ r. r.0) (feed_closed t bytes s))
    ]
  ]

  -- The bytes that are left are the end of those that were to be written.
  pub Leaves : List ℕ → Result Error (List ℕ) → Type 0
  Leaves bytes out = (rest : List ℕ) × (front : List ℕ) × (out ≡ ok rest) × (bytes ≡ front ++ rest)

  write_step :
      (fuel b : ℕ) (bs : List ℕ) (s : SslStream S) (r : Option ℕ × SslStream S)
      → btls.ssl_write s (b ∷ bs) ≡ r
      → ((n : ℕ) → r.0 ≡ some n → n ≤ suc (length bs))
      → ((rest : List ℕ) → Leaves rest (write_pending btls fuel r.1 rest).0)
      → Leaves (b ∷ bs) (write_pending btls (suc fuel) s (b ∷ bs)).0
  unfolding write_pending Leaves
  write_step fuel b bs s (none, s') e takes again = (b ∷ bs, [], ground (arith, e), refl)
  write_step fuel b bs s (some zero, s') e takes again = (b ∷ bs, [], ground (arith, e), refl)
  write_step fuel b bs s (some (suc n), s') e takes again =
      let (rest, front, fine, split) = again (drop n bs) in
      let cut : slice_from {E = Error} (b ∷ bs) (suc n) ≡ ok (drop n bs) =
        slice_from-drop Error (b ∷ bs) (suc n) (takes (suc n) refl) in
      (
        rest,
        (b ∷ take n bs) ++ front,
        ground (arith, e, cut, fine),
        ap (λ xs. b ∷ xs)
            (sym (take-append-drop n bs)
              ∙ ap (λ xs. take n bs ++ xs) split
              ∙ sym (append_assoc (take n bs) front rest)),
      )

  write-Leaves :
      TakesGiven btls
      → (fuel : ℕ) (s : SslStream S) (bytes : List ℕ)
      → Leaves bytes (write_pending btls fuel s bytes).0
  unfolding write_pending Leaves
  write-Leaves takes zero s bytes = (bytes, [], refl, refl)
  write-Leaves takes (suc fuel) s [] = ([], [], refl, refl)
  write-Leaves takes (suc fuel) s (b ∷ bs) =
      let (r, s') = btls.ssl_write s (b ∷ bs) in
      write_step fuel b bs s (r, s') refl (λ n e. takes s s' (b ∷ bs) n (ap (λ r. (r, s')) e))
        (λ rest. unfold Leaves in write-Leaves takes fuel s' rest)

  -- On an open TLS session, write never fails or panics when the library takes no more than it is
  -- given, and what then waits is the end of what waited before and of the new bytes.
  pub write-pending :
      TakesGiven btls
      → (t : TlsState S) (bytes : List ℕ) → is_ready t ≡ true
      → ((write btls t bytes).0 ≡ ok tt)
        × ((front : List ℕ) × (t.pending ++ bytes ≡ front ++ (write btls t bytes).1.pending))
  unfolding is_ready write Leaves
  write-pending takes t bytes ready = elim (Option-cases (t.stream)) [
    | inl e ↦ absurd (ground (arith, ready, e))
    | inr (s, e) ↦
        let pending = t.pending ++ bytes in
        let (rest, front, fine, split) = write-Leaves takes (length pending) s pending in
        (ground (arith, e, fine), (front, ground (arith, e, fine, split)))
  ]
