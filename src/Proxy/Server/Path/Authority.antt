-- ===== src/Proxy/Server/Path/Authority.antt =====
-- The host and the port of an authority.
use unroxy.Base.{
  ℕ, ◌<◌, true, false, not, ◌||◌, some, ◌≡◌, refl, ap, ◌∙◌, arith, [], ◌∷◌, ◌++◌, any, Bool-cases,
  Option-cases, inl, inr,
}
use unroxy.Base.Text.{
  Text, codes, text_eq, contains_char, rsplit_once, trim_matches, parse_decimal, ends_with,
}
use unroxy.Base.Text.Cut.{rsplit_once-join, rsplit_once-none}
use unroxy.Base.Text.Trim.{
  ends_with-last, trim_matches-none, trim_matches-around, parse_decimal-le, parse_decimal-absent,
}
use unroxy.Proxy.Server.Path.{is_bracket, default_port, split_authority}

default_port-lt : (authority scheme : Text) → (default_port authority scheme).1 < 65536
unfolding default_port
default_port-lt authority scheme = ground arith

-- The port of an authority is below 65536.
pub split_authority-lt : (authority scheme : Text) → (split_authority authority scheme).1 < 65536
unfolding split_authority
split_authority-lt authority scheme = elim (Option-cases (rsplit_once b':' authority)) [
  | inl e ↦ ground (arith, e, default_port-lt authority scheme)
  | inr ((host, port), e) ↦ elim (Option-cases (parse_decimal 65535 port)) [
    | inl f ↦ ground (arith, e, f, default_port-lt authority scheme)
    | inr (n, f) ↦ elim (Bool-cases (not (contains_char b']' host) || ends_with (b']' ∷ []) host)) [
      | inl g ↦ ground (arith, e, f, g, parse_decimal-le 65535 port n f)
      | inr g ↦ ground (arith, e, f, g, default_port-lt authority scheme)
    ]
  ]
]

-- An authority whose port is read, and whose host is of the form the code asks for.
split_authority-port :
    (host port scheme : Text) (n : ℕ)
    → parse_decimal 65535 port ≡ some n
    → (not (contains_char b']' host) || ends_with (b']' ∷ []) host) ≡ true
    → split_authority (host ++ (b':' ∷ port)) scheme ≡ (trim_matches is_bracket host, n)
unfolding split_authority
split_authority-port host port scheme n e h = ground (
  arith,
  h,
  e,
  rsplit_once-join b':' host port (parse_decimal-absent b':' 65535 port n refl refl e),
)

no_bracket : (host : Text) → any is_bracket host ≡ false → not (contains_char b']' host) ≡ true
unfolding contains_char
no_bracket [] h = refl
no_bracket (c ∷ host) h = ground (arith, no_bracket host)

-- A host without brackets, as it is or between brackets, in front of a colon and a text that is
-- read as a port, is split off with that port, whatever the scheme.
pub split_authority-join :
    (host port scheme : Text) (n : ℕ)
    → any is_bracket host ≡ false
    → parse_decimal 65535 port ≡ some n
    → (split_authority (host ++ (b':' ∷ port)) scheme ≡ (host, n))
      × (split_authority ((b'[' ∷ (host ++ (b']' ∷ []))) ++ (b':' ∷ port)) scheme ≡ (host, n))
split_authority-join host port scheme n h e =
    let bracketed = b'[' ∷ (host ++ (b']' ∷ [])) in
    (
      split_authority-port host port scheme n e (rw (no_bracket host h) refl)
          ∙ ap (λ t. (t, n)) (trim_matches-none is_bracket host h),
      split_authority-port bracketed port scheme n e
            (ground (arith, ends_with-last b']' (b'[' ∷ host)))
          ∙ ap (λ t. (t, n)) (trim_matches-around is_bracket b'[' b']' host refl refl h),
    )

-- A host without a colon and without brackets goes with the port 443 of the scheme https.
pub split_authority-host :
    (host : Text)
    → any is_bracket host ≡ false
    → contains_char b':' host ≡ false
    → split_authority host (codes "https") ≡ (host, 443)
unfolding split_authority default_port text_eq
split_authority-host host plain no_port =
    rw (split_authority, rsplit_once-none b':' host no_port)
      (ap (λ t. (t, 443)) (trim_matches-none is_bracket host plain))
