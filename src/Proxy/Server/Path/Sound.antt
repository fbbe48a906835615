-- ===== src/Proxy/Server/Path/Sound.antt =====
-- What a path that is read as a target gives.
use unroxy.Base.{
  ℕ, Bool, true, false, not, Option, none, some, ◌≡◌, refl, ap, arith, [], ◌∷◌, ◌==◌, Option-cases,
  inl, inr, ◌⊎◌, if◌then◌else◌,
}
use mathlib.Core.Path.{subst}
use unroxy.Base.Text.{Text, is_empty, codes, split_once, rsplit_once, contains_char, trim_start}
use unroxy.Base.Text.Cut.{
  split_once-absent, split_once-front, rsplit_once-absent, rsplit_once-back, rsplit_once-keeps,
}
use unroxy.Proxy.Server.Path.Names.{RegionIsNamed, take_heads-named}
use unroxy.Proxy.Server.{Target, Route, Uri}
use unroxy.Proxy.Server.Path.{
  or_empty, is_valid_domain, take_heads, take_scheme, split_path, drop_user, parse_target,
  with_route, parse_path,
}

-- One of the two schemes that are served.
abbrev pub IsScheme : Text → Type 0
IsScheme s = (s ≡ codes "https") ⊎ (s ≡ codes "http")

-- A target that may be asked for: a host that is a domain or an address, and a path from `/` on.
abbrev pub IsTarget : Option Text → Target → Type 0
IsTarget query target =
    IsScheme target.scheme
    × (is_valid_domain target.host ≡ true)
    × (contains_char b'/' target.host ≡ false)
    × (contains_char b'@' target.host ≡ false)
    × ((tail : Text) × (target.path ≡ b'/' ∷ tail))
    × (target.query ≡ or_empty query)

take_scheme-IsScheme : (s : Text) → IsScheme (take_scheme s).0
unfolding take_scheme
take_scheme-IsScheme s = ground arith

split_path-slash : (s : Text) → contains_char b'/' (split_path s).0 ≡ false
unfolding split_path
split_path-slash s = elim (Option-cases (split_once b'/' s)) [
  | inl e ↦ ground (arith, e, split_once-absent b'/' s e)
  | inr ((a, b), e) ↦ ground (arith, e, split_once-front b'/' s a b e)
]

split_path-tail : (s : Text) → (tail : Text) × ((split_path s).1 ≡ b'/' ∷ tail)
unfolding split_path
split_path-tail s = elim (Option-cases (split_once b'/' s)) [
  | inl e ↦ ([], ground (arith, e))
  | inr ((a, b), e) ↦ (b, ground (arith, e))
]

drop_user-at : (s : Text) → contains_char b'@' (drop_user s) ≡ false
unfolding drop_user
drop_user-at s = elim (Option-cases (rsplit_once b'@' s)) [
  | inl e ↦ ground (arith, e, rsplit_once-absent b'@' s e)
  | inr ((a, b), e) ↦ ground (arith, e, rsplit_once-back b'@' s a b e)
]

drop_user-keeps :
    (d : ℕ) (s : Text) → contains_char d s ≡ false → contains_char d (drop_user s) ≡ false
unfolding drop_user
drop_user-keeps d s h = elim (Option-cases (rsplit_once b'@' s)) [
  | inl e ↦ ground (arith, e, h)
  | inr ((a, b), e) ↦ ground (arith, e, rsplit_once-keeps b'@' d s a b e h)
]

behind_scheme : Text → Text
behind_scheme lead = trim_start (λ c. c == b'/') (take_scheme lead).1

-- The target that is read behind the names, unless its host is refused.
target_at : Option Text → Text → Target
target_at query lead = record {
  scheme = (take_scheme lead).0;
  host = drop_user (split_path (behind_scheme lead)).0;
  path = (split_path (behind_scheme lead)).1;
  query = or_empty query;
}

target_at-IsTarget :
    (query : Option Text) (lead : Text)
    → is_valid_domain (target_at query lead).host ≡ true
    → IsTarget query (target_at query lead)
unfolding target_at
target_at-IsTarget query lead v =
    let rest = behind_scheme lead in
    (
      take_scheme-IsScheme lead,
      v,
      drop_user-keeps b'/' (split_path rest).0 (split_path-slash rest),
      drop_user-at (split_path rest).0,
      split_path-tail rest,
      refl,
    )

-- What passes two tests gives the value and the second test.
passes_both :
    (b c : Bool) (x y : Target)
    → (if b then none else if not c then none else some x) ≡ some y
    → (c ≡ true) × (x ≡ y)
passes_both true c x y h = ground arith
passes_both false true x y h = (refl, ground arith)
passes_both false false x y h = ground arith

parse_target-only :
    (query : Option Text) (lead : Text) (target : Target)
    → parse_target query lead ≡ some target
    → (is_valid_domain (target_at query lead).host ≡ true) × (target_at query lead ≡ target)
unfolding parse_target target_at behind_scheme
parse_target-only query lead target h =
    passes_both (is_empty (behind_scheme lead)) (is_valid_domain (target_at query lead).host)
      (target_at query lead) target h

parse_target-IsTarget :
    (query : Option Text) (lead : Text) (target : Target)
    → parse_target query lead ≡ some target
    → IsTarget query target
parse_target-IsTarget query lead target h =
    let (v, e) = parse_target-only query lead target h in
    subst (IsTarget query) e (target_at-IsTarget query lead v)

-- What is read behind the names gives the target, and the names the route.
joins_route :
    (b : Bool) (o : Option Target) (made route : Route) (target : Target)
    → (if b then none else with_route made o) ≡ some (route, target)
    → (o ≡ some target) × (made ≡ route)
joins_route true o made route target h = ground arith
joins_route false none made route target h = ground arith
joins_route false (some t) made route target h = (ground arith, ground arith)

no_name : RegionIsNamed none
no_name name e = ground arith

-- When the path of a request is read as a route and a target, the scheme is http or https, the host
-- is one that `is_valid_domain` accepts and has no `/` or `@`, the path starts with `/`, the query
-- is that of the request, and the route's region, if any, is not empty, in upper case and without a
-- dot or a colon.
pub parse_path-IsTarget :
    (uri : Uri) (route : Route) (target : Target)
    → parse_path uri ≡ some (route, target)
    → IsTarget uri.query target × RegionIsNamed route.region
unfolding parse_path
parse_path-IsTarget uri route target h =
    let rest = trim_start (λ c. c == b'/') uri.path in
    let heads = take_heads 2 none none rest in
    let (e, f) =
      joins_route (is_empty rest) (parse_target uri.query heads.2)
        (record { region = heads.1; protocol = heads.0 }) route target h in
    (
      parse_target-IsTarget uri.query heads.2 target e,
      subst RegionIsNamed (ap (λ (r : Route). r.region) f)
          (take_heads-named 2 none none rest no_name),
    )
