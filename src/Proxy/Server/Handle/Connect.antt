-- ===== src/Proxy/Server/Handle/Connect.antt =====
-- What a CONNECT request leads to.
use unroxy.Base.{
  ℕ, false, Option, none, some, ◌⊎◌, inl, inr, ◌≡◌, if◌then◌else◌, [], ◌∷◌, ◌++◌, any,
}
use unroxy.Base.Text.{Text, codes, parse_decimal, contains_char}
use unroxy.Proxy.Pool.{Candidate}
use unroxy.Proxy.Exit.{is_empty_exit}
use unroxy.Proxy.Server.Path.{is_bracket}
use unroxy.Proxy.Server.Regions.{Region, Proxy, region_named}
use unroxy.Proxy.Server.Headers.{text_of}
use unroxy.Proxy.Server.Handle.{Outside, Request, State, Answer, username_of}

-- An authority that names a host and a port: a host without brackets, as it is or between brackets, and
-- behind a colon a text that is read as the port; or a host alone, for the port 443.
abbrev pub Names : Text → Text → ℕ → Type 0
Names authority host port =
    (any is_bracket host ≡ false)
    × (((digits : Text) × (parse_decimal 65535 digits ≡ some port)
          × ((authority ≡ host ++ (b':' ∷ digits))
              ⊎ (authority ≡ (b'[' ∷ (host ++ (b']' ∷ []))) ++ (b':' ∷ digits))))
        ⊎ ((contains_char b':' host ≡ false) × (authority ≡ host) × (port ≡ 443)))

module _ (outside : Outside) where
  -- What a CONNECT request asks for: the authority of its address, or else its host header.
  abbrev pub Asks : Request outside → Text → Type 0
  Asks request authority =
      (request.uri.authority ≡ some authority)
      ⊎ ((request.uri.authority ≡ none)
          × (text_of outside.http (outside.http.get (codes "host") request.headers)
              ≡ some authority))

  abbrev region_or_default_pool : Proxy → Option Region → ℕ
  region_or_default_pool proxy none = proxy.default_pool
  region_or_default_pool proxy (some region) = region.merged

  -- The pool of the region that the user names, or without one the default pool.
  abbrev pub user_pool : Proxy → Request outside → ℕ
  user_pool proxy request =
      region_or_default_pool proxy (region_named (username_of outside request) proxy.regions)

  -- A refusal, which leaves the state as it was.
  abbrev pub IsRefused : State outside → Answer outside → Type 0
  IsRefused before after =
      (after.response.status ≡ 502) × (after.joined ≡ none) × (after.state ≡ before)

  -- The exits with that of a candidate for a host, unless it has no address.
  abbrev pub recorded : Candidate → Text → outside.cache.Lru → outside.cache.Lru
  recorded c host exits =
      let exit = outside.exit_for c host in
      if is_empty_exit exit
      then exits
      else outside.cache.put (outside.cache.to_lowercase host) exit exits

  -- What comes of the candidate, if any, and of the dial of a host and a port.
  abbrev pub IsDialled :
      State outside → Text → ℕ → Candidate → Answer outside → Text ⊎ outside.Stream → Type 0
  IsDialled before host port c after (inl reason) = IsRefused before after
  IsDialled before host port c after (inr stream) =
      (after.response.status ≡ 200)
      × (after.joined ≡ some (stream, host, port))
      × (after.state ≡ record { heap = before.heap; exits = recorded c host before.exits })

  abbrev pub IsConnect : State outside → Text → ℕ → Option Candidate → Answer outside → Type 0
  IsConnect before host port none after = IsRefused before after
  IsConnect before host port (some c) after =
      IsDialled before host port c after (outside.dial c host port)
