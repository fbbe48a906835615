-- ===== src/Proxy/Server/Handle/Routed.antt =====
-- The answer to a request whose path names its route.
use unroxy.Base.{
  ℕ, Bool, true, false, Option, none, some, ◌∷◌, is_some, if◌then◌else◌, ◌≡◌, refl, ap, ◌∙◌, arith,
}
use unroxy.Base.Text.{Text, contains_char, to_ascii_uppercase}
use unroxy.Proxy.Pool.{Protocol}
use unroxy.Proxy.Server.{Target, Route, region_or_default}
use unroxy.Proxy.Server.Path.{or_empty, is_valid_domain}
use unroxy.Proxy.Server.Path.Names.{IsHead}
use unroxy.Proxy.Server.Path.Sound.{IsScheme}
use unroxy.Proxy.Server.Path.RoundTrip.{path_text, parse_path-path_text}
use unroxy.Proxy.Server.Regions.{Region, Proxy, region_named, region_forward}
use unroxy.Proxy.Server.Regions.Routes.{forward_for}
use unroxy.Proxy.Server.Handle.{
  Outside, Request, State, Forwards, handle_connect, absolute, rewrite_to, rewrite, answered,
  handle,
}

module _ (outside : Outside) where
  module _ (forwards : Forwards outside) where
    forward_for-region :
        (username : Text) (protocol : Option Protocol) (proxy : Proxy) (region : Region) (f : ℕ)
        → region_named username proxy.regions ≡ some region
        → region_forward protocol region ≡ some f
        → forward_for username protocol proxy ≡ some f
    unfolding forward_for
    forward_for-region username protocol proxy region f e g = ground (arith, e, g)

    rewrite_to-forwarded :
        (proxy : Proxy) (request : Request outside) (state : State outside) (route : Route)
        → (target : Target) (f : ℕ)
        → forward_for (region_or_default route) route.protocol proxy ≡ some f
        → rewrite_to outside forwards proxy request state (some (route, target))
          ≡ forwards f request target state
    unfolding rewrite_to
    rewrite_to-forwarded proxy request state route target f e = rw (e) refl

    third :
        {A : Type 0} (b : Bool) (o : Option Text) (x y z : A)
        → b ≡ false
        → o ≡ none
        → (if b then x else if is_some o then y else z) ≡ z
    third false none x y z h e = refl
    third true o x y z h e = ground arith
    third false (some s) x y z h e = ground arith

    handle-rewrite :
        (proxy : Proxy) (request : Request outside) (state : State outside)
        → request.is_connect ≡ false
        → request.uri.host ≡ none
        → handle outside forwards proxy request state
          ≡ answered outside forwards (rewrite outside forwards proxy request state)
    unfolding handle
    handle-rewrite proxy request state c h =
        third request.is_connect request.uri.host
          (some (handle_connect outside proxy request state))
          (answered outside forwards (absolute outside forwards proxy request state))
          (answered outside forwards (rewrite outside forwards proxy request state)) c h

    -- A request that is no CONNECT, has no host in its URI, and whose path names a protocol, a
    -- region, a scheme, a host and what is behind it, in the form of `path_text`, is answered with
    -- what the region's forward for that protocol does with that target, if the proxy has such a
    -- region and it such a forward: its response, or the response to its error.
    pub handle-path_text :
        (proxy : Proxy) (request : Request outside) (state : State outside) (p : Protocol)
        → (name scheme host tail : Text) (region : Region) (f : ℕ) → request.is_connect ≡ false
        → request.uri.host ≡ none
        → request.uri.path ≡ path_text p name scheme host tail
        → IsHead name
        → contains_char b'/' name ≡ false
        → IsScheme scheme
        → is_valid_domain host ≡ true
        → contains_char b'/' host ≡ false
        → contains_char b'@' host ≡ false
        → region_named (to_ascii_uppercase name) proxy.regions ≡ some region
        → region_forward (some p) region ≡ some f
        → handle outside forwards proxy request state
          ≡ answered outside forwards (
              forwards f request
                (record {
                  scheme = scheme;
                  host = host;
                  path = b'/' ∷ tail;
                  query = or_empty request.uri.query;
                })
                state)
    unfolding rewrite region_or_default
    handle-path_text proxy request state p name scheme host tail region f c h e i s k v hs at r g =
        let route : Route = record { region = some (to_ascii_uppercase name); protocol = some p } in
        let target : Target = record {
          scheme = scheme;
          host = host;
          path = b'/' ∷ tail;
          query = or_empty request.uri.query;
        } in
        handle-rewrite proxy request state c h
        ∙ ap
            (λ found.
              answered outside forwards (rewrite_to outside forwards proxy request state found))
            (parse_path-path_text request.uri p name scheme host tail e i s k v hs at)
        ∙ ap (answered outside forwards) (
            rewrite_to-forwarded proxy request state route target f
              (forward_for-region (to_ascii_uppercase name) (some p) proxy region f r g))
