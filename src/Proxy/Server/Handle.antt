-- ===== src/Proxy/Server/Handle.antt =====
-- src/proxy/server.rs: the answer to a request. What other packages do is an argument: the parsed
-- request, the pick of a pool, the dial of a tunnel and its exit, and the forwards. The bytes that are
-- copied once a tunnel is joined are not modelled.
pub mod Connect
pub mod Routed
pub mod Refusal
use unroxy.Base.{
  ℕ, Bool, true, false, not, ◌&&◌, ◌||◌, Option, none, some, List, [], ◌∷◌, ◌⊎◌, inl, inr, is_some,
  if◌then◌else◌,
}
use unroxy.Base.{Result, ok, err, panic, ◌>>=◌}
use unroxy.Base.Text.{Text, codes, text_eq}
use unroxy.Proxy.Pool.{Protocol, Candidate}
use unroxy.Proxy.Exit.{Exit, Cache, record_exit}
use unroxy.Proxy.Server.{
  Error, unknown_region, unsupported_scheme, missing_target, forward_unavailable, upstream,
  Response, error_response, Target, Route, region_or_default, Uri,
}
use unroxy.Proxy.Server.Path.{or_empty, parse_path, split_authority}
use unroxy.Proxy.Server.Headers.{HeaderMap, text_of, auth_username}
use unroxy.Proxy.Server.Index.{index_page}
use unroxy.Proxy.Server.Regions.{Heap, Proxy}
use unroxy.Proxy.Server.Regions.Routes.{forward_for, pool_for}

-- What the handlers call of other packages and of what is behind a trait.
pub record Outside : Type 1 where
  pub http : HeaderMap
  pub cache : Cache
  pub decode : Text → Option (List ℕ)
  pub lossy : List ℕ → Text
  -- The candidate that a pool gives for a host.
  pub pick : ℕ → Heap → Text → Option Candidate
  pub Stream : Type 0
  pub dial : Candidate → Text → ℕ → Text ⊎ Stream
  pub exit_for : Candidate → Text → Exit

pub record Request (outside : Outside) : Type 0 where
  pub is_connect : Bool
  pub uri : Uri
  pub headers : outside.http.Headers

-- The exits are the proxy's too, beside its routes.
pub record State (outside : Outside) : Type 0 where
  pub heap : Heap
  pub exits : outside.cache.Lru

-- A forward sends the request to the target and may record exits.
abbrev pub Forwards : Outside → Type 0
Forwards outside =
    ℕ → Request outside → Target → State outside → Result Error Response × State outside

-- The response, with the stream that the client is joined to and its target, if any.
pub record Answer (outside : Outside) : Type 0 where
  pub response : Response
  pub joined : Option (outside.Stream × Text × ℕ)
  pub state : State outside

module _ (outside : Outside) where
  abbrev answer : Response → State outside → Answer outside
  answer response state = record { response = response; joined = none; state = state }

  pub username_of : Request outside → Text
  username_of request = auth_username outside.http outside.decode outside.lossy request.headers

  -- The authority of a CONNECT request, or its host header.
  unfoldable pub connect_authority : Request outside → Option Text
  connect_authority request = elim request.uri.authority [
    | some authority ↦ some authority
    | none ↦ text_of outside.http (outside.http.get (codes "host") request.headers)
  ]

  -- The end of `handle_connect`, by the outcome of the dial.
  unfoldable pub dialled :
      Candidate → Text → ℕ → State outside → Text ⊎ outside.Stream → Answer outside
  unfolding record_exit error_response
  dialled candidate host port state (inl reason) = answer (error_response (upstream reason)) state
  dialled candidate host port state (inr stream) = record {
    response = record { status = 200; body = [] };
    joined = some (stream, host, port);
    state = record state {
      exits = record_exit outside.cache host (outside.exit_for candidate host) state.exits;
    };
  }

  -- `handle_connect` from the dial on, where a candidate was picked.
  unfoldable pub connect_by : Text → ℕ → State outside → Option Candidate → Answer outside
  unfolding dialled error_response
  connect_by host port state none = answer (error_response unknown_region) state
  connect_by host port state (some candidate) =
      dialled candidate host port state (outside.dial candidate host port)

  -- `handle_connect` with the authority that it is to connect to.
  unfoldable pub connect_to : Proxy → Request outside → State outside → Option Text → Answer outside
  unfolding username_of connect_by split_authority pool_for error_response
  connect_to proxy request state none = answer (error_response missing_target) state
  connect_to proxy request state (some authority) =
      let (host, port) = split_authority authority (codes "https") in
      let (pool, heap) = pool_for (username_of request) none proxy state.heap in
      connect_by host port (record state { heap = heap }) (outside.pick pool heap host)

  unfoldable pub handle_connect : Proxy → Request outside → State outside → Answer outside
  unfolding connect_authority connect_to
  handle_connect proxy request state = connect_to proxy request state (connect_authority request)

  module _ (forwards : Forwards outside) where
    -- The target of a request with a whole URI.
    abbrev pub absolute_target : Text → Uri → Target
    absolute_target scheme uri = record {
      scheme = scheme;
      host = or_empty uri.authority;
      path = uri.path;
      query = or_empty uri.query;
    }

    abbrev pub scheme_or_http : Uri → Text
    scheme_or_http uri = elim uri.scheme_str [ none ↦ codes "http" | some scheme ↦ scheme ]

    -- A request to a forward, which is refused where there is none.
    abbrev pub forwarded :
        Option ℕ → Request outside → Target → State outside → Result Error Response × State outside
    forwarded none request target state = (err forward_unavailable, state)
    forwarded (some forward) request target state = forwards forward request target state

    unfoldable pub absolute :
        Proxy → Request outside → State outside → Result Error Response × State outside
    unfolding username_of forward_for
    absolute proxy request state =
        let scheme = scheme_or_http request.uri in
        if not (text_eq scheme (codes "http")) && not (text_eq scheme (codes "https"))
        then (err unsupported_scheme, state)
        else forwarded (forward_for (username_of request) none proxy) request
            (absolute_target scheme request.uri) state

    -- `rewrite` with what the path was read as.
    unfoldable pub rewrite_to :
        Proxy
        → Request outside
        → State outside
        → Option (Route × Target)
        → Result Error Response × State outside
    unfolding forward_for index_page region_or_default
    rewrite_to proxy request state none = (
      ok (
          index_page proxy state.heap
            (text_of outside.http (outside.http.get (codes "host") request.headers))),
      state,
    )
    rewrite_to proxy request state (some (route, target)) =
        forwarded (forward_for (region_or_default route) route.protocol proxy) request target state

    unfoldable pub rewrite :
        Proxy → Request outside → State outside → Result Error Response × State outside
    unfolding parse_path rewrite_to
    rewrite proxy request state = rewrite_to proxy request state (parse_path request.uri)

    -- `unwrap_or_else` with the response to an error; a panic ends the task.
    unfoldable pub respond : Result Error Response → Option Response
    unfolding error_response
    respond (ok response) = some response
    respond (err e) = some (error_response e)
    respond panic = none

    -- The answer of a handler that may fail.
    abbrev pub answered : Result Error Response × State outside → Option (Answer outside)
    answered (result, state) = elim (respond result) [
      | none ↦ none
      | some r ↦ some (answer r state)
    ]

    -- `handle`; `none` is a panic of a forward.
    unfoldable pub handle : Proxy → Request outside → State outside → Option (Answer outside)
    unfolding handle_connect absolute rewrite respond
    handle proxy request state =
        if request.is_connect
        then some (handle_connect proxy request state)
        else if is_some request.uri.host
        then answered (absolute proxy request state)
        else answered (rewrite proxy request state)
