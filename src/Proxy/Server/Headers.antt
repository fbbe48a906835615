-- ===== src/Proxy/Server/Headers.antt =====
-- src/proxy/server.rs: the headers that are stripped from a request, and the name a client signs in
-- with. The header map is another package's, and so are Base64 and the decoding of UTF-8.
use unroxy.Base.{
  ℕ, Bool, true, false, Option, none, some, List, [], ◌∷◌, ◌++◌, any, if◌then◌else◌, ◌≡◌, refl, ◌∙◌,
  Bool-cases, inl, inr,
}
use unroxy.Base.Text.{Text, codes, text_eq, strip_prefix, trim, split}

-- What the code uses of `HeaderMap`, by names in lower case, and of the value of a header.
pub record HeaderMap : Type 1 where
  pub Headers : Type 0
  pub Value : Type 0
  pub get : Text → Headers → Option Value
  pub remove : Text → Headers → Headers
  pub to_str : Value → Option Text

-- Without a header of that name, and otherwise the same headers.
abbrev pub Removes : HeaderMap → Type 0
Removes http =
    (name other : Text) (headers : http.Headers)
    → http.get other (http.remove name headers)
      ≡ (if text_eq name other then none else http.get other headers)

abbrev pub client_headers : List Text
client_headers =
    codes "x-forwarded-for"
    ∷ (codes "x-real-ip"
        ∷ (codes "x-originating-ip"
            ∷ (codes "true-client-ip"
                ∷ (codes "client-ip"
                    ∷ (codes "forwarded"
                        ∷ (codes "x-forwarded-host"
                            ∷ (codes "x-forwarded-proto"
                                ∷ (codes "cf-connecting-ip"
                                    ∷ (codes "proxy-authorization" ∷ [])))))))))

abbrev pub hop_headers : List Text
hop_headers =
    codes "connection"
    ∷ (codes "proxy-connection"
        ∷ (codes "keep-alive"
            ∷ (codes "proxy-authenticate"
                ∷ (codes "proxy-authorization"
                    ∷ (codes "te"
                        ∷ (codes "trailer"
                            ∷ (codes "transfer-encoding" ∷ (codes "upgrade" ∷ []))))))))

module _ (http : HeaderMap) where
  abbrev pub remove_all : List Text → http.Headers → http.Headers
  remove_all [] headers = headers
  remove_all (name ∷ names) headers = remove_all names (http.remove name headers)

  unfoldable pub strip_client_headers : http.Headers → http.Headers
  strip_client_headers headers = remove_all client_headers headers

  unfoldable pub strip_hop_headers : http.Headers → http.Headers
  strip_hop_headers headers = remove_all hop_headers headers

  get-remove_all :
      (names : List Text) (other : Text) (headers : http.Headers)
      → Removes http
      → http.get other (remove_all names headers)
        ≡ (if any (λ name. text_eq name other) names then none else http.get other headers)
  get-remove_all [] other headers law = refl
  get-remove_all (name ∷ names) other headers law =
      get-remove_all names other (http.remove name headers) law
      ∙ elim (Bool-cases (text_eq name other)) [
        | inl e ↦ rw (law name other headers, e) (same_either (any (λ n. text_eq n other) names))
        | inr e ↦ rw (law name other headers, e) refl
      ]
    where
      same_either : (b : Bool) → ◌≡◌ {A = Option http.Value} (if b then none else none) none
      same_either true = refl
      same_either false = refl

  -- With a header map that removes what it is told to, a header of a request that was stripped for
  -- its client and for its hop is absent when it is on one of the two lists, and as it was
  -- otherwise.
  pub strip_hop_headers-strip_client_headers :
      (other : Text) (headers : http.Headers)
      → Removes http
      → http.get other (strip_hop_headers (strip_client_headers headers)) ≡ (
          if any (λ name. text_eq name other) (client_headers ++ hop_headers)
          then none
          else http.get other headers)
  unfolding strip_hop_headers strip_client_headers
  strip_hop_headers-strip_client_headers other headers law =
      get-remove_all (client_headers ++ hop_headers) other headers law

  abbrev or_else {ℓ} : {A : Type ℓ} → Option A → Option A → Option A
  or_else none b = b
  or_else (some a) b = some a

  -- The text of a header that is there and is text.
  abbrev pub text_of : Option http.Value → Option Text
  text_of none = none
  text_of (some value) = http.to_str value

  module _ (decode : Text → Option (List ℕ)) (lossy : List ℕ → Text) where
    -- The first of the parts, of which there is at least one.
    abbrev first_part : List Text → Text
    first_part [] = []
    first_part (part ∷ parts) = part

    unfoldable pub decode_username : Text → Text
    unfolding split
    decode_username encoded = elim (decode encoded) [
      | none ↦ []
      | some decoded ↦ first_part (split b':' (lossy decoded))
    ]

    unfoldable pub auth_username : http.Headers → Text
    unfolding decode_username strip_prefix trim
    auth_username headers =
        elim (text_of (
          or_else (http.get (codes "proxy-authorization") headers)
            (http.get (codes "authorization") headers))) [
              | none ↦ []
              | some header ↦ elim (strip_prefix (codes "Basic ") header) [
                | none ↦ []
                | some encoded ↦ decode_username (trim encoded)
              ]
            ]
