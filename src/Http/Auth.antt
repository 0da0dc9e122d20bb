-- ===== src/Http/Auth.antt =====
-- internal/connector/http/auth.go. A request to the token server, its form and its answer, and what Go
-- puts in a header or an URL are parameters; the mutex of the token is not modelled.
pub mod Tokens
pub mod Tests
use vortara.Base.{
  ℕ, suc, ◌+◌, ◌-◌, ◌*◌, ◌%◌, ◌^◌, ℤ, pos, negsuc, String, concat, Bool, true, false, not, ◌&&◌,
  ◌||◌, List, [], ◌∷◌, Option, none, some, Assoc, insert, ltb, leb, ◌==◌, if◌then◌else◌,
}
use vortara.Destinations.RestApi.{Request}
use vortara.Errors.{GoError, Result, ok, err, missing_auth, unknown_auth, token_status, empty_token}
use vortara.Http.Breaker.{bits, of_bits}
use vortara.Text.{to_lower, trim_space}
use vortara.Value.{join}

-- config.AuthConfig
pub record AuthConfig : Type 0 where
  pub type : String
  pub token : String
  pub key : String
  pub value : String
  pub in_header : Bool
  pub username : String
  pub password : String
  pub client_id : String
  pub client_secret : String
  pub token_url : String
  pub scopes : List String
  pub in_header_set : Bool

pub record ClientCredentials : Type 0 where
  pub client_id : String
  pub client_secret : String
  pub token_url : String
  pub scopes : List String

-- The authenticators, without the token that the last one keeps.
pub data Authenticator : Type 0 where
  bearer_auth : String → Authenticator
  api_key_auth : String → String → Bool → Authenticator
  basic_auth : String → String → Authenticator
  oauth2 : ClientCredentials → Authenticator

abbrev is_blank : String → Bool
is_blank s = trim_space s == ""

unfoldable pub new_authenticator : AuthConfig → Result (Option Authenticator)
unfolding to_lower trim_space
new_authenticator cfg =
    let type = to_lower (trim_space cfg.type) in
    if type == ""
    then ok none
    else if type == "bearer"
    then (if is_blank cfg.token
        then err (missing_auth "bearer")
        else ok (some (bearer_auth cfg.token)))
    else if type == "api_key"
    then (if is_blank cfg.key || is_blank cfg.value
        then err (missing_auth "api_key")
        else ok (
            some
              (api_key_auth cfg.key cfg.value (if cfg.in_header_set then cfg.in_header else true))))
    else if type == "basic"
    then ok (some (basic_auth cfg.username cfg.password))
    else if type == "oauth2_client_credentials"
    then (if is_blank cfg.client_id || is_blank cfg.client_secret || is_blank cfg.token_url
        then err (missing_auth "oauth2_client_credentials")
        else ok (
            some (
              oauth2 (record {
                client_id = cfg.client_id;
                client_secret = cfg.client_secret;
                token_url = cfg.token_url;
                scopes = cfg.scopes;
              }))))
    else err (unknown_auth cfg.type)

-- Authenticator.Name
abbrev pub name : Authenticator → String
name (bearer_auth t) = "bearer"
name (api_key_auth k v h) = "api_key"
name (basic_auth u p) = "basic"
name (oauth2 c) = "oauth2_client_credentials"

-- `cachedToken` and `expiresAt`, in nanoseconds
pub record TokenCache : Type 0 where
  pub cached_token : String
  pub expires_at : ℤ

-- `time.Now`, http.NewRequestWithContext's error, Client.Do with the form, `url.Values.Encode`, the decoder
-- of `access_token` and `expires_in`, SetBasicAuth's header, the URL with one more query parameter, and
-- `http.CanonicalHeaderKey`.
pub record AuthServices (O : Type 0) : Type 0 where
  pub now : O → O × ℕ
  pub refuse : String → Option GoError
  pub post : String → String → O → O × Result (ℕ × String)
  pub encode_form : Assoc String → String
  pub decode_token : String → Result (String × ℤ)
  pub basic : String → String → String
  pub with_query : String → String → String → String
  pub canonical : String → String

-- `time.Until(expiresAt) > 30*time.Second`
abbrev pub lasts : ℕ → ℤ → Bool
lasts now (pos t) = ltb (now + 30000000000) t
lasts now (negsuc t) = false

-- `time.Now().Add(d)`
abbrev pub add_time : ℕ → ℤ → ℤ
add_time now (pos d) = pos (now + d)
add_time now (negsuc d) = if ltb d now then pos (now - suc d) else negsuc (d - now)

-- `time.Duration(n) * time.Second`, in 64 bits
abbrev pub seconds : ℤ → ℤ
seconds n = of_bits (bits n * 1000000000 % 2 ^ 64)

unfoldable pub token_form : ClientCredentials → Assoc String
unfolding join
token_form c =
    let form =
      ("grant_type", "client_credentials")
      ∷ ("client_id", c.client_id)
      ∷ ("client_secret", c.client_secret)
      ∷ [] in
    elim c.scopes [ [] ↦ form | s ∷ ss ↦ insert "scope" (join " " c.scopes) form ]

-- The token of an answer that was decoded.
unfoldable pub keep_token :
    {O : Type 0} → AuthServices O → String × ℤ → TokenCache × O → (TokenCache × O) × Result String
keep_token services (token, expires_in) (cache, o) =
    if is_blank token
    then ((cache, o), err empty_token)
    else (let (o', now) = services.now o in
        (
          (record { cached_token = token; expires_at = add_time now (seconds expires_in) }, o'),
          ok token,
        ))

module _ {O : Type 0} (services : AuthServices O) where
  unfoldable pub read_token : ℕ × String → TokenCache × O → (TokenCache × O) × Result String
  unfolding keep_token
  read_token (code, body) (cache, o) =
      if ltb code 200 || leb 300 code
      then ((cache, o), err (token_status code))
      else elim (services.decode_token body) [
        | err e ↦ ((cache, o), err e)
        | ok answer ↦ keep_token services answer (cache, o)
      ]

  unfoldable pub fetch_token : ClientCredentials → TokenCache × O → (TokenCache × O) × Result String
  unfolding read_token token_form
  fetch_token c (cache, o) = elim (services.refuse c.token_url) [
    | some e ↦ ((cache, o), err e)
    | none ↦
        let (o', r) = services.post c.token_url (services.encode_form (token_form c)) o in
        elim r [ err e ↦ ((cache, o'), err e) | ok answer ↦ read_token answer (cache, o') ]
  ]

  unfoldable pub get_token : ClientCredentials → TokenCache × O → (TokenCache × O) × Result String
  unfolding fetch_token
  get_token c (cache, o) =
      if cache.cached_token == ""
      then fetch_token c (cache, o)
      else (let (o', now) = services.now o in
          if lasts now cache.expires_at
          then ((cache, o'), ok cache.cached_token)
          else fetch_token c (cache, o'))

  -- `req.Header.Set`
  abbrev pub with_header : String → String → Request → Request
  with_header k v req = record req { headers = insert (services.canonical k) v req.headers }

  -- Apply of each authenticator
  unfoldable pub apply :
      Authenticator → Request → TokenCache × O → (TokenCache × O) × Result Request
  unfolding get_token
  apply (bearer_auth token) req p =
      (p, ok (with_header "Authorization" (concat "Bearer " token) req))
  apply (api_key_auth key value in_header) req p =
      if in_header
      then (p, ok (with_header key value req))
      else (p, ok (record req { url = services.with_query req.url key value }))
  apply (basic_auth username password) req p =
      (p, ok (with_header "Authorization" (services.basic username password) req))
  apply (oauth2 c) req p =
      let (p', r) = get_token c p in
      elim r [
        | err e ↦ (p', err e)
        | ok token ↦ (p', ok (with_header "Authorization" (concat "Bearer " token) req))
      ]
