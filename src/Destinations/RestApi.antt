-- ===== src/Destinations/RestApi.antt =====
-- internal/connector/destination/restapi.go: the requests for one row. What the code takes from Go's
-- library and from the authenticator is a parameter, on a state `O` of the world outside.
pub mod Connect
pub mod Context
pub mod Headers
pub mod Load
use vortara.Base.{
  ℕ, ℤ, String, Bool, true, false, not, List, [], ◌∷◌, Option, none, some, Assoc, insert, leb,
  if◌then◌else◌,
}
use vortara.Errors.{GoError, Result, ok, err}
use vortara.Http.Breaker.{
  CircuitBreaker, allow_request as breaker_allow, record_failure, record_success,
}
use vortara.Http.Retry.{RetryConfig, do_with_retry}
use vortara.Value.{Payload}

-- http.Request, as far as the code sets it
pub record Request : Type 0 where
  pub method : String
  pub url : String
  pub headers : Assoc String
  pub body : String

-- `ctx.Err`, `time.Now`, RateLimiter.Wait, the timer of the retries, http.NewRequestWithContext's error,
-- `http.CanonicalHeaderKey`, Authenticator.Apply, Client.Do with its status code, and json.Marshal.
pub record Network (O : Type 0) : Type 0 where
  pub poll : O → O × Option GoError
  pub now : O → O × ℕ
  pub wait : O → O × Option GoError
  pub sleep : ℤ → O → O × Option GoError
  pub refuse : String → String → Option GoError
  pub canonical : String → String
  pub apply_auth : Request → O → O × Result Request
  pub send : Request → O → O × Result ℕ
  pub marshal : Payload → Result String

-- RESTAPIDestination behind Connect; `limited` and `authenticated` say that the field is not nil.
pub record RestApi : Type 0 where
  pub method : String
  pub url : String
  pub headers : Assoc String
  pub retry : RetryConfig
  pub limited : Bool
  pub authenticated : Bool

-- The circuit breaker and the world outside.
pub record Wire (O : Type 0) : Type 0 where
  pub breaker : Option CircuitBreaker
  pub outside : O

-- What an attempt leaves: the wire, a status code and an error.
abbrev pub Attempt : Type 0 → Type 0
Attempt O = Wire O × ℕ × Option GoError

module _ {O : Type 0} where
  -- A call that may fail, and the rest where it does not.
  abbrev pub gate : (O → O × Option GoError) → Wire O → (Wire O → Attempt O) → Attempt O
  gate call w k =
      let (o, e) = call w.outside in
      let w' = record w { outside = o } in elim e [ none ↦ k w' | some cause ↦ (w', 0, some cause) ]

module _ {O : Type 0} (net : Network O) where
  -- allowRequest; `before` serves a log line.
  unfoldable pub allow_request : Wire O → Wire O × Option GoError
  allow_request w = elim w.breaker [
    | none ↦ (w, none)
    | some cb ↦
        let (o, now) = net.now w.outside in
        let (cb', e) = breaker_allow now cb in (record w { breaker = some cb'; outside = o }, e)
  ]

  -- recordCircuitFailure
  unfoldable pub record_circuit_failure : Wire O → Wire O
  record_circuit_failure w = elim w.breaker [
    | none ↦ w
    | some cb ↦
        let (o, now) = net.now w.outside in
        record w { breaker = some (record_failure now cb); outside = o }
  ]

  -- recordCircuitResponse
  unfoldable pub record_circuit_response : ℕ → Wire O → Wire O
  unfolding record_circuit_failure
  record_circuit_response code w = elim w.breaker [
    | none ↦ w
    | some cb ↦
        if leb 500 code
        then record_circuit_failure w
        else record w { breaker = some (record_success cb) }
  ]

  -- The loop over `r.cfg.Headers`, with `Header.Set`.
  unfoldable pub set_headers : Assoc String → Assoc String → Assoc String
  set_headers [] hs = hs
  set_headers ((k, v) ∷ more) hs = set_headers more (insert (net.canonical k) v hs)

  unfoldable pub build_request : RestApi → String → String → Request
  unfolding set_headers
  build_request r row_id body = record {
    method = r.method;
    url = r.url;
    headers = set_headers r.headers (
        insert (net.canonical "X-Idempotency-Key") row_id
          (insert (net.canonical "Content-Type") "application/json" []));
    body = body;
  }

  -- `r.client.Do` and what follows
  unfoldable pub exchange : Request → Wire O → Attempt O
  unfolding record_circuit_failure record_circuit_response
  exchange req w =
      let (o, answer) = net.send req w.outside in
      let w' = record w { outside = o } in
      elim answer [
        | err e ↦ (record_circuit_failure w', 0, some e)
        | ok code ↦ (record_circuit_response code w', code, none)
      ]

  unfoldable pub authorize : RestApi → Request → Wire O → Attempt O
  unfolding exchange
  authorize r req w =
      if r.authenticated
      then (let (o, signed) = net.apply_auth req w.outside in
          let w' = record w { outside = o } in
          elim signed [ err e ↦ (w', 0, some e) | ok req' ↦ exchange req' w' ])
      else exchange req w

  unfoldable pub request : RestApi → String → String → Wire O → Attempt O
  unfolding build_request authorize
  request r row_id body w = elim (net.refuse r.method r.url) [
    | some e ↦ (w, 0, some e)
    | none ↦ authorize r (build_request r row_id body) w
  ]

  unfoldable pub throttle : RestApi → String → String → Wire O → Attempt O
  unfolding request
  throttle r row_id body w =
      if r.limited then gate net.wait w (request r row_id body) else request r row_id body w

  unfoldable pub guarded : RestApi → String → String → Wire O → Attempt O
  unfolding allow_request throttle
  guarded r row_id body w =
      let (w', e) = allow_request w in
      elim e [ some cause ↦ (w', 0, some cause) | none ↦ throttle r row_id body w' ]

  -- The function that sendWithRetry hands to DoWithRetry.
  unfoldable pub attempt : RestApi → String → String → Wire O → Attempt O
  unfolding guarded
  attempt r row_id body w = gate net.poll w (guarded r row_id body)

  abbrev pub wire_sleep : ℤ → Wire O → Wire O × Option GoError
  wire_sleep d w = let (o, e) = net.sleep d w.outside in (record w { outside = o }, e)

  unfoldable pub send_with_retry : RestApi → String → String → Wire O → Wire O × Option GoError
  unfolding do_with_retry attempt
  send_with_retry r row_id body w = do_with_retry r.retry wire_sleep (attempt r row_id body) w
