-- ===== src/Destinations/Client.antt =====
-- internal/connector/destination: the requests that zendesk.go, intercom.go, pipedrive.go, klaviyo.go and
-- mixpanel.go make in the same words. The answer of the server is a status code and a body.
use Prim.Native.String.{slice, len}
use vortara.Base.{
  ℕ, ℤ, String, concat, Bool, Option, none, some, Assoc, insert, ltb, ◌||◌, eqb, if◌then◌else◌,
}
use vortara.Destinations.RestApi.{
  Network, Request, Wire, allow_request, record_circuit_failure, record_circuit_response,
  wire_sleep,
}
use vortara.Errors.{GoError, Result, ok, err, bad_status}
use vortara.Http.Retry.{RetryConfig, do_with_retry}
use vortara.Value.{Value}

-- Client.Do with the code and the body of the answer, and json.Marshal.
pub record Web (O : Type 0) : Type 0 where
  pub net : Network O
  pub reply : Request → O → O × Result (ℕ × String)
  pub encode : Value → Result String

-- The fields of a connected destination that a request needs.
pub record Client : Type 0 where
  pub retry : RetryConfig
  pub limited : Bool
  pub authenticated : Bool

-- bodySnip
unfoldable pub body_snip : String → String
body_snip b = if ltb 200 (len b) then concat (slice b 0 200) "..." else b

-- What an action leaves: the wire, and a value or an error.
abbrev pub Io : Type 0 → Type 0 → Type 0
Io O A = Wire O → Wire O × Result A

module _ {O A B : Type 0} where
  infixl 5 ◌>>=◌
  abbrev pub ◌>>=◌ : Io O A → (A → Io O B) → Io O B
  ◌>>=◌ m f w = let (w', r) = m w in elim r [ ok a ↦ f a w' | err e ↦ (w', err e) ]

abbrev pub from_option : {A : Type 0} → A → Option GoError → Result A
from_option a none = ok a
from_option a (some e) = err e

module _ {O : Type 0} (web : Web O) where
  -- `if limiter != nil { Wait }`
  unfoldable pub throttled : Client → Request → Io O Request
  throttled c req w =
      let (o, e) = web.net.wait w.outside in
      if c.limited then (record w { outside = o }, from_option req e) else (w, ok req)

  -- `if breaker != nil { Allow }`
  unfoldable pub admitted : Request → Io O Request
  unfolding allow_request
  admitted req w = let (w', e) = allow_request web.net w in (w', from_option req e)

  -- http.NewRequestWithContext
  unfoldable pub created : Request → Io O Request
  created req w = (w, from_option req (web.net.refuse req.method req.url))

  -- `if auth != nil { Apply }`
  unfoldable pub signed : Client → Request → Io O Request
  signed c req w =
      let (o, r) = web.net.apply_auth req w.outside in
      if c.authenticated then (record w { outside = o }, r) else (w, ok req)

  -- `client.Do` and what the circuit breaker records of it
  unfoldable pub answered : Request → Io O (ℕ × String)
  unfolding record_circuit_failure record_circuit_response
  answered req w =
      let (o, r) = web.reply req w.outside in
      let w' = record w { outside = o } in
      elim r [
        | err e ↦ (record_circuit_failure web.net w', err e)
        | ok (code, body) ↦ (record_circuit_response web.net code w', ok (code, body))
      ]

  -- The function handed to DoWithRetry, up to its judgement of the answer.
  unfoldable pub exchange : Client → Request → Io O (ℕ × String)
  unfolding throttled admitted created signed answered
  exchange c req = throttled c req >>= λ r1.
      admitted r1 >>= λ r2. created r2 >>= λ r3. signed c r3 >>= λ r4. answered r4

  module _ {V : Type 0} (judge : ℕ → String → Option GoError) (note : ℕ → String → V → V) where
    -- The same function with a variable `V` that it captures, and its results.
    unfoldable pub attempt : Client → Request → Wire O × V → (Wire O × V) × ℕ × Option GoError
    unfolding exchange
    attempt c req (w, v) =
        let (w', r) = exchange c req w in
        elim r [
          | err e ↦ ((w', v), 0, some e)
          | ok (code, body) ↦ ((w', note code body v), code, judge code body)
        ]

    abbrev pub attempt_sleep : ℤ → Wire O × V → (Wire O × V) × Option GoError
    attempt_sleep d (w, v) = let (w', e) = wire_sleep web.net d w in ((w', v), e)

    unfoldable pub call : Client → Request → Wire O → V → (Wire O × V) × Option GoError
    unfolding attempt do_with_retry
    call c req w v = do_with_retry c.retry attempt_sleep (attempt c req) (w, v)

  -- doRequest, with the codes that count as a success
  unfoldable pub do_request :
      String → (ℕ → Bool) → Client → Request → Wire O → Wire O × Option GoError
  unfolding call body_snip
  do_request name accepts c req w =
      let (p, e) =
        call {V = Unit {0}}
          (λ code body. if accepts code then none else some (bad_status name code (body_snip body)))
          (λ code body v. v) c req w tt in
      (p.0, e)

abbrev pub created_or_ok : ℕ → Bool
created_or_ok code = eqb code 200 || eqb code 201

module _ {O : Type 0} (net : Network O) where
  -- `req.Header.Set` of each pair
  abbrev pub header : String → String → Assoc String → Assoc String
  header k v hs = insert (net.canonical k) v hs
