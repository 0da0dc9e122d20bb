-- ===== src/Destinations/RestApi/Context.antt =====
-- The context of the requests: once it is done, it stays so.
use vortara.Base.{
  ℕ, ℤ, String, Bool, true, Option, some, is_some, ◌≡◌, arith, ap, subst, Option-cases, inl, inr,
  Bool-cases,
}
use vortara.Destinations.RestApi.{
  Network, Request, RestApi, Wire, Attempt, allow_request, record_circuit_failure,
  record_circuit_response, exchange, authorize, request, throttle, guarded, attempt, wire_sleep,
  send_with_retry, gate, build_request,
}
use vortara.Errors.{GoError, Result-cases, is_cancellation}
use vortara.Http.Retry.Keeps.{do_with_retry_keeps, do_with_retry_cancels}

-- `done` tells whether the context is done: `ctx.Err` answers so, a wait is given up only then, and
-- nothing that the code calls undoes it.
pub record ContextLaws {O : Type 0} (net : Network O) (done : O → Bool) : Type 0 where
  pub poll_done : (o : O) → is_some (net.poll o).1 ≡ done (net.poll o).0
  pub sleep_done :
      (d : ℤ) (o : O) → is_some (net.sleep d o).1 ≡ true → done (net.sleep d o).0 ≡ true
  pub poll : (o : O) → done o ≡ true → done (net.poll o).0 ≡ true
  pub now : (o : O) → done o ≡ true → done (net.now o).0 ≡ true
  pub wait : (o : O) → done o ≡ true → done (net.wait o).0 ≡ true
  pub sleep : (d : ℤ) (o : O) → done o ≡ true → done (net.sleep d o).0 ≡ true
  pub apply_auth : (req : Request) (o : O) → done o ≡ true → done (net.apply_auth req o).0 ≡ true
  pub send : (req : Request) (o : O) → done o ≡ true → done (net.send req o).0 ≡ true

module _ {O : Type 0} (net : Network O) (done : O → Bool) (laws : ContextLaws net done) where
  abbrev pub Ended : Wire O → Type 0
  Ended w = done w.outside ≡ true

  allow-Ended : (w : Wire O) → Ended w → Ended (allow_request net w).0
  unfolding allow_request
  allow-Ended w h = ground (arith, laws.now w.outside h)

  failure-Ended : (w : Wire O) → Ended w → Ended (record_circuit_failure net w)
  unfolding record_circuit_failure
  failure-Ended w h = ground (arith, laws.now w.outside h)

  response-Ended : (code : ℕ) (w : Wire O) → Ended w → Ended (record_circuit_response net code w)
  unfolding record_circuit_response
  response-Ended code w h = ground (arith, failure-Ended w h)

  exchange-Ended : (req : Request) (w : Wire O) → Ended w → Ended (exchange net req w).0
  unfolding exchange
  exchange-Ended req w h =
      let w' = record w { outside = (net.send req w.outside).0 } in
      elim (Result-cases (net.send req w.outside).1) [
        | inl (e, g) ↦ rw (g, exchange) (failure-Ended w' (laws.send req w.outside h))
        | inr (code, g) ↦ rw (g, exchange) (response-Ended code w' (laws.send req w.outside h))
      ]

  authorize-Ended :
      (r : RestApi) (req : Request) (w : Wire O) → Ended w → Ended (authorize net r req w).0
  unfolding authorize
  authorize-Ended r req w h =
      let w' = record w { outside = (net.apply_auth req w.outside).0 } in
      let k = laws.apply_auth req w.outside h in
      elim (Bool-cases r.authenticated) [
        | inr a ↦ rw (a, authorize) (exchange-Ended req w h)
        | inl a ↦ elim (Result-cases (net.apply_auth req w.outside).1) [
          | inl (e, g) ↦ rw (a, g, authorize) k
          | inr (signed, g) ↦ rw (a, g, authorize) (exchange-Ended signed w' k)
        ]
      ]

  request-Ended :
      (r : RestApi) (id body : String) (w : Wire O) → Ended w → Ended (request net r id body w).0
  unfolding request
  request-Ended r id body w h = elim (Option-cases (net.refuse r.method r.url)) [
    | inr (e, g) ↦ rw (g, request) h
    | inl g ↦ rw (g, request) (authorize-Ended r (build_request net r id body) w h)
  ]

  gate-Ended :
      (call : O → O × Option GoError) (w : Wire O) (k : Wire O → Attempt O)
      → done (call w.outside).0 ≡ true
      → ((w' : Wire O) → Ended w' → Ended (k w').0)
      → Ended (gate call w k).0
  gate-Ended call w k h f = elim (Option-cases (call w.outside).1) [
    | inr (e, g) ↦ rw (g, gate) h
    | inl g ↦ rw (g, gate) (f (record w { outside = (call w.outside).0 }) h)
  ]

  throttle-Ended :
      (r : RestApi) (id body : String) (w : Wire O) → Ended w → Ended (throttle net r id body w).0
  unfolding throttle
  throttle-Ended r id body w h = elim (Bool-cases r.limited) [
    | inl g ↦
        rw (g, throttle)
          (gate-Ended net.wait w (request net r id body) (laws.wait w.outside h)
            (request-Ended r id body))
    | inr g ↦ rw (g, throttle) (request-Ended r id body w h)
  ]

  guarded-Ended :
      (r : RestApi) (id body : String) (w : Wire O) → Ended w → Ended (guarded net r id body w).0
  unfolding guarded
  guarded-Ended r id body w h = elim (Option-cases (allow_request net w).1) [
    | inr (e, g) ↦ rw (g, guarded) (allow-Ended w h)
    | inl g ↦ rw (g, guarded) (throttle-Ended r id body (allow_request net w).0 (allow-Ended w h))
  ]

  attempt-Ended :
      (r : RestApi) (id body : String) (w : Wire O) → Ended w → Ended (attempt net r id body w).0
  unfolding attempt
  attempt-Ended r id body w h =
      gate-Ended net.poll w (guarded net r id body) (laws.poll w.outside h)
        (guarded-Ended r id body)

  pub send-Ended :
      (r : RestApi) (id body : String) (w : Wire O)
      → Ended w
      → Ended (send_with_retry net r id body w).0
  unfolding send_with_retry
  send-Ended r id body w h =
      do_with_retry_keeps r.retry (wire_sleep net) (attempt net r id body) Ended
        (λ d w'. laws.sleep d w'.outside) (attempt-Ended r id body) w h

  -- A request is given up for a cancellation only when the context is done.
  pub send_cancelled-Ended :
      (r : RestApi) (id body : String) (w w' : Wire O) (cause : GoError)
      → is_cancellation cause ≡ true
      → send_with_retry net r id body w ≡ (w', some cause)
      → Ended w'
  unfolding send_with_retry
  send_cancelled-Ended r id body w w' cause c h =
      let (d, v, z) =
        do_with_retry_cancels r.retry (wire_sleep net) (attempt net r id body) w w' cause c h in
      subst (λ p. Ended p.0) z (laws.sleep_done d v.outside (ap (λ p. is_some p.1) z))
