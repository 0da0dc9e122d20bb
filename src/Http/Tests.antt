-- ===== src/Http/Tests.antt =====
-- Tests of the circuit breaker, with two failures to open it and a cooldown of a millisecond.
use vortara.Base.{ℕ, ◌+◌, pos, List, [], ◌∷◌, false, some, none, ltb, ◌≡◌, refl, if◌then◌else◌}
use vortara.Errors.{circuit_open}
use vortara.Http.Breaker.{
  CircuitBreaker, state_closed, state_open, state_half_open, new_circuit_breaker, allow_request,
  record_failure,
}
use vortara.Http.Breaker.Transitions.{Call, asks, fails, calls, call, open_breaker_probes_once}

abbrev made : CircuitBreaker
made = record {
  state = state_closed;
  failures = pos 0;
  threshold = pos 2;
  cooldown = 1000000;
  opened_at = 0;
  probe_lock = false;
  half_open_in_flight = false;
}

is_made : new_circuit_breaker (pos 2) (pos 1) ≡ some made
unfolding new_circuit_breaker
is_made = refl

abbrev two_failures : List Call
two_failures = fails 10 ∷ fails 20 ∷ []

abbrev opened : CircuitBreaker
opened = calls two_failures made

is_open : opened.state ≡ state_open
unfolding calls call record_failure
is_open = refl

open_breaker_probes_once_example :
    if ltb 2000000 (opened.opened_at + opened.cooldown)
    then allow_request 2000000 opened ≡ (opened, some circuit_open)
    else ((allow_request 2000000 opened).1 ≡ none)
      × ((allow_request 2000001 (allow_request 2000000 opened).0).1 ≡ some circuit_open)
open_breaker_probes_once_example =
    open_breaker_probes_once (pos 2) (pos 1) made opened two_failures 2000000 2000001 is_made refl
      is_open

abbrev until_probe : List Call
until_probe = fails 10 ∷ fails 20 ∷ asks 2000000 ∷ []

is_half_open : (calls until_probe made).state ≡ state_half_open
unfolding calls call record_failure allow_request
is_half_open = refl

abbrev times : List ℕ
times = 10 ∷ 20 ∷ []
