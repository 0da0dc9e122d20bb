-- ===== src/Http/Breaker/Transitions.antt =====
-- What the circuit breaker promises over any sequence of calls.
use vortara.Base.{
  ℕ, suc, ◌+◌, ◌≤◌, ◌<◌, ℤ, pos, Bool, true, false, none, some, List, [], ◌∷◌, ltb, leb, length,
  map, subst, ◌⊎◌, ◌≡◌, arith, if◌then◌else◌, Bool-cases, inl, inr, ◌∙◌,
}
use vortara.Errors.{circuit_open}
use vortara.Http.Breaker.{
  BreakerState, state_closed, state_open, state_half_open, CircuitBreaker, new_circuit_breaker,
  try_probe, allow_request, release_half_open, record_success, record_failure,
}

-- The calls of the clients, in the order in which the mutex lets them run.
pub data Call : Type 0 where
  asks fails : ℕ → Call
  succeeds : Call

unfoldable pub call : Call → CircuitBreaker → CircuitBreaker
call (asks now) cb = (allow_request now cb).0
call (fails now) cb = record_failure now cb
call succeeds cb = record_success cb

unfoldable pub calls : List Call → CircuitBreaker → CircuitBreaker
calls [] cb = cb
calls (c ∷ cs) cb = calls cs (call c cb)

abbrev is_half_open : BreakerState → Bool
is_half_open state_closed = false
is_half_open state_open = false
is_half_open state_half_open = true

-- A probe is in flight exactly in the half-open state, and it holds the lock.
record IsSound (cb : CircuitBreaker) : Type 0 where
  in_flight : cb.half_open_in_flight ≡ is_half_open cb.state
  locked : cb.probe_lock ≡ is_half_open cb.state

call-IsSound : (c : Call) (cb : CircuitBreaker) → IsSound cb → IsSound (call c cb)
unfolding call allow_request try_probe record_success record_failure release_half_open
call-IsSound (asks now) cb s = record {
  in_flight = ground (arith, s.in_flight, s.locked);
  locked = ground (arith, s.in_flight, s.locked);
}
call-IsSound (fails now) cb s = record {
  in_flight = ground (arith, s.in_flight, s.locked);
  locked = ground (arith, s.in_flight, s.locked);
}
call-IsSound succeeds cb s = record {
  in_flight = ground (arith, s.in_flight, s.locked);
  locked = ground (arith, s.in_flight, s.locked);
}

calls-IsSound : (cs : List Call) (cb : CircuitBreaker) → IsSound cb → IsSound (calls cs cb)
unfolding calls
calls-IsSound [] cb s = s
calls-IsSound (c ∷ cs) cb s = calls-IsSound cs (call c cb) (call-IsSound c cb s)

new-IsSound :
    (threshold cooldown_ms : ℤ) (cb : CircuitBreaker)
    → new_circuit_breaker threshold cooldown_ms ≡ some cb
    → IsSound cb
unfolding new_circuit_breaker
new-IsSound threshold cooldown_ms cb h = record { in_flight = ground arith; locked = ground arith }

-- Whatever calls come after a breaker is made, in any order: in the half-open state it refuses every
-- request, and is left as it is.
half_open_refuses :
    (threshold cooldown_ms : ℤ) (made cb : CircuitBreaker) (cs : List Call) (now : ℕ)
    → new_circuit_breaker threshold cooldown_ms ≡ some made
    → calls cs made ≡ cb
    → cb.state ≡ state_half_open
    → allow_request now cb ≡ (cb, some circuit_open)
unfolding allow_request try_probe
half_open_refuses threshold cooldown_ms made cb cs now h e hs =
    let s = subst IsSound e (calls-IsSound cs made (new-IsSound threshold cooldown_ms made h)) in
    refuses s
  where
    refuses : IsSound cb → allow_request now cb ≡ (cb, some circuit_open)
    refuses s = ground (arith, s.in_flight, s.locked)

-- Whatever calls have come before: an open breaker refuses requests and stays as it is until its
-- cooldown is over, and then lets one request through and refuses the next, whenever it comes.
pub open_breaker_probes_once :
    (threshold cooldown_ms : ℤ) (made cb : CircuitBreaker) (cs : List Call) (now later : ℕ)
    → new_circuit_breaker threshold cooldown_ms ≡ some made
    → calls cs made ≡ cb
    → cb.state ≡ state_open
    → if ltb now (cb.opened_at + cb.cooldown)
      then allow_request now cb ≡ (cb, some circuit_open)
      else ((allow_request now cb).1 ≡ none)
        × ((allow_request later (allow_request now cb).0).1 ≡ some circuit_open)
unfolding allow_request try_probe
open_breaker_probes_once threshold cooldown_ms made cb cs now later h e hs =
    probes (subst IsSound e (calls-IsSound cs made (new-IsSound threshold cooldown_ms made h)))
      (Bool-cases (ltb now (cb.opened_at + cb.cooldown)))
  where
    probes :
        IsSound cb
        → (ltb now (cb.opened_at + cb.cooldown) ≡ true)
          ⊎ (ltb now (cb.opened_at + cb.cooldown) ≡ false)
        → if ltb now (cb.opened_at + cb.cooldown)
          then allow_request now cb ≡ (cb, some circuit_open)
          else ((allow_request now cb).1 ≡ none)
            × ((allow_request later (allow_request now cb).0).1 ≡ some circuit_open)
    probes s (inl l) = rw l (ground arith)
    probes s (inr l) =
        rw l (ground (arith, s.in_flight, s.locked), ground (arith, s.in_flight, s.locked))

failure_state :
    (now f t : ℕ) (cb : CircuitBreaker)
    → cb.state ≡ state_closed
    → cb.failures ≡ pos f
    → cb.threshold ≡ pos t
    → ((record_failure now cb).state ≡ (if leb t (suc f) then state_open else state_closed))
      × ((record_failure now cb).failures ≡ pos (suc f))
      × ((record_failure now cb).threshold ≡ cb.threshold)
unfolding record_failure
failure_state now f t cb hs hf ht = (ground arith, ground arith, ground arith)

add_suc : (f n : ℕ) → suc f + n ≡ f + suc n
add_suc f n = omega arith

-- A closed breaker with fewer failures than its threshold stays closed as long as they are fewer and
-- opens with the failure that reaches the threshold.
pub consecutive_failures_open :
    (times : List ℕ) (f t : ℕ) (cb : CircuitBreaker)
    → cb.state ≡ state_closed
    → cb.failures ≡ pos f
    → cb.threshold ≡ pos t
    → f < t
    → f + length times ≤ t
    → (calls (map fails times) cb).state
      ≡ (if ltb (f + length times) t then state_closed else state_open)
unfolding calls call record_failure
consecutive_failures_open [] f t cb hs hf ht l m = ground arith
consecutive_failures_open (now ∷ []) f t cb hs hf ht l m =
    ground (arith, failure_state now f t cb hs hf ht)
consecutive_failures_open (now ∷ next_time ∷ times) f t cb hs hf ht l m =
    let after = record_failure now cb in
    let same = failure_state now f t cb hs hf ht in
    let later =
      consecutive_failures_open (next_time ∷ times) (suc f) t after (same.0 ∙ ground arith) same.1
        (same.2 ∙ ht) (omega (arith, m)) (omega (arith, m)) in
    rw (← add_suc f (length (next_time ∷ times))) later
