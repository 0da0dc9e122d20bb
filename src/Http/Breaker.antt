-- ===== src/Http/Breaker.antt =====
-- internal/connector/http/circuitbreaker.go. Times and durations are nanoseconds. The nil breaker,
-- which lets every request through, is `none` where New returns it. A mutex has no model: each method
-- runs whole; the second lock is the field `probe_lock`.
pub mod Transitions
use vortara.Base.{
  ℕ, zero, suc, ◌+◌, ◌-◌, ◌*◌, ◌^◌, ◌%◌, ℤ, pos, negsuc, pos_part, positive, String, Bool, true,
  false, List, [], ◌∷◌, Option, none, some, ltb, leb, if◌then◌else◌,
}
use vortara.Errors.{GoError, circuit_open}

pub data BreakerState : Type 0 where
  state_closed state_open state_half_open : BreakerState

pub record CircuitBreaker : Type 0 where
  pub state : BreakerState
  pub failures : ℤ
  pub threshold : ℤ
  pub cooldown : ℕ
  pub opened_at : ℕ
  pub probe_lock : Bool
  pub half_open_in_flight : Bool

abbrev pub next : ℤ → ℤ
next (pos n) = pos (suc n)
next (negsuc zero) = pos 0
next (negsuc (suc n)) = negsuc n

-- `a >= b`
abbrev pub at_least : ℤ → ℤ → Bool
at_least (pos m) (pos n) = leb n m
at_least (pos m) (negsuc n) = true
at_least (negsuc m) (pos n) = false
at_least (negsuc m) (negsuc n) = leb m n

abbrev pub is_zero : ℤ → Bool
is_zero (pos zero) = true
is_zero (pos (suc n)) = false
is_zero (negsuc n) = false

abbrev pub default_cooldown : ℕ
default_cooldown = 30000000000

-- The bits of an int as a number below 2 ^ 64, and back.
abbrev pub bits : ℤ → ℕ
bits (pos n) = n % 2 ^ 64
bits (negsuc n) = 2 ^ 64 - 1 - n % 2 ^ 64

abbrev pub of_bits : ℕ → ℤ
of_bits b = if ltb b (2 ^ 63) then pos b else negsuc (2 ^ 64 - 1 - b)

-- `time.Duration(n) * time.Millisecond`, in 64 bits
abbrev milliseconds : ℤ → ℤ
milliseconds n = of_bits (bits n * 1000000 % 2 ^ 64)

-- NewCircuitBreaker, from the threshold and the milliseconds of the cooldown
unfoldable pub new_circuit_breaker : ℤ → ℤ → Option CircuitBreaker
new_circuit_breaker threshold cooldown_ms =
    if is_zero threshold
    then none
    else some (record {
      state = state_closed;
      failures = pos 0;
      threshold = threshold;
      cooldown =
          (if positive (milliseconds cooldown_ms)
            then pos_part (milliseconds cooldown_ms)
            else default_cooldown);
      opened_at = 0;
      probe_lock = false;
      half_open_in_flight = false;
    })

-- `case stateHalfOpen`: one request goes through until its result is recorded.
unfoldable pub try_probe : CircuitBreaker → CircuitBreaker × Option GoError
try_probe cb =
    if cb.half_open_in_flight
    then (cb, some circuit_open)
    else if cb.probe_lock
    then (cb, some circuit_open)
    else (record cb { half_open_in_flight = true; probe_lock = true }, none)

unfoldable pub allow_request : ℕ → CircuitBreaker → CircuitBreaker × Option GoError
unfolding try_probe
allow_request now cb = elim cb.state [
  | state_closed ↦ (cb, none)
  | state_open ↦
      if ltb now (cb.opened_at + cb.cooldown)
      then (cb, some circuit_open)
      else try_probe (record cb { state = state_half_open; failures = pos 0 })
  | state_half_open ↦ try_probe cb
]

unfoldable pub release_half_open : CircuitBreaker → CircuitBreaker
release_half_open cb =
    if cb.half_open_in_flight
    then record cb { half_open_in_flight = false; probe_lock = false }
    else cb

unfoldable pub record_success : CircuitBreaker → CircuitBreaker
unfolding release_half_open
record_success cb =
    let kept = record cb { failures = pos 0 } in
    elim cb.state [
      | state_half_open ↦
          release_half_open (record cb { state = state_closed; failures = pos 0; opened_at = 0 })
      | state_closed ↦ kept
      | state_open ↦ kept
    ]

unfoldable pub record_failure : ℕ → CircuitBreaker → CircuitBreaker
unfolding release_half_open
record_failure now cb =
    let counted = record cb { failures = next cb.failures } in
    elim cb.state [
      | state_half_open ↦
          release_half_open
            (record cb { state = state_open; failures = cb.threshold; opened_at = now })
      | state_closed ↦
          if at_least counted.failures cb.threshold
          then record counted { state = state_open; opened_at = now }
          else counted
      | state_open ↦ record cb { opened_at = now }
    ]

unfoldable pub state_name : Option CircuitBreaker → String
state_name none = "disabled"
state_name (some cb) = elim cb.state [
  | state_open ↦ "open"
  | state_half_open ↦ "half_open"
  | state_closed ↦ "closed"
]
