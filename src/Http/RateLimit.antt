-- ===== src/Http/RateLimit.antt =====
-- internal/connector/http/ratelimit.go. The channel of the tokens is their number; what happens to it is
-- a list of events in the order in which they happen.
pub mod Rate
pub mod Tests
use vortara.Base.{
  ℕ, zero, suc, ◌/◌, ℤ, pos, negsuc, String, Bool, true, false, ◌||◌, List, [], ◌∷◌, Option, none,
  some, ltb, ◌==◌, if◌then◌else◌,
}
use vortara.Errors.{GoError, Result, ok, err, negative_requests}
use vortara.Text.{trim_space}

-- `tokens` is the length of the channel and `capacity` its capacity.
pub record RateLimiter : Type 0 where
  pub tokens : ℕ
  pub capacity : ℕ
  pub interval : ℕ
  pub stopped : Bool

-- `period / requests`, or a nanosecond if that is not positive
abbrev pub interval_of : ℤ → ℕ → ℕ
interval_of (pos period) requests = elim (period / requests) [ zero ↦ 1 | suc k ↦ suc k ]
interval_of (negsuc k) requests = 1

abbrev pub limiter : ℕ → Result ℤ → Result (Option RateLimiter)
limiter requests (err e) = err e
limiter requests (ok period) = ok (
    some (record {
      tokens = requests;
      capacity = requests;
      interval = interval_of period requests;
      stopped = false;
    }))

-- NewRateLimiter, from the requests, the period and `time.ParseDuration`
unfoldable pub new_rate_limiter : (String → Result ℤ) → ℤ → String → Result (Option RateLimiter)
unfolding trim_space
new_rate_limiter parse (negsuc k) period = err negative_requests
new_rate_limiter parse (pos zero) period = ok none
new_rate_limiter parse (pos (suc n)) period =
    if trim_space period == "" then ok none else limiter (suc n) (parse period)

-- The ticker fires, a Wait gets a token, a Wait is given up as its context is done, or Stop is called.
pub data Event : Type 0 where
  tick passed given_up stop : Event

-- The body of refill's loop at a tick; a full channel takes no token.
unfoldable pub refill : RateLimiter → RateLimiter
refill rl =
    if rl.stopped
    then rl
    else if ltb rl.tokens rl.capacity
    then record rl { tokens = suc rl.tokens }
    else rl

-- Wait blocks while the channel is empty, so it cannot have passed then.
unfoldable pub wait : RateLimiter → Option RateLimiter
wait rl = elim rl.tokens [ zero ↦ none | suc n ↦ some (record rl { tokens = n }) ]

unfoldable pub happen : Event → RateLimiter → Option RateLimiter
unfolding refill wait
happen tick rl = some (refill rl)
happen passed rl = wait rl
happen given_up rl = some rl
happen stop rl = some (record rl { stopped = true })

-- The state behind the events, if they can happen in this order.
unfoldable pub run : List Event → RateLimiter → Option RateLimiter
unfolding happen
run [] rl = some rl
run (e ∷ es) rl = elim (happen e rl) [ none ↦ none | some rl' ↦ run es rl' ]
