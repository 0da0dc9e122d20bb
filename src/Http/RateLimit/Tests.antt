-- ===== src/Http/RateLimit/Tests.antt =====
-- Two requests in ten seconds.
use vortara.Base.{ℕ, ℤ, false, pos, String, [], ◌∷◌, some, none, ◌+◌, ◌≤◌, ◌≡◌, refl}
use vortara.Errors.{Result, ok}
use vortara.Http.RateLimit.{RateLimiter, tick, passed, given_up, new_rate_limiter, run}
use vortara.Http.RateLimit.Rate.{count_passed, run-rate}
use vortara.Text.{trim_space}

abbrev ten_seconds : String → Result ℤ
ten_seconds s = ok (pos 10000000000)

abbrev with_tokens : ℕ → RateLimiter
with_tokens n = record { tokens = n; capacity = 2; interval = 5000000000; stopped = false }

created : new_rate_limiter ten_seconds (pos 2) "10s" ≡ ok (some (with_tokens 2))
unfolding new_rate_limiter trim_space
created = refl

blocked : run (passed ∷ given_up ∷ passed ∷ passed ∷ []) (with_tokens 2) ≡ none
unfolding run
blocked = refl

earlier : run (passed ∷ passed ∷ tick ∷ []) (with_tokens 2) ≡ some (with_tokens 1)
unfolding run
earlier = refl

ticked : run (passed ∷ tick ∷ tick ∷ tick ∷ passed ∷ []) (with_tokens 1) ≡ some (with_tokens 1)
unfolding run
ticked = refl

run-rate_example :
    (count_passed (passed ∷ tick ∷ tick ∷ tick ∷ passed ∷ []) ≤ 2 + 3)
    × ((with_tokens 1).tokens ≤ (with_tokens 1).capacity)
run-rate_example =
    run-rate (passed ∷ passed ∷ tick ∷ []) (passed ∷ tick ∷ tick ∷ tick ∷ passed ∷ []) ten_seconds
      (pos 2) "10s" (with_tokens 2) (with_tokens 1) (with_tokens 1) created earlier ticked
