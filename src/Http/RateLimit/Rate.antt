-- ===== src/Http/RateLimit/Rate.antt =====
-- How many requests pass the rate limiter.
use vortara.Base.{
  ℕ, zero, suc, ◌+◌, ◌≤◌, List, [], ◌∷◌, none, some, ◌≡◌, refl, arith, Option-cases, inl, inr, sym,
  ◌∙◌, ℤ, pos, negsuc, pos_part, String,
}
use vortara.Http.RateLimit.{
  RateLimiter, Event, tick, passed, given_up, stop, refill, wait, happen, run, limiter,
  new_rate_limiter,
}
use vortara.Errors.{Result, ok, err}

abbrev pub count_passed : List Event → ℕ
count_passed [] = 0
count_passed (passed ∷ es) = suc (count_passed es)
count_passed (_ ∷ es) = count_passed es

abbrev pub count_ticks : List Event → ℕ
count_ticks [] = 0
count_ticks (tick ∷ es) = suc (count_ticks es)
count_ticks (_ ∷ es) = count_ticks es

none_is_some : {A : Type 0} (a : A) → ¬ (none ≡ some a)
none_is_some a h = ground arith

run_stuck :
    (e : Event) (es : List Event) (rl : RateLimiter) → happen e rl ≡ none → run (e ∷ es) rl ≡ none
unfolding run
run_stuck e es rl g = rw (g, run) refl

run_goes :
    (e : Event) (es : List Event) (rl m : RateLimiter)
    → happen e rl ≡ some m
    → run (e ∷ es) rl ≡ run es m
unfolding run
run_goes e es rl m g = rw (g, run) refl

run_cases :
    (e : Event) (es : List Event) (rl l : RateLimiter)
    → run (e ∷ es) rl ≡ some l
    → (m : RateLimiter) × happen e rl ≡ some m × run es m ≡ some l
run_cases e es rl l h = elim (Option-cases (happen e rl)) [
  | inl g ↦ absurd (none_is_some l (sym (run_stuck e es rl g) ∙ h))
  | inr (m, g) ↦ (m, g, sym (run_goes e es rl m g) ∙ h)
]

limiter_full :
    (n : ℕ) (p : Result ℤ) (rl : RateLimiter)
    → limiter n p ≡ ok (some rl)
    → (rl.tokens ≡ n) × (rl.capacity ≡ n)
limiter_full n (err e) rl h = ground arith
limiter_full n (ok period) rl h = ground arith

new_full :
    (parse : String → Result ℤ) (requests : ℤ) (period : String) (rl : RateLimiter)
    → new_rate_limiter parse requests period ≡ ok (some rl)
    → (rl.tokens ≡ pos_part requests) × (rl.capacity ≡ pos_part requests)
unfolding new_rate_limiter
new_full parse (negsuc k) period rl h = ground arith
new_full parse (pos zero) period rl h = ground arith
new_full parse (pos (suc n)) period rl h = ground (arith, limiter_full (suc n) (parse period) rl)

-- One event keeps the tokens within the capacity and pays for a request with a token.
happen_pays :
    (e : Event) (rl m : RateLimiter)
    → happen e rl ≡ some m
    → rl.tokens ≤ rl.capacity
    → (m.tokens ≤ m.capacity)
      × (m.capacity ≡ rl.capacity)
      × (count_passed (e ∷ []) + m.tokens ≤ rl.tokens + count_ticks (e ∷ []))
unfolding happen refill wait
happen_pays tick rl m h b = ground arith
happen_pays passed rl m h b = ground arith
happen_pays given_up rl m h b = ground arith
happen_pays stop rl m h b = ground arith

count_first :
    (e : Event) (es : List Event)
    → (count_passed (e ∷ es) ≡ count_passed (e ∷ []) + count_passed es)
      × (count_ticks (e ∷ es) ≡ count_ticks (e ∷ []) + count_ticks es)
count_first e es = ground arith

run_pays :
    (es : List Event) (rl l : RateLimiter)
    → run es rl ≡ some l
    → rl.tokens ≤ rl.capacity
    → (l.tokens ≤ l.capacity)
      × (l.capacity ≡ rl.capacity)
      × (count_passed es + l.tokens ≤ rl.tokens + count_ticks es)
unfolding run
run_pays [] rl l h b = ground arith
run_pays (e ∷ es) rl l h b =
    let (m, g, k) = run_cases e es rl l h in
    let (x, y, z) = happen_pays e rl m g b in
    let (x', y', z') = run_pays es m l k x in omega (arith, count_first e es)

-- Behind any events since NewRateLimiter, however long a stretch of further events is, the requests
-- that pass in it are at most the configured number and the ticks of the stretch together, and the
-- channel holds at most as many tokens as it has room for.
pub run-rate :
    (before es : List Event) (parse : String → Result ℤ) (requests : ℤ) (period : String)
    (rl m l : RateLimiter)
    → new_rate_limiter parse requests period ≡ ok (some rl)
    → run before rl ≡ some m
    → run es m ≡ some l
    → (count_passed es ≤ pos_part requests + count_ticks es) × (l.tokens ≤ l.capacity)
run-rate before es parse requests period rl m l new h k =
    let (a, b) = new_full parse requests period rl new in
    let (x, y, z) = run_pays before rl m h (omega arith) in
    let (x', y', z') = run_pays es m l k x in omega arith
