-- ===== src/Http/Retry.antt =====
-- internal/connector/http/retry.go. `fn` and the wait on the timer or the context are functions on a
-- state `W`; a status code is a natural number, and a wait is a signed number of nanoseconds.
pub mod Backoff
pub mod Calls
pub mod Keeps
pub mod Recovery
pub mod Tests
use vortara.Base.{
  ℕ, zero, suc, ◌+◌, ◌-◌, ◌*◌, ◌^◌, ◌%◌, ℤ, pos, negsuc, pos_part, Bool, true, false, not, ◌&&◌,
  ◌||◌, List, [], ◌∷◌, Option, none, some, is_some, length, leb, ltb, eqb, if◌then◌else◌,
}
use vortara.Errors.{GoError, circuit_open, permanent_failure, exhausted, exhausted_retries}
use vortara.Http.Breaker.{is_zero, bits, of_bits}

-- config.RetryConfig
pub record RetryConfig : Type 0 where
  pub attempts : ℤ
  pub backoff_ms : ℤ
  pub backoff_on : List ℕ
  pub drop_on : List ℕ

abbrev or_default : ℤ → ℤ → ℤ
or_default z d = if is_zero z then d else z

abbrev or_codes : List ℕ → List ℕ → List ℕ
or_codes [] d = d
or_codes (c ∷ cs) d = c ∷ cs

-- defaultRetryConfig
unfoldable pub default_retry_config : RetryConfig → RetryConfig
default_retry_config cfg = record {
  attempts = or_default cfg.attempts (pos 3);
  backoff_ms = or_default cfg.backoff_ms (pos 1000);
  backoff_on = or_codes cfg.backoff_on (429 ∷ 500 ∷ 502 ∷ 503 ∷ 504 ∷ []);
  drop_on = or_codes cfg.drop_on (400 ∷ 401 ∷ 403 ∷ 404 ∷ 409 ∷ []);
}

abbrev pub member : ℕ → List ℕ → Bool
member c [] = false
member c (d ∷ ds) = eqb c d || member c ds

abbrev pub max_backoff : ℕ
max_backoff = 30000000000

-- `backoff > 30*time.Second`
abbrev pub capped : ℤ → ℤ
capped (pos n) = if ltb max_backoff n then pos max_backoff else pos n
capped (negsuc n) = negsuc n

-- `BackoffMs * Millisecond * (1 << attempt)` in 64 bits, then the cap
unfoldable pub backoff : ℤ → ℕ → ℤ
backoff ms attempt = capped (of_bits (bits ms * 1000000 * 2 ^ attempt % 2 ^ 64))

abbrev pub success : ℕ → Bool
success code = leb 200 code && ltb code 300

abbrev pub is_circuit_open : Option GoError → Bool
is_circuit_open (some circuit_open) = true
is_circuit_open _ = false

-- What an attempt comes to: the loop returns, or goes on with the last code.
pub data Turn : Type 0 where
  returns : Option GoError → Turn
  goes_on : ℕ → Turn

abbrev pub waited : ℕ → Option GoError → Turn
waited code none = goes_on code
waited code (some e) = returns (some e)

module _ {W : Type 0} (cfg : RetryConfig) (sleep : ℤ → W → W × Option GoError)
    (fn : W → W × ℕ × Option GoError) where
  -- The wait of attempt `i`.
  abbrev pub pause : ℕ → ℕ → W → W × Turn
  pause i code w = let (w', e) = sleep (backoff cfg.backoff_ms i) w in (w', waited code e)

  -- One round of the loop, from the results of `fn`.
  abbrev pub judge : ℕ → W → ℕ → Option GoError → W × Turn
  judge i w code err =
      if not (is_some err) && success code
      then (w, returns none)
      else if is_circuit_open err
      then (w, returns err)
      else if member code cfg.drop_on
      then (w, returns (some (permanent_failure code)))
      else if eqb (suc i) (pos_part cfg.attempts)
      then (w, returns (some (exhausted cfg.attempts code)))
      else if member code cfg.backoff_on || is_some err
      then pause i code w
      else (w, goes_on code)

  unfoldable pub retry_step : ℕ → W → W × Turn
  unfolding backoff
  retry_step i w = let (w', code, err) = fn w in judge i w' code err

  abbrev pub after : (ℕ → W × Option GoError) → W → Turn → W × Option GoError
  after again w (returns e) = (w, e)
  after again w (goes_on code) = again code

  -- The rounds that are left, the number of this one and the last code.
  unfoldable pub retry_loop : ℕ → ℕ → ℕ → W → W × Option GoError
  unfolding retry_step
  retry_loop zero i last w = (w, some (exhausted_retries last))
  retry_loop (suc n) i last w =
      let (w', turn) = retry_step i w in after (λ code. retry_loop n (suc i) code w') w' turn

-- DoWithRetry
unfoldable pub do_with_retry :
    {W : Type 0}
    → RetryConfig
    → (ℤ → W → W × Option GoError)
    → (W → W × ℕ × Option GoError)
    → W
    → W × Option GoError
unfolding retry_loop default_retry_config
do_with_retry cfg sleep fn w =
    let c = default_retry_config cfg in retry_loop c sleep fn (pos_part c.attempts) 0 0 w
