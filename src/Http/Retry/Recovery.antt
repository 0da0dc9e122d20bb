-- ===== src/Http/Retry/Recovery.antt =====
-- A destination that fails for a while and then answers.
use vortara.Base.{
  ℕ, zero, suc, ◌+◌, ◌<◌, ℤ, pos_part, Bool, true, false, not, ◌&&◌, ◌||◌, Option, none, some,
  is_some, eqb, ◌≡◌, refl, arith,
}
use vortara.Errors.{GoError}
use vortara.Http.Retry.{
  RetryConfig, goes_on, judge, retry_step, retry_loop, do_with_retry, default_retry_config, success,
  backoff, is_circuit_open, member,
}

-- A failure after which the loop waits for another attempt, if one is left.
abbrev pub transient : RetryConfig → ℕ → Option GoError → Bool
transient cfg code e =
    not (not (is_some e) && success code)
    && not (is_circuit_open e)
    && not (member code cfg.drop_on)
    && (member code cfg.backoff_on || is_some e)

module _ {W : Type 0} (cfg : RetryConfig) (sleep : ℤ → W → W × Option GoError)
    (fn : W → W × ℕ × Option GoError) where
  -- After `i` failures the calls from the first state on fail so many times more, with each wait left to
  -- its end, and then one succeeds with the second state.
  pub data Recovers : ℕ → ℕ → W → W → Type 0 where
    answers :
        {i code : ℕ} {w w' : W} → fn w ≡ (w', code, none) → success code ≡ true → Recovers i 0 w w'
    fails :
        {i n code : ℕ} {w v u w' : W} {e : Option GoError}
        → fn w ≡ (v, code, e)
        → transient cfg code e ≡ true
        → sleep (backoff cfg.backoff_ms i) v ≡ (u, none)
        → Recovers (suc i) n u w'
        → Recovers i (suc n) w w'

  judge-transient :
      (i code : ℕ) (v u : W) (e : Option GoError)
      → transient cfg code e ≡ true
      → eqb (suc i) (pos_part cfg.attempts) ≡ false
      → sleep (backoff cfg.backoff_ms i) v ≡ (u, none)
      → judge cfg sleep fn i v code e ≡ (u, goes_on code)
  judge-transient i code v u none t b z = ground arith
  judge-transient i code v u (some e) t b z = ground arith

  pub Recovers-loop :
      (left last : ℕ) {i n : ℕ} {w w' : W}
      → Recovers i n w w'
      → left + i ≡ pos_part cfg.attempts
      → n < left
      → retry_loop cfg sleep fn left i last w ≡ (w', none)
  unfolding retry_loop retry_step
  Recovers-loop zero last r b c = absurd (omega arith)
  Recovers-loop (suc left) last (answers z s) b c = rw z (rw s refl)
  Recovers-loop (suc left) last (fails {i} {n} {code} {w} {v} {u} {w'} {e} z t p r) b c = rw z (
      rw (judge-transient i code v u e t (ground arith) p)
        (Recovers-loop left code r (omega arith) (omega arith)))

-- If the destination recovers after fewer failures than there are attempts, and nothing cancels the waits,
-- DoWithRetry returns no error. Each of the failures is to be one that is tried again: neither a success nor
-- an open circuit breaker, its code not among those of drop_on, and with an error or a code of backoff_on.
pub do_with_retry-recovers :
    {W : Type 0} (cfg : RetryConfig) (sleep : ℤ → W → W × Option GoError)
    (fn : W → W × ℕ × Option GoError) (n : ℕ) (w w' : W)
    → Recovers (default_retry_config cfg) sleep fn 0 n w w'
    → n < pos_part (default_retry_config cfg).attempts
    → do_with_retry cfg sleep fn w ≡ (w', none)
unfolding do_with_retry
do_with_retry-recovers cfg sleep fn n w w' r h =
    Recovers-loop (default_retry_config cfg) sleep fn (pos_part (default_retry_config cfg).attempts)
      0 r (omega arith) h
