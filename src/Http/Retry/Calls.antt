-- ===== src/Http/Retry/Calls.antt =====
-- How often DoWithRetry calls `fn`, and what its result says about the calls.
use vortara.Base.{
  ℕ, zero, suc, ◌+◌, ◌≤◌, ℤ, pos_part, true, Option, none, some, ◌≡◌, refl, ap, sym, ◌∙◌, arith,
  inl, inr, ◌⊎◌,
}
use vortara.Errors.{GoError}
use vortara.Http.Retry.{
  RetryConfig, Turn, returns, goes_on, judge, retry_step, retry_loop, do_with_retry,
  default_retry_config, after, success,
}

Turn-cases : (t : Turn) → ((e : Option GoError) × t ≡ returns e) ⊎ ((code : ℕ) × t ≡ goes_on code)
Turn-cases (returns e) = inl (e, refl)
Turn-cases (goes_on code) = inr (code, refl)

module _ {W : Type 0} (sleep : ℤ → W → W × Option GoError) (fn : W → W × ℕ × Option GoError) where
  -- The same with a count of the calls of `fn` beside the state.
  abbrev pub counted_sleep : ℤ → W × ℕ → (W × ℕ) × Option GoError
  counted_sleep d (w, n) = let (w', e) = sleep d w in ((w', n), e)

  abbrev pub counted : W × ℕ → (W × ℕ) × ℕ × Option GoError
  counted (w, n) = let (w', code, e) = fn w in ((w', suc n), code, e)

  -- How a round's turn leads to the loop's result.
  pub after_cases :
      (cfg : RetryConfig) (again : ℕ → W × Option GoError) (v : W) (t : Turn)
      (r : W × Option GoError)
      → after cfg sleep fn again v t ≡ r
      → ((e : Option GoError) × t ≡ returns e × (v, e) ≡ r)
        ⊎ ((code : ℕ) × t ≡ goes_on code × again code ≡ r)
  after_cases cfg again v (returns e) r h = inl (e, refl, h)
  after_cases cfg again v (goes_on code) r h = inr (code, refl, h)

  step_count :
      (cfg : RetryConfig) (i : ℕ) (w : W × ℕ)
      → (retry_step cfg counted_sleep counted i w).0.1 ≡ suc w.1
  unfolding retry_step
  step_count cfg i w = ground arith

  loop_count :
      (cfg : RetryConfig) (n i last : ℕ) (w : W × ℕ)
      → (retry_loop cfg counted_sleep counted n i last w).0.1 ≤ w.1 + n
  unfolding retry_loop
  loop_count cfg zero i last w = omega arith
  loop_count cfg (suc n) i last w = elim (Turn-cases (retry_step cfg counted_sleep counted i w).1) [
    | inl (e, h) ↦ rw h (omega (arith, step_count cfg i w))
    | inr (code, h) ↦ rw h (
        omega (
          arith,
          step_count cfg i w,
          loop_count cfg n (suc i) code (retry_step cfg counted_sleep counted i w).0,
        ))
  ]

  loop_count_first :
      (cfg : RetryConfig) (n i last : ℕ) (w : W × ℕ)
      → w.1 ≤ (retry_loop cfg counted_sleep counted n i last w).0.1
  unfolding retry_loop
  loop_count_first cfg zero i last w = omega arith
  loop_count_first cfg (suc n) i last w =
      elim (Turn-cases (retry_step cfg counted_sleep counted i w).1) [
        | inl (e, h) ↦ rw h (omega (arith, step_count cfg i w))
        | inr (code, h) ↦ rw h (
            omega (
              arith,
              step_count cfg i w,
              loop_count_first cfg n (suc i) code (retry_step cfg counted_sleep counted i w).0,
            ))
      ]

  judge-success :
      (cfg : RetryConfig) (i : ℕ) (w : W) (code : ℕ) (e : Option GoError)
      → (judge cfg sleep fn i w code e).1 ≡ returns none
      → e ≡ none × success code ≡ true × (judge cfg sleep fn i w code e).0 ≡ w
  judge-success cfg i w code none h = ground arith
  judge-success cfg i w code (some e) h = ground arith

  judge_last :
      (cfg : RetryConfig) (i : ℕ) (w : W) (code last : ℕ) (e : Option GoError)
      → suc i ≡ pos_part cfg.attempts
      → ¬ ((judge cfg sleep fn i w code e).1 ≡ goes_on last)
  judge_last cfg i w code last e h k = ground arith

  -- What a successful round shows of the call that it made.
  step_success :
      (cfg : RetryConfig) (i : ℕ) (w : W)
      → (retry_step cfg sleep fn i w).1 ≡ returns none
      → (fn w).2 ≡ none × success (fn w).1 ≡ true × (retry_step cfg sleep fn i w).0 ≡ (fn w).0
  unfolding retry_step
  step_success cfg i w h = judge-success cfg i (fn w).0 (fn w).1 (fn w).2 h

  -- A round in which an attempt is left goes on or returns; the last one returns.
  step_last :
      (cfg : RetryConfig) (i code : ℕ) (w : W)
      → suc i ≡ pos_part cfg.attempts
      → ¬ ((retry_step cfg sleep fn i w).1 ≡ goes_on code)
  unfolding retry_step
  step_last cfg i code w h k = judge_last cfg i (fn w).0 (fn w).1 code (fn w).2 h k

  loop_success :
      (cfg : RetryConfig) (n i last : ℕ) (w w' : W)
      → retry_loop cfg sleep fn n i last w ≡ (w', none)
      → (v : W) × (code : ℕ) × fn v ≡ (w', code, none) × success code ≡ true
  unfolding retry_loop
  loop_success cfg zero i last w w' h = ground arith
  loop_success cfg (suc n) i last w w' h =
      let (v, t) = retry_step cfg sleep fn i w in
      elim (after_cases cfg (λ code. retry_loop cfg sleep fn n (suc i) code v) v t (w', none) h) [
        | inl (e, g, z) ↦
            let (a, b, c) = step_success cfg i w (g ∙ ap (λ p. returns p.1) z) in
            (w, (fn w).1, pair_of (fn w) (sym c ∙ ap (λ p. p.0) z) a, b)
        | inr (code, g, z) ↦ loop_success cfg n (suc i) code v w' z
      ]
    where
      pair_of : (r : W × ℕ × Option GoError) → r.0 ≡ w' → r.2 ≡ none → r ≡ (w', r.1, none)
      pair_of r a b = rw (a, b) refl

-- DoWithRetry calls `fn` at most as often as `attempts` says, which is 3 if it is configured as 0 and
-- never if it is negative.
do_with_retry-calls :
    {W : Type 0} (cfg : RetryConfig) (sleep : ℤ → W → W × Option GoError)
    (fn : W → W × ℕ × Option GoError) (w : W)
    → (do_with_retry cfg (counted_sleep sleep fn) (counted sleep fn) (w, 0)).0.1
      ≤ pos_part (default_retry_config cfg).attempts
unfolding do_with_retry
do_with_retry-calls cfg sleep fn w = omega (
  arith,
  loop_count sleep fn (default_retry_config cfg) (pos_part (default_retry_config cfg).attempts) 0 0
      (w, 0),
)

-- DoWithRetry returns no error only if its last call of `fn` returned no error and a code from 200 to
-- 299, and then it leaves the state as that call did.
pub do_with_retry-success :
    {W : Type 0} (cfg : RetryConfig) (sleep : ℤ → W → W × Option GoError)
    (fn : W → W × ℕ × Option GoError) (w w' : W)
    → do_with_retry cfg sleep fn w ≡ (w', none)
    → (v : W) × (code : ℕ) × fn v ≡ (w', code, none) × success code ≡ true
unfolding do_with_retry
do_with_retry-success cfg sleep fn w w' h =
    loop_success sleep fn (default_retry_config cfg) (pos_part (default_retry_config cfg).attempts)
      0 0 w w' h
