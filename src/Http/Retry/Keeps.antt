-- ===== src/Http/Retry/Keeps.antt =====
-- What the calls of `fn` and the waits keep, DoWithRetry keeps; and where its cancellations come from.
use vortara.Base.{
  ℕ, zero, suc, ℤ, pos_part, true, Option, none, some, ◌≡◌, refl, ap, sym, ◌∙◌, subst, arith, inl,
  inr,
}
use vortara.Errors.{GoError, is_cancellation}
use vortara.Http.Retry.{
  RetryConfig, returns, judge, retry_step, retry_loop, do_with_retry, default_retry_config, backoff,
  pause, waited,
}
use vortara.Http.Retry.Calls.{after_cases}

waited-some :
    (code : ℕ) (o : Option GoError) (cause : GoError)
    → waited code o ≡ returns (some cause)
    → o ≡ some cause
waited-some code none cause h = ground arith
waited-some code (some e) cause h = ground arith

pair_of :
    {W : Type 0} {w : W} {e : Option GoError} (r : W × Option GoError)
    → r.0 ≡ w
    → r.1 ≡ e
    → r ≡ (w, e)
pair_of r a b = rw (a, b) refl

module _ {W : Type 0} (cfg : RetryConfig) (sleep : ℤ → W → W × Option GoError)
    (fn : W → W × ℕ × Option GoError) where
  module _ (P : W → Type 0) (sleeps : (d : ℤ) (w : W) → P w → P (sleep d w).0)
      (calls : (w : W) → P w → P (fn w).0) where
    judge_keeps :
        (i : ℕ) (w : W) (code : ℕ) (e : Option GoError) → P w → P (judge cfg sleep fn i w code e).0
    judge_keeps i w code e h = ground (arith, sleeps (backoff cfg.backoff_ms i) w h)

    step_keeps : (i : ℕ) (w : W) → P w → P (retry_step cfg sleep fn i w).0
    unfolding retry_step
    step_keeps i w h = judge_keeps i (fn w).0 (fn w).1 (fn w).2 (calls w h)

    pub retry_loop_keeps : (n i last : ℕ) (w : W) → P w → P (retry_loop cfg sleep fn n i last w).0
    unfolding retry_loop
    retry_loop_keeps zero i last w h = h
    retry_loop_keeps (suc n) i last w h =
        let (v, t) = retry_step cfg sleep fn i w in
        elim (after_cases sleep fn cfg (λ code. retry_loop cfg sleep fn n (suc i) code v) v t _
          refl) [
            | inl (e, g, z) ↦ subst (λ r. P r.0) z (step_keeps i w h)
            | inr (code, g, z) ↦
                subst (λ r. P r.0) z (retry_loop_keeps n (suc i) code v (step_keeps i w h))
          ]

  judge_cancels :
      (i : ℕ) (w : W) (code : ℕ) (e : Option GoError) (cause : GoError)
      → is_cancellation cause ≡ true
      → (judge cfg sleep fn i w code e).1 ≡ returns (some cause)
      → judge cfg sleep fn i w code e ≡ pause cfg sleep fn i code w
  judge_cancels i w code e cause c h = ground arith

  -- A cancellation that the loop returns is the answer of its last wait.
  pub loop_cancels :
      (n i last : ℕ) (w w' : W) (cause : GoError)
      → is_cancellation cause ≡ true
      → retry_loop cfg sleep fn n i last w ≡ (w', some cause)
      → (d : ℤ) × (v : W) × sleep d v ≡ (w', some cause)
  unfolding retry_loop retry_step
  loop_cancels zero i last w w' cause c h = ground arith
  loop_cancels (suc n) i last w w' cause c h =
      let (w1, code, e) = fn w in
      let (v, t) = judge cfg sleep fn i w1 code e in
      elim (after_cases sleep fn cfg (λ k. retry_loop cfg sleep fn n (suc i) k v) v t _ h) [
        | inr (k, g, z) ↦ loop_cancels n (suc i) k v w' cause c z
        | inl (e', g, z) ↦
            let z1 = judge_cancels i w1 code e cause c (g ∙ ap (λ p. returns p.1) z) in
            (
              backoff cfg.backoff_ms i,
              w1,
              pair_of (sleep (backoff cfg.backoff_ms i) w1)
                  (ap (λ r. r.0) (sym z1) ∙ ap (λ r. r.0) z)
                  (waited-some code _ cause (ap (λ r. r.1) (sym z1) ∙ g ∙ ap (λ r. returns r.1) z)),
            )
      ]

module _ {W : Type 0} (cfg : RetryConfig) (sleep : ℤ → W → W × Option GoError)
    (fn : W → W × ℕ × Option GoError) where
  pub do_with_retry_keeps :
      (P : W → Type 0)
      → ((d : ℤ) (w : W) → P w → P (sleep d w).0)
      → ((w : W) → P w → P (fn w).0)
      → (w : W) → P w
      → P (do_with_retry cfg sleep fn w).0
  unfolding do_with_retry
  do_with_retry_keeps P sleeps calls w h =
      let c = default_retry_config cfg in
      retry_loop_keeps c sleep fn P sleeps calls (pos_part c.attempts) 0 0 w h

  pub do_with_retry_cancels :
      (w w' : W) (cause : GoError)
      → is_cancellation cause ≡ true
      → do_with_retry cfg sleep fn w ≡ (w', some cause)
      → (d : ℤ) × (v : W) × sleep d v ≡ (w', some cause)
  unfolding do_with_retry
  do_with_retry_cancels w w' cause c h =
      let k = default_retry_config cfg in
      loop_cancels k sleep fn (pos_part k.attempts) 0 0 w w' cause c h
