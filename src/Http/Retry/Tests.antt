-- ===== src/Http/Retry/Tests.antt =====
-- A server that answers with the codes of a list.
use vortara.Base.{ℕ, ℤ, pos, true, List, [], ◌∷◌, Option, none, some, ◌≡◌, refl, arith}
use vortara.Errors.{GoError, external, permanent_failure}
use vortara.Http.Retry.{RetryConfig, default_retry_config, do_with_retry, backoff, success}
use vortara.Http.Retry.Backoff.{backoff-overflow}
use vortara.Http.Retry.Calls.{do_with_retry-success}
use vortara.Http.Retry.Recovery.{Recovers, answers, fails, do_with_retry-recovers}

abbrev pub serve : List ℕ → List ℕ × ℕ × Option GoError
serve [] = ([], 0, some (external "EOF"))
serve (c ∷ cs) = (cs, c, none)

abbrev to_end : ℤ → List ℕ → List ℕ × Option GoError
to_end d w = (w, none)

abbrev pub four : RetryConfig
four = record { attempts = pos 4; backoff_ms = pos 200; backoff_on = []; drop_on = [] }

recovered : do_with_retry four to_end serve (503 ∷ 429 ∷ 200 ∷ 500 ∷ []) ≡ (500 ∷ [], none)
unfolding do_with_retry
recovered = refl

dropped :
    do_with_retry four to_end serve (503 ∷ 404 ∷ 200 ∷ [])
    ≡ (200 ∷ [], some (permanent_failure 404))
unfolding do_with_retry
dropped = refl

do_with_retry-success_example :
    (v : List ℕ) × (code : ℕ) × serve v ≡ (500 ∷ [], code, none) × success code ≡ true
do_with_retry-success_example =
    do_with_retry-success four to_end serve (503 ∷ 429 ∷ 200 ∷ 500 ∷ []) (500 ∷ []) recovered

two_failures : Recovers (default_retry_config four) to_end serve 0 2 (503 ∷ 429 ∷ 200 ∷ []) []
unfolding default_retry_config
two_failures = fails refl refl refl (fails refl refl refl (answers refl refl))

do_with_retry-recovers_example : do_with_retry four to_end serve (503 ∷ 429 ∷ 200 ∷ []) ≡ ([], none)
unfolding default_retry_config
do_with_retry-recovers_example =
    do_with_retry-recovers four to_end serve 2 (503 ∷ 429 ∷ 200 ∷ []) [] two_failures (omega arith)

backoff-overflow_example : backoff (pos 1000) 58 ≡ pos 0
backoff-overflow_example = backoff-overflow (pos 1000) 0
