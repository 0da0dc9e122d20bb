-- ===== src/Http/Retry/Backoff.antt =====
-- The waits between attempts.
use native.Mathlib.Nat.{one-le-pow, le-mul_of_pos_right, mod-eq_of_lt, mul-mod_left, two-pow-succ}
use vortara.Base.{
  ℕ, zero, suc, ◌+◌, ◌*◌, ◌^◌, ◌%◌, ◌≤◌, ◌<◌, ℤ, pos, negsuc, true, leb, if◌then◌else◌, ◌≡◌, refl,
  ap, ◌∙◌, arith,
}
use vortara.Http.Breaker.{at_least, of_bits, bits}
use vortara.Http.Retry.{backoff, capped, max_backoff}

capped_max : (z : ℤ) → at_least (pos max_backoff) (capped z) ≡ true
capped_max (pos n) = ground arith
capped_max (negsuc n) = refl

-- No wait is longer than 30 seconds, whatever is configured and however many attempts were made.
backoff_max : (ms : ℤ) (attempt : ℕ) → at_least (pos max_backoff) (backoff ms attempt) ≡ true
unfolding backoff
backoff_max ms attempt = capped_max (of_bits (bits ms * 1000000 * 2 ^ attempt % 2 ^ 64))

capped_small : (n : ℕ) → capped (pos n) ≡ pos (if leb n max_backoff then n else max_backoff)
capped_small n = ground arith

of_bits_small : (n : ℕ) → n < 2 ^ 63 → of_bits n ≡ pos n
of_bits_small n h = ground arith

factor_small : (ms p : ℕ) → 1 ≤ p → ms ≤ ms * 1000000 * p
factor_small ms p h = omega (arith, le-mul_of_pos_right (ms * 1000000) h)

-- Where the product fits in 63 bits, the wait is the configured one doubled at each attempt, up to 30
-- seconds.
pub backoff-exact :
    (ms attempt : ℕ)
    → ms * 1000000 * 2 ^ attempt < 2 ^ 63
    → backoff (pos ms) attempt
      ≡ pos (
          if leb (ms * 1000000 * 2 ^ attempt) max_backoff
          then ms * 1000000 * 2 ^ attempt
          else max_backoff)
unfolding backoff
backoff-exact ms attempt h =
    let p = ms * 1000000 * 2 ^ attempt in
    rw
      (
        mod-eq_of_lt {n = ms} {m = 2 ^ 64}
            (omega (arith, factor_small ms (2 ^ attempt) (one-le-pow attempt 2 (omega arith)))),
        mod-eq_of_lt {n = p} {m = 2 ^ 64} (omega arith),
        of_bits_small p h,
      )
      (capped_small p)

double : (n : ℕ) → 2 ^ suc n ≡ 2 ^ n + 2 ^ n
double n = two-pow-succ n

shift : (k : ℕ) → suc k + 58 ≡ suc (k + 58)
shift k = omega arith

pow_58 : (k : ℕ) → 2 ^ (k + 58) ≡ 2 ^ k * 288230376151711744
pow_58 zero = refl
pow_58 (suc k) = ap (λ n. 2 ^ n) (shift k) ∙ double (k + 58) ∙ omega (arith, double k, pow_58 k)

regroup : (b p : ℕ) → b * 1000000 * (p * 288230376151711744) ≡ b * 15625 * p * 18446744073709551616
regroup b p = omega arith

-- From the 59th wait on, which is that behind attempt 58 since the attempts count from 0, the product
-- overflows to 0 whatever is configured.
pub backoff-overflow : (ms : ℤ) (k : ℕ) → backoff ms (k + 58) ≡ pos 0
unfolding backoff
backoff-overflow ms k =
    rw (pow_58 k, regroup (bits ms) (2 ^ k), mul-mod_left (bits ms * 15625 * 2 ^ k) (2 ^ 64)) refl
