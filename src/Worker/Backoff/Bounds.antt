-- ===== src/Worker/Backoff/Bounds.antt =====
-- The delay between retries, before and after the product of two `int64` wraps.
use mathlib.Core.Path.{subst}
use native.Mathlib.Nat.{pow-le-pow_right}
use service_platform.Prelude.{
  ℕ, zero, suc, ◌+◌, ◌-◌, ◌*◌, ◌^◌, ◌≤◌, ◌<◌, ◌≡◌, refl, arith, ltb, if◌then◌else◌,
}
use service_platform.Worker.Backoff.{base_delay, max_delay, calculate_retry_delay}

-- The doubled delay with its cap, as a number without width.
abbrev pub capped_backoff : ℕ → ℕ
capped_backoff k = if ltb max_delay (2 ^ k * base_delay) then max_delay else 2 ^ k * base_delay

-- 2 ^ 28 times 30 seconds is the last product that an `int64` holds.
fits : (k : ℕ) → k ≤ 28 → 2 ^ k * base_delay < 2 ^ 63
fits k h = omega (arith, pow-le-pow_right {n = 2} (omega arith) h)

-- For 1 to 29 attempts the delay is 30 seconds, doubled with each attempt, and at most 10 minutes.
pub retry_delay_exact :
    (beyond : ℕ → ℕ) (attempts : ℕ)
    → 1 ≤ attempts
    → attempts ≤ 29
    → calculate_retry_delay beyond attempts ≡ capped_backoff (attempts - 1)
unfolding calculate_retry_delay
retry_delay_exact beyond zero low high = absurd (omega arith)
retry_delay_exact beyond (suc k) low high = ground (arith, fits k (omega arith))

vanishes : (beyond : ℕ → ℕ) (k : ℕ) → k ≤ 8 → calculate_retry_delay beyond (k + 55) ≡ 0
unfolding calculate_retry_delay
vanishes beyond zero h = refl
vanishes beyond (suc zero) h = refl
vanishes beyond (suc (suc zero)) h = refl
vanishes beyond (suc (suc (suc zero))) h = refl
vanishes beyond (suc (suc (suc (suc zero)))) h = refl
vanishes beyond (suc (suc (suc (suc (suc zero))))) h = refl
vanishes beyond (suc (suc (suc (suc (suc (suc zero)))))) h = refl
vanishes beyond (suc (suc (suc (suc (suc (suc (suc zero))))))) h = refl
vanishes beyond (suc (suc (suc (suc (suc (suc (suc (suc zero)))))))) h = refl
vanishes beyond (suc (suc (suc (suc (suc (suc (suc (suc (suc k))))))))) h = absurd (omega arith)

-- From 55 to 63 attempts the product is a multiple of 2 ^ 64, and the delay is 0.
pub retry_delay_vanishes :
    (beyond : ℕ → ℕ) (attempts : ℕ)
    → 55 ≤ attempts
    → attempts ≤ 63
    → calculate_retry_delay beyond attempts ≡ 0
retry_delay_vanishes beyond attempts low high =
    let e : attempts - 55 + 55 ≡ attempts = omega arith in
    subst (λ a. calculate_retry_delay beyond a ≡ 0) e
      (vanishes beyond (attempts - 55) (omega arith))
