-- ===== src/Worker/Backoff.antt =====
-- `calculateRetryDelay` of app/pkg/worker/pool.go, in nanoseconds. A `time.Duration` is an `int64`,
-- given by its 64 bits, so the product wraps. What a conversion gives for a floating-point number
-- that no `int64` represents, Go leaves to the machine: it is an argument, `beyond`.
pub mod Bounds
use service_platform.Prelude.{ℕ, zero, suc, ◌*◌, ◌%◌, ◌^◌, ltb, if◌then◌else◌}

abbrev pub base_delay : ℕ
base_delay = 30000000000

abbrev pub max_delay : ℕ
max_delay = 600000000000

-- `time.Duration(math.Pow(2, float64(attempts-1)))`: one half is truncated to 0.
unfoldable pub pow_duration : (ℕ → ℕ) → ℕ → ℕ
pow_duration beyond zero = 0
pow_duration beyond (suc k) = if ltb k 63 then 2 ^ k else beyond k

-- `if backoff > maxDelay`, where a number from 2 ^ 63 on stands for a negative one.
unfoldable pub cap_delay : ℕ → ℕ
cap_delay d = if ltb d (2 ^ 63) then (if ltb max_delay d then max_delay else d) else d

unfoldable pub calculate_retry_delay : (ℕ → ℕ) → ℕ → ℕ
unfolding pow_duration cap_delay
calculate_retry_delay beyond attempts =
    cap_delay (pow_duration beyond attempts * base_delay % 2 ^ 64)
