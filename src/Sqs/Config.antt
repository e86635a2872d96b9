-- ===== src/Sqs/Config.antt =====
-- app/pkg/sqs/config.go, with durations in nanoseconds; and `CalculateRetryDelay` of
-- app/pkg/sqs/queue.go over it.
use service_platform.Prelude.{ℕ, zero, suc, ◌+◌, ◌*◌, ◌%◌, ◌^◌, String, Bool, ltb, if◌then◌else◌}
use service_platform.Prelude.Outcome.{ℤ, pos, negsuc}
use service_platform.Worker.Backoff.{pow_duration}

pub record PollingConfig : Type 0 where
  pub max_messages : ℕ
  pub wait_time_seconds : ℕ
  pub visibility_timeout_seconds : ℕ
  pub polling_interval : ℕ

pub record MessageConfig : Type 0 where
  pub max_retries : ℕ
  pub base_retry_delay : ℕ
  pub max_retry_delay : ℕ

pub record Config : Type 0 where
  pub region : String
  pub endpoint : String
  pub sqs_scheduled_job_queue : String
  pub polling : PollingConfig
  pub message : MessageConfig

abbrev pub default_config : Config
default_config = record {
  region = "us-east-1";
  endpoint = "";
  sqs_scheduled_job_queue = "";
  polling = record {
    max_messages = 10;
    wait_time_seconds = 20;
    visibility_timeout_seconds = 300;
    polling_interval = 1000000000;
  };
  message = record {
    max_retries = 3;
    base_retry_delay = 30000000000;
    max_retry_delay = 900000000000;
  };
}

-- `a < b` on the integers that two 64-bit patterns stand for.
abbrev pub signed_lt : ℕ → ℕ → Bool
signed_lt a b = ltb ((a + 2 ^ 63) % 2 ^ 64) ((b + 2 ^ 63) % 2 ^ 64)

-- `beyond` is what a conversion gives for a number that no `int64` represents.
unfoldable pub calculate_retry_delay : (ℕ → ℕ) → Config → ℤ → ℕ
unfolding pow_duration
calculate_retry_delay beyond c (negsuc n) = c.message.base_retry_delay
calculate_retry_delay beyond c (pos zero) = c.message.base_retry_delay
calculate_retry_delay beyond c (pos (suc k)) =
    let delay = c.message.base_retry_delay * pow_duration beyond (suc k) % 2 ^ 64 in
    if signed_lt c.message.max_retry_delay delay then c.message.max_retry_delay else delay
