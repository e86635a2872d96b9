-- ===== src/Constant.antt =====
-- The constants of app/database/constant: job statuses, priorities, job types and event types.
use service_platform.Prelude.{ℕ, String, Bool, true, false, str_eq, ◌==◌, ◌||◌, if◌then◌else◌}
use service_platform.Prelude.Outcome.{ℤ, pos, int_eq}
pub mod Role

-- A status is a text in the program; these are the texts that the program writes.
pub data Status : Type 0 where
  pending processing completed failed retrying : Status

abbrev status_index : Status → ℕ
status_index pending = 0
status_index processing = 1
status_index completed = 2
status_index failed = 3
status_index retrying = 4

-- `a == b` on statuses.
abbrev pub status_eq : Status → Status → Bool
status_eq a b = status_index a == status_index b

abbrev pub priority_low : ℤ
priority_low = pos 0

abbrev pub priority_normal : ℤ
priority_normal = pos 1

abbrev pub priority_high : ℤ
priority_high = pos 2

abbrev pub priority_critical : ℤ
priority_critical = pos 3

-- `Priority.String`
unfoldable pub priority_text : ℤ → String
priority_text p =
    if int_eq p priority_low
    then "low"
    else if int_eq p priority_normal
    then "normal"
    else if int_eq p priority_high
    then "high"
    else if int_eq p priority_critical
    then "critical"
    else "unknown"

abbrev pub init_claim : String
init_claim = "init_claim"

abbrev pub complete_claim : String
complete_claim = "complete_claim"

abbrev pub kyc_verification : String
kyc_verification = "kyc_verification"

abbrev pub claim_initiated : String
claim_initiated = "claim.initiated"

abbrev pub claim_completed : String
claim_completed = "claim.completed"

-- `EventType.ToJobType`
unfoldable pub to_job_type : String → String
to_job_type e =
    if str_eq e claim_initiated
    then init_claim
    else if str_eq e claim_completed
    then complete_claim
    else ""

-- `EventType.ToPriority`
unfoldable pub to_priority : String → ℤ
to_priority e =
    if str_eq e claim_initiated || str_eq e claim_completed then priority_high else priority_normal
