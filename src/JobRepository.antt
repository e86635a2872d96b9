-- ===== src/JobRepository.antt =====
-- app/database/repository/job_repository.go: the statements on the table `jobs`. A write is the
-- function that its SQL means on the list of rows; the server's answer is an argument, `Call`. How
-- the server picks and orders the rows of a SELECT is an argument too, `Engine`.
pub mod Sql
use service_platform.Prelude.{
  ℕ, ◌+◌, ◌<◌, String, Bool, true, false, not, ◌&&◌, Option, none, some, List, [], ◌∷◌, ◌++◌, map,
  length, any, update_rows, ltb, leb, ◌==◌, str_eq, if◌then◌else◌,
}
use service_platform.Prelude.Outcome.{
  int_eq, int_lt, Err, no_rows, unique_violation, Outcome, effect, failure, Call, Result, ok, err,
  reading,
}
use service_platform.Constant.{Status, pending, processing, completed, failed, retrying, status_eq}
use service_platform.Entity.{Job}
use Sql.{Engine, Query}

abbrev pub is_null : Option ℕ → Bool
is_null none = true
is_null (some t) = false

-- `Where("id = ?", id)`
abbrev pub has_id : String → Job → Bool
has_id id j = str_eq j.id id

-- `Where("id = ?", id).Where("deleted_at IS NULL")`
abbrev pub is_live_row : String → Job → Bool
is_live_row id j = has_id id j && is_null j.deleted_at

-- `.Set("error = ?", errorMsg)` behind `if errorMsg != ""`
abbrev pub set_error : String → Job → Job
set_error msg j = if str_eq msg "" then j else record j { error = msg }

-- The primary key refuses a second row with the same identifier.
unfoldable pub create : Outcome → Job → List Job → List Job × Option Err
create o j rows =
    if any (has_id j.id) rows
    then (rows, some unique_violation)
    else (effect o (λ rs. rs ++ j ∷ []) rows, failure o)

-- One UPDATE statement: its effect on the table, and the error that the program sees.
abbrev pub exec_update : Outcome → (Job → Bool) → (Job → Job) → List Job → List Job × Option Err
exec_update o p f rows = (effect o (update_rows p f) rows, failure o)

unfoldable pub update_status : Call → String → Status → String → List Job → List Job × Option Err
update_status c id s msg =
    exec_update c.outcome (is_live_row id)
      (λ j. set_error msg (record j { status = s; updated_at = some c.at }))

unfoldable pub update_start_time : Call → String → ℕ → List Job → List Job × Option Err
update_start_time c id t =
    exec_update c.outcome (is_live_row id)
      (λ j. record j { started_at = some t; updated_at = some c.at })

unfoldable pub update_complete_time : Call → String → ℕ → List Job → List Job × Option Err
update_complete_time c id t =
    exec_update c.outcome (has_id id)
      (λ j. record j { completed_at = some t; updated_at = some c.at })

unfoldable pub increment_attempts : Call → String → List Job → List Job × Option Err
increment_attempts c id =
    exec_update c.outcome (has_id id)
      (λ j. record j { attempts = j.attempts + 1; updated_at = some c.at })

unfoldable pub update_job_to_processing : Call → String → ℕ → List Job → List Job × Option Err
update_job_to_processing c id t =
    exec_update c.outcome (is_live_row id)
      (λ j. record j { status = processing; started_at = some t; updated_at = some c.at })

unfoldable pub update_job_to_completed : Call → String → ℕ → List Job → List Job × Option Err
update_job_to_completed c id t =
    exec_update c.outcome (is_live_row id)
      (λ j. record j { status = completed; completed_at = some t; updated_at = some c.at })

unfoldable pub update_job_to_failed : Call → String → String → List Job → List Job × Option Err
update_job_to_failed c id msg = exec_update c.outcome (is_live_row id) (λ j.
    set_error msg (record j { status = failed; attempts = j.attempts + 1; updated_at = some c.at }))

unfoldable pub update_job_to_retrying : Call → String → String → List Job → List Job × Option Err
update_job_to_retrying c id msg = exec_update c.outcome (is_live_row id) (λ j.
    set_error msg
      (record j { status = retrying; attempts = j.attempts + 1; updated_at = some c.at }))

-- `.Order("priority DESC")`, then a second key that decides between equal priorities.
abbrev by_priority_then : (Job → Job → Bool) → Job → Job → Bool
by_priority_then next a b =
    if int_eq a.priority b.priority then next a b else int_lt b.priority a.priority

-- A NULL comes last in ascending order.
abbrev time_le : Option ℕ → Option ℕ → Bool
time_le (some s) (some t) = leb s t
time_le none (some t) = false
time_le s none = true

abbrev before : ℕ → Option ℕ → Bool
before limit none = false
before limit (some t) = ltb t limit

abbrev is_due : ℕ → Option ℕ → Bool
is_due now none = true
is_due now (some t) = leb t now

unfoldable pub pending_query : ℕ → Query
pending_query now = record {
  picks = λ j. status_eq j.status pending && is_null j.deleted_at && is_due now j.scheduled_at;
  before = by_priority_then (λ a b. leb a.created_at b.created_at);
}

unfoldable pub status_query : Status → Query
status_query s = record {
  picks = λ j. status_eq j.status s && is_null j.deleted_at;
  before = λ a b. leb b.created_at a.created_at;
}

unfoldable pub retryable_query : ℕ → Query
retryable_query before_time = record {
  picks = λ j.
      status_eq j.status failed
      && ltb j.attempts j.max_attempts
      && is_null j.deleted_at
      && before before_time j.updated_at;
  before = by_priority_then (λ a b. time_le a.updated_at b.updated_at);
}

-- `Scan` into one model: the first row, or `sql.ErrNoRows`.
abbrev scan_one : List Job → Result Job
scan_one [] = err no_rows
scan_one (j ∷ js) = ok j

abbrev flatten {ℓ} : {A : Type ℓ} → Result (Result A) → Result A
flatten (ok r) = r
flatten (err e) = err e

abbrev id_query : String → Query
id_query id = record { picks = is_live_row id; before = λ a b. true }

module _ (sql : Engine) where
  open sql use {select}

  unfoldable pub get_by_id : Call → String → List Job → Result Job
  get_by_id c id rows =
      flatten (reading c.outcome (scan_one (select (id_query id) (length rows) rows)))

  unfoldable pub get_pending_jobs : Call → ℕ → List Job → Result (List Job)
  unfolding pending_query
  get_pending_jobs c limit rows = reading c.outcome (select (pending_query c.at) limit rows)

  unfoldable pub get_jobs_by_status : Call → Status → ℕ → List Job → Result (List Job)
  unfolding status_query
  get_jobs_by_status c s limit rows = reading c.outcome (select (status_query s) limit rows)

  unfoldable pub get_retryable_jobs : Call → ℕ → ℕ → List Job → Result (List Job)
  unfolding retryable_query
  get_retryable_jobs c before_time limit rows =
      reading c.outcome (select (retryable_query before_time) limit rows)
