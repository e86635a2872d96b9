-- ===== src/JobManager.antt =====
-- app/manager/job_manager.go: a job is written to the table first, and then put into the queue.
pub mod Create
use service_platform.Prelude.{
  ℕ, String, Bool, true, Option, none, some, List, str_eq, if◌then◌else◌,
}
use service_platform.Prelude.Outcome.{
  Err, text, wrap, Outcome, Call, Result, ok, err, ℤ, or_default,
}
use service_platform.Constant.{Status, pending}
use service_platform.Entity.{Fields, end, JobPayload, Job}
use service_platform.JobRepository.{create, get_by_id, get_jobs_by_status as rows_by_status}
use service_platform.JobRepository.Sql.{Engine}
use service_platform.RedisQueue.{enqueue}
use service_platform.RedisQueue.Server.{Codec, Redis}

pub record CreateJobRequest : Type 0 where
  pub type : String
  pub priority : ℤ
  pub payload : JobPayload
  pub max_attempts : ℤ
  pub scheduled_at : Option ℕ

-- What the program reads from outside while it creates a job: a new UUID, the clock, and the
-- answers of the two servers.
pub record CreateCalls : Type 0 where
  pub new_id : String
  pub now : ℕ
  pub insert : Outcome
  pub enqueue : Call

-- The two servers' states.
pub record Backend (W : Type 0) : Type 0 where
  pub jobs : List Job
  pub redis : Redis W

abbrev pub default_max_attempts : ℕ
default_max_attempts = 3

-- `if req.Payload == nil { req.Payload = make(…) }`
abbrev pub or_empty : JobPayload → JobPayload
or_empty none = some end
or_empty (some p) = some p

unfoldable pub new_job : CreateCalls → CreateJobRequest → Job
new_job c req = record {
  id = c.new_id;
  type = req.type;
  priority = req.priority;
  payload = or_empty req.payload;
  attempts = 0;
  max_attempts = or_default default_max_attempts req.max_attempts;
  created_at = c.now;
  updated_at = none;
  deleted_at = none;
  scheduled_at = req.scheduled_at;
  started_at = none;
  completed_at = none;
  status = pending;
  error = "";
}

abbrev pub created_or : Job → Option Err → Result Job
created_or j none = ok j
created_or j (some e) = err (wrap "failed to enqueue job: " e)

module _ (codec : Codec) where
  -- Behind the insertion: an error of it ends the call, and so does one of the queue, when the row
  -- is there already.
  unfoldable pub enqueue_created :
      CreateCalls → Job → Redis codec.Wire → List Job × Option Err → Backend codec.Wire × Result Job
  enqueue_created c j r (rows, some e) =
      (record { jobs = rows; redis = r }, err (wrap "failed to create job: " e))
  enqueue_created c j r (rows, none) =
      let (r', failed) = enqueue codec c.enqueue j r in
      (record { jobs = rows; redis = r' }, created_or j failed)

  unfoldable pub create_job :
      CreateCalls → CreateJobRequest → Backend codec.Wire → Backend codec.Wire × Result Job
  unfolding enqueue_created
  create_job c req b =
      if str_eq req.type ""
      then (b, err (text "job type is required"))
      else enqueue_created c (new_job c req) b.redis (create c.insert (new_job c req) b.jobs)

module _ (sql : Engine) where
  unfoldable pub get_job : Call → String → List Job → Result Job
  get_job = get_by_id sql

  unfoldable pub get_jobs_by_status : Call → Status → ℤ → List Job → Result (List Job)
  get_jobs_by_status c s limit = rows_by_status sql c s (or_default 50 limit)
