-- ===== src/Worker/Scheduler.antt =====
-- app/service/worker_service.go: the retry scheduler, which every minute puts the failed jobs that
-- have attempts left back into the queue; and `collectQueueStats` of app/pkg/worker/pool.go.
use service_platform.Prelude.{ℕ, ◌-◌, String, none, some, List, [], ◌∷◌, insert}
use service_platform.Prelude.Outcome.{Outcome, Call, Result, ok, err}
use service_platform.Constant.{pending}
use service_platform.Entity.{Job}
use service_platform.JobRepository.{update_status, get_retryable_jobs}
use service_platform.JobRepository.Sql.{Engine}
use service_platform.RedisQueue.{enqueue, get_priority_queues, get_queue_depth}
use service_platform.RedisQueue.Server.{Codec, Redis}
use service_platform.Worker.Pool.{World, PoolStats}

-- The answers of the servers while one job is put back.
pub record RequeueCalls : Type 0 where
  pub update : Call
  pub enqueue : Call

abbrev pub retry_age : ℕ
retry_age = 300000000000

abbrev pub retry_limit : ℕ
retry_limit = 100

module _ (codec : Codec) where
  -- A job whose row cannot be updated is passed over.
  unfoldable pub requeue_job : RequeueCalls → Job → World codec.Wire → World codec.Wire
  requeue_job c j w =
      let (rows, failed) = update_status c.update j.id pending "" w.jobs in
      elim failed [
        | some e ↦ record w { jobs = rows }
        | none ↦ record w { jobs = rows; redis = (enqueue codec c.enqueue j w.redis).0 }
      ]

  unfoldable pub requeue_jobs :
      (Job → RequeueCalls) → List Job → World codec.Wire → World codec.Wire
  requeue_jobs calls [] w = w
  requeue_jobs calls (j ∷ js) w = requeue_jobs calls js (requeue_job (calls j) j w)

  abbrev pub requeue_found :
      (Job → RequeueCalls) → Result (List Job) → World codec.Wire → World codec.Wire
  requeue_found calls (err e) w = w
  requeue_found calls (ok js) w = requeue_jobs calls js w

  -- `processRetryableJobs`; the query is made at `c.at`.
  unfoldable pub process_retryable_jobs :
      Engine → Call → (Job → RequeueCalls) → World codec.Wire → World codec.Wire
  process_retryable_jobs sql c calls w =
      requeue_found calls (get_retryable_jobs sql c (c.at - retry_age) retry_limit w.jobs) w

abbrev record_depth : String → Result ℕ → PoolStats → PoolStats
record_depth queue (ok n) s = record s { queue_depths = insert queue n s.queue_depths }
record_depth queue (err e) s = s

module _ {W : Type 0} where
  -- The loop over the queues in `collectQueueStats`: a queue whose depth is not known is passed over.
  unfoldable pub collect_depths : (String → Outcome) → List String → Redis W → PoolStats → PoolStats
  collect_depths answers [] r s = s
  collect_depths answers (q ∷ qs) r s =
      collect_depths answers qs r (record_depth q (get_queue_depth (answers q) q r) s)

  unfoldable pub collect_queue_stats : (String → Outcome) → World W → World W
  collect_queue_stats answers w = record w {
    stats = collect_depths answers get_priority_queues w.redis w.stats;
  }
