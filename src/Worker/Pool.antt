-- ===== src/Worker/Pool.antt =====
-- app/pkg/worker/pool.go: what a worker does with a job, and the pool's counters. Time, the answers
-- of the servers and the outcome of a handler are arguments.
pub mod AllWork
pub mod Running
pub mod Stats
pub mod Process
use Prim.Native.String.{◌++◌ as append}
use service_platform.Prelude.{
  ℕ, ◌+◌, ◌-◌, String, Bool, true, false, Option, none, some, List, [], ◌∷◌, Assoc, insert, ltb,
  leb, if◌then◌else◌,
}
use service_platform.Prelude.Outcome.{Err, Outcome, Call, Result, ok, err}
use service_platform.Entity.{Job}
use service_platform.JobRepository.{
  update_job_to_processing, update_job_to_completed, update_job_to_failed, update_job_to_retrying,
}
use service_platform.RedisQueue.{
  get_priority_queues, dequeue, mark_processing, mark_completed, mark_failed, get_queue_depth,
}
use service_platform.RedisQueue.Server.{Codec, Redis}
use service_platform.Worker.Backoff.{calculate_retry_delay}
use service_platform.Worker.Registry.{JobHandler, JobHandlerRegistry, get_handler}

pub record PoolStats : Type 0 where
  pub total_workers : ℕ
  pub active_workers : ℕ
  pub processing_jobs : ℕ
  pub total_processed : ℕ
  pub total_failed : ℕ
  pub queue_depths : Assoc ℕ

-- The state that the workers share: the two servers and the counters.
pub record World (W : Type 0) : Type 0 where
  pub jobs : List Job
  pub redis : Redis W
  pub stats : PoolStats

unfoldable pub increment_active_workers : PoolStats → PoolStats
increment_active_workers s = record s {
  active_workers = s.active_workers + 1;
  processing_jobs = s.processing_jobs + 1;
}

unfoldable pub decrement_active_workers : PoolStats → PoolStats
decrement_active_workers s = record s {
  active_workers = if ltb 0 s.active_workers then s.active_workers - 1 else s.active_workers;
  processing_jobs = if ltb 0 s.processing_jobs then s.processing_jobs - 1 else s.processing_jobs;
}

unfoldable pub increment_total_processed : PoolStats → PoolStats
increment_total_processed s = record s { total_processed = s.total_processed + 1 }

unfoldable pub increment_total_failed : PoolStats → PoolStats
increment_total_failed s = record s { total_failed = s.total_failed + 1 }

-- What one run of `processJob` reads from outside, in the order of its calls.
pub record ProcessCalls : Type 0 where
  pub mark : Call  -- MarkProcessing
  pub start_time : ℕ
  pub start : Call  -- UpdateJobToProcessing
  pub completed_at : ℕ
  pub finish : Call  -- UpdateJobToCompleted, UpdateJobToFailed or UpdateJobToRetrying
  pub unmark : Call  -- MarkCompleted or MarkFailed

-- The outcome of the handler, an error if there is none.
unfoldable pub run_handler : JobHandlerRegistry → Job → Option String
run_handler registry j = elim (get_handler j.type registry) [
  | none ↦ some (append "no handler found for job type: " j.type)
  | some h ↦ h.handle j
]

module _ {W : Type 0} where
  -- An error of either server is only logged.
  unfoldable pub handle_job_success : ProcessCalls → Job → World W → World W
  handle_job_success c j w = record {
    jobs = (update_job_to_completed c.finish j.id c.completed_at w.jobs).0;
    redis = (mark_completed c.unmark.outcome j.id w.redis).0;
    stats = increment_total_processed w.stats;
  }

  module _ (beyond : ℕ → ℕ) where
    -- `jobEntity.Attempts++` counts the failure on the worker's copy of the job.
    unfoldable pub handle_job_failure : ProcessCalls → Job → String → World W → World W
    handle_job_failure c j msg w =
        let attempts = j.attempts + 1 in
        if leb j.max_attempts attempts
        then record {
          jobs = (update_job_to_failed c.finish j.id msg w.jobs).0;
          redis = (mark_failed c.unmark j.id 0 w.redis).0;
          stats = increment_total_failed w.stats;
        }
        else record {
          jobs = (update_job_to_retrying c.finish j.id msg w.jobs).0;
          redis = (mark_failed c.unmark j.id (calculate_retry_delay beyond attempts) w.redis).0;
          stats = increment_total_failed w.stats;
        }

    unfoldable pub finish_job : ProcessCalls → Job → Option String → World W → World W
    finish_job c j none w = handle_job_success c j w
    finish_job c j (some msg) w = handle_job_failure c j msg w

    -- A job that cannot be marked is given up; one whose row cannot be updated goes on.
    unfoldable pub process_marked :
        JobHandlerRegistry → ProcessCalls → Job → Option Err → World W → World W
    process_marked registry c j (some e) w = w
    process_marked registry c j none w =
        finish_job c j (run_handler registry j)
          (record w { jobs = (update_job_to_processing c.start j.id c.start_time w.jobs).0 })

    unfoldable pub process_job : JobHandlerRegistry → ProcessCalls → Job → World W → World W
    unfolding process_marked run_handler finish_job handle_job_success handle_job_failure
    process_job registry c j w =
        let (redis', marked) = mark_processing c.mark j.id w.redis in
        process_marked registry c j marked (record w { redis = redis' })

module _ (codec : Codec) (beyond : ℕ → ℕ) (registry : JobHandlerRegistry) where
  unfoldable pub handle_dequeued :
      ProcessCalls → Result (Option Job) → World codec.Wire → World codec.Wire
  handle_dequeued c (err e) w = w
  handle_dequeued c (ok none) w = w
  handle_dequeued c (ok (some j)) w =
      let busy = record w { stats = increment_active_workers w.stats } in
      let after = process_job beyond registry c j busy in
      record after { stats = decrement_active_workers after.stats }

  -- One round of the loop in `runWorker`.
  unfoldable pub worker_round : Outcome → ProcessCalls → World codec.Wire → World codec.Wire
  unfolding handle_dequeued
  worker_round o c w =
      let (redis', got) = dequeue codec o get_priority_queues w.redis in
      handle_dequeued c got (record w { redis = redis' })

  -- `runWorker`: one round for each entry, until the context is done at the end of the list.
  unfoldable pub run_worker : List (Outcome × ProcessCalls) → World codec.Wire → World codec.Wire
  run_worker [] w = w
  run_worker ((o, c) ∷ rounds) w = run_worker rounds (worker_round o c w)
