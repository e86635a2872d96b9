-- ===== src/Tests/WorkerTests.antt =====
-- The job system at concrete inputs.
use service_platform.Prelude.{update_rows, ℕ, ◌+◌, ◌≤◌, ◌≡◌, refl, arith, none, some, [], ◌∷◌}
use service_platform.Prelude.Outcome.{done, ok, pos}
use service_platform.Entity.{Job}
use service_platform.JobRepository.{is_live_row}
use service_platform.JobManager.{CreateJobRequest, CreateCalls}
use service_platform.RedisQueue.Fifo.{enqueue_all, dequeue_all, fifo}
use service_platform.Worker.Backoff.{calculate_retry_delay}
use service_platform.Worker.Backoff.Bounds.{capped_backoff, retry_delay_exact, retry_delay_vanishes}
use service_platform.Worker.Registry.{worker_registry}
use service_platform.Worker.Pool.{World, run_handler, process_job, run_worker}
use service_platform.Worker.Pool.Process.{
  Answered, processed_row, MarksOf, jobs-process_job, marks-process_job,
}
use service_platform.Worker.Scheduler.{RequeueCalls, process_retryable_jobs}
use service_platform.Worker.System.{IsFresh, Reach, here, next, created, worked}
use service_platform.Worker.Pool.Stats.{stats-run_worker}
use service_platform.Worker.Retry.Invariant.{RetryInv}
use service_platform.Worker.Retry.Never.{Reach-RetryInv, scheduler_never_requeues}
use service_platform.Tests.Servers.{
  plain, plain-RoundTrips, first_rows, at_time, answered, empty_redis, fresh_world, claim,
}

abbrev beyond : ℕ → ℕ
beyond k = 0

abbrev request : CreateJobRequest
request = record {
  type = "unknown_type";
  priority = pos 2;
  payload = none;
  max_attempts = pos 2;
  scheduled_at = none;
}

abbrev creation : CreateCalls
creation = record { new_id = "job-1"; now = 1; insert = done; enqueue = at_time 2 }

abbrev requeue : Job → RequeueCalls
requeue j = record { update = at_time 8; enqueue = at_time 9 }

fresh_world-IsFresh : IsFresh plain first_rows beyond worker_registry fresh_world
fresh_world-IsFresh = record { no_rows = refl; no_entries = refl }

-- A job is created, and a worker takes it and finds no handler for it.
tried : (w : World Job) × Reach plain first_rows beyond worker_registry fresh_world w
tried = (_, next (next here (created creation request)) (worked done answered))

Reach-RetryInv_example : RetryInv plain tried.0
Reach-RetryInv_example =
    Reach-RetryInv plain first_rows beyond worker_registry plain-RoundTrips fresh_world-IsFresh
      tried.1

scheduler_never_requeues_example :
    process_retryable_jobs plain first_rows (at_time 1000000000000) requeue tried.0 ≡ tried.0
scheduler_never_requeues_example =
    scheduler_never_requeues plain first_rows beyond worker_registry plain-RoundTrips
      (at_time 1000000000000) requeue fresh_world-IsFresh tried.1

answered-Answered : Answered answered
answered-Answered = record { mark = refl; start = refl; finish = refl; unmark = refl }

abbrev waiting_world : World Job
waiting_world = record fresh_world { jobs = claim ∷ [] }

jobs-process_job_example :
    (process_job beyond worker_registry answered claim waiting_world).jobs
    ≡ update_rows
        (is_live_row "job-1")
        (processed_row answered claim (run_handler worker_registry claim))
        (claim ∷ [])
jobs-process_job_example =
    jobs-process_job beyond worker_registry answered claim waiting_world answered-Answered

marks-process_job_example :
    MarksOf beyond answered claim
      (run_handler worker_registry claim)
      waiting_world
      (process_job beyond worker_registry answered claim waiting_world)
marks-process_job_example =
    marks-process_job beyond worker_registry answered claim waiting_world answered-Answered

fifo_example :
    dequeue_all plain 2
      (enqueue_all plain ((1, claim) ∷ (2, record claim { id = "job-2" }) ∷ []) empty_redis)
    ≡ ok (some claim) ∷ ok (some (record claim { id = "job-2" })) ∷ []
fifo_example =
    fifo plain plain-RoundTrips ((1, claim) ∷ (2, record claim { id = "job-2" }) ∷ []) empty_redis
      ((claim, refl), ((record claim { id = "job-2" }, refl), tt)) refl

retry_delay_exact_example : calculate_retry_delay beyond 3 ≡ capped_backoff 2
retry_delay_exact_example = retry_delay_exact beyond 3 (omega arith) (omega arith)

retry_delay_vanishes_example : calculate_retry_delay beyond 60 ≡ 0
retry_delay_vanishes_example = retry_delay_vanishes beyond 60 (omega arith) (omega arith)

stats-run_worker_example :
    let s' =
      (run_worker plain beyond worker_registry
        ((done, answered) ∷ (done, answered) ∷ [])
        tried.0).stats in
    (s'.active_workers ≡ tried.0.stats.active_workers)
    × (s'.processing_jobs ≡ tried.0.stats.processing_jobs)
    × (s'.total_workers ≡ tried.0.stats.total_workers)
    × (s'.total_processed + s'.total_failed
        ≤ tried.0.stats.total_processed + tried.0.stats.total_failed + 2)
stats-run_worker_example =
    stats-run_worker plain beyond worker_registry ((done, answered) ∷ (done, answered) ∷ []) tried.0
