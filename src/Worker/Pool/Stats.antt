-- ===== src/Worker/Pool/Stats.antt =====
-- The counters of the pool over the rounds of a worker.
use service_platform.Prelude.{ℕ, ◌+◌, ◌≤◌, ◌≡◌, arith, Option, none, some, List, [], ◌∷◌, length}
use service_platform.Prelude.Outcome.{Err, Outcome, Result, ok, err}
use service_platform.Entity.{Job}
use service_platform.RedisQueue.{dequeue, get_priority_queues, mark_processing}
use service_platform.RedisQueue.Server.{Codec}
use service_platform.Worker.Registry.{JobHandlerRegistry}
use service_platform.Worker.Pool.{
  PoolStats, World, ProcessCalls, increment_active_workers, decrement_active_workers,
  increment_total_processed, increment_total_failed, handle_job_success, handle_job_failure,
  run_handler, finish_job, process_marked, process_job, handle_dequeued, worker_round, run_worker,
}

-- What a job does to the counters: one more job processed or failed, or neither.
record Counts (s s' : PoolStats) : Type 0 where
  active : s'.active_workers ≡ s.active_workers
  processing : s'.processing_jobs ≡ s.processing_jobs
  total : s'.total_workers ≡ s.total_workers
  one_more : s'.total_processed + s'.total_failed ≤ s.total_processed + s.total_failed + 1

module _ {W : Type 0} (beyond : ℕ → ℕ) where
  finish_job-Counts :
      (c : ProcessCalls) (j : Job) (o : Option _) (w : World W)
      → Counts w.stats (finish_job beyond c j o w).stats
  unfolding finish_job handle_job_success handle_job_failure increment_total_processed
      increment_total_failed
  finish_job-Counts c j none w = omega arith
  finish_job-Counts c j (some msg) w = ground arith

  process_marked-Counts :
      (registry : JobHandlerRegistry) (c : ProcessCalls) (j : Job) (o : Option Err) (w : World W)
      → Counts w.stats (process_marked beyond registry c j o w).stats
  unfolding process_marked
  process_marked-Counts registry c j none w =
      finish_job-Counts c j (run_handler registry j) (record w { jobs = _ })
  process_marked-Counts registry c j (some e) w = omega arith

  process_job-Counts :
      (registry : JobHandlerRegistry) (c : ProcessCalls) (j : Job) (w : World W)
      → Counts w.stats (process_job beyond registry c j w).stats
  unfolding process_job
  process_job-Counts registry c j w =
      let (redis', marked) = mark_processing c.mark j.id w.redis in
      process_marked-Counts registry c j marked (record w { redis = redis' })

-- A counter that a round raises and lowers again.
decrement-increment :
    (s s' : PoolStats)
    → Counts (increment_active_workers s) s'
    → Counts s (decrement_active_workers s')
unfolding increment_active_workers decrement_active_workers
decrement-increment s s' h = ground arith

module _ (codec : Codec) (beyond : ℕ → ℕ) (registry : JobHandlerRegistry) where
  handle_dequeued-Counts :
      (c : ProcessCalls) (got : Result (Option Job)) (w : World codec.Wire)
      → Counts w.stats (handle_dequeued codec beyond registry c got w).stats
  unfolding handle_dequeued
  handle_dequeued-Counts c (err e) w = omega arith
  handle_dequeued-Counts c (ok none) w = omega arith
  handle_dequeued-Counts c (ok (some j)) w = decrement-increment w.stats _ (
      process_job-Counts beyond registry c j
        (record w { stats = increment_active_workers w.stats }))

  worker_round-Counts :
      (o : Outcome) (c : ProcessCalls) (w : World codec.Wire)
      → Counts w.stats (worker_round codec beyond registry o c w).stats
  unfolding worker_round
  worker_round-Counts o c w =
      let (redis', got) = dequeue codec o get_priority_queues w.redis in
      handle_dequeued-Counts c got (record w { redis = redis' })

  -- After any number of rounds of a worker the numbers of active workers, of jobs in processing and
  -- of workers are what they were, and no more jobs are counted as processed or failed than there
  -- were rounds.
  pub stats-run_worker :
      (rounds : List (Outcome × ProcessCalls)) (w : World codec.Wire)
      → let s' = (run_worker codec beyond registry rounds w).stats in
        (s'.active_workers ≡ w.stats.active_workers)
        × (s'.processing_jobs ≡ w.stats.processing_jobs)
        × (s'.total_workers ≡ w.stats.total_workers)
        × (s'.total_processed + s'.total_failed
            ≤ w.stats.total_processed + w.stats.total_failed + length rounds)
  unfolding run_worker
  stats-run_worker [] w = omega arith
  stats-run_worker ((o, c) ∷ rounds) w = omega (
    arith,
    worker_round-Counts o c w,
    stats-run_worker rounds (worker_round codec beyond registry o c w),
  )
