-- ===== src/Tests/LifecycleTests.antt =====
-- A job's way through the system at concrete inputs.
use service_platform.Prelude.{ℕ, ◌≡◌, refl, none, [], ◌∷◌, All, map}
use service_platform.Prelude.Outcome.{done, pos}
use service_platform.Entity.{Job}
use service_platform.JobManager.{CreateJobRequest, CreateCalls, new_job}
use service_platform.RedisQueue.{queue_key}
use service_platform.RedisQueue.Fifo.{waiting}
use service_platform.Worker.Registry.{worker_registry}
use service_platform.Worker.Pool.{World, run_worker}
use service_platform.Worker.Pool.Process.{Answered}
use service_platform.Worker.System
use service_platform.Worker.System.{IsFresh, Reach, created, worked}
use service_platform.Worker.Lifecycle
use service_platform.Worker.Lifecycle.{
  Running, first, behind, inserts, enqueues, pops, marks, starts, finishes, here, next,
}
use service_platform.Constant.{pending, processing, retrying}
use service_platform.Worker.Lifecycle.Touches.{EndedStays}
use service_platform.Worker.Lifecycle.Held.{OneHolder}
use service_platform.Worker.Lifecycle.Ended.{ended_final}
use service_platform.Worker.Drain.{rounds_of, EntryIsDone, run_worker-drains}
use service_platform.Tests.Servers.{
  plain, plain-RoundTrips, first_rows, at_time, answered, fresh_world,
}

abbrev beyond : ℕ → ℕ
beyond k = 0

abbrev request : CreateJobRequest
request = record {
  type = "unknown_type";
  priority = pos 2;
  payload = none;
  max_attempts = pos 2;
  scheduled_at = none;
}

abbrev creation : CreateCalls
creation = record { new_id = "job-1"; now = 1; insert = done; enqueue = at_time 2 }

abbrev second_creation : CreateCalls
second_creation = record creation { new_id = "job-2" }

fresh_world-IsFresh : IsFresh plain first_rows beyond worker_registry fresh_world
fresh_world-IsFresh = record { no_rows = refl; no_entries = refl }

-- Two jobs are created.
abbrev two_jobs : (w : World Job) × Reach plain first_rows beyond worker_registry fresh_world w
two_jobs = (
  _,
  System.next (System.next System.here (created creation request))
      (created second_creation request),
)

answered-Answered : Answered answered
answered-Answered = record { mark = refl; start = refl; finish = refl; unmark = refl }

-- The same statement by statement: both rows are inserted before either job is in the queue, and two
-- workers take the jobs before either marks its own.
abbrev fresh : Running Job
fresh = record { world = fresh_world; tasks = [] }

fresh-IsFresh : Lifecycle.IsFresh plain first_rows beyond worker_registry fresh
fresh-IsFresh = record { no_rows = refl; no_entries = refl; no_tasks = refl }

abbrev Runs : Running Job → Running Job → Type 0
Runs = Lifecycle.Reach plain first_rows beyond worker_registry

abbrev first_job : Job
first_job = new_job creation request

abbrev second_job : Job
second_job = new_job second_creation request

abbrev queued : (s : Running Job) × Runs fresh s
unfolding Lifecycle.insert_job Lifecycle.insert_answered Lifecycle.enqueue_inserted
    service_platform.JobRepository.create service_platform.JobManager.new_job
queued =
    let inserted : (s : Running Job) × Runs fresh s =
      (_, next (next here (inserts creation request)) (inserts second_creation request)) in
    let one : (s : Running Job) × Runs fresh s =
      (_, next inserted.1 (enqueues creation first_job (behind first))) in
    (_, next one.1 (enqueues second_creation second_job first))

-- Two workers take the jobs, and the first job's worker has done with it.
abbrev first_ended : (s : Running Job) × Runs fresh s
unfolding Lifecycle.insert_job Lifecycle.insert_answered Lifecycle.enqueue_inserted
    Lifecycle.pop_entry Lifecycle.pop_answered Lifecycle.mark_taken Lifecycle.mark_answered
    Lifecycle.start_marked Lifecycle.finish_started service_platform.JobRepository.create
    service_platform.JobManager.new_job service_platform.RedisQueue.enqueue
    service_platform.RedisQueue.Server.lpush service_platform.RedisQueue.dequeue
    service_platform.RedisQueue.Server.brpop service_platform.RedisQueue.mark_processing
    service_platform.RedisQueue.get_priority_queues service_platform.RedisQueue.Server.split_last
first_ended =
    let popped : (s : Running Job) × Runs fresh s =
      (_, next (next queued.1 (pops done)) (pops done)) in
    let marked : (s : Running Job) × Runs fresh s =
      (_, next popped.1 (marks (at_time 1) first_job (behind first))) in
    let started : (s : Running Job) × Runs fresh s =
      (_, next marked.1 (starts answered first_job first)) in
    (_, next started.1 (finishes answered first_job first))

-- Then the other worker starts the second job.
abbrev second_started : (s : Running Job) × Runs first_ended.0 s
unfolding Lifecycle.insert_job Lifecycle.insert_answered Lifecycle.enqueue_inserted
    Lifecycle.pop_entry Lifecycle.pop_answered Lifecycle.mark_taken Lifecycle.mark_answered
    Lifecycle.start_marked Lifecycle.finish_started service_platform.JobRepository.create
    service_platform.JobManager.new_job service_platform.RedisQueue.enqueue
    service_platform.RedisQueue.Server.lpush service_platform.RedisQueue.dequeue
    service_platform.RedisQueue.Server.brpop service_platform.RedisQueue.mark_processing
    service_platform.RedisQueue.get_priority_queues service_platform.RedisQueue.Server.split_last
second_started =
    let marked : (s : Running Job) × Runs first_ended.0 s =
      (_, next here (marks (at_time 7) second_job first)) in
    (_, next marked.1 (starts answered second_job first))

statuses_then :
    (map (λ j. j.status) first_ended.0.world.jobs ≡ retrying ∷ pending ∷ [])
    × (map (λ j. j.status) second_started.0.world.jobs ≡ retrying ∷ processing ∷ [])
unfolding Lifecycle.insert_job Lifecycle.insert_answered Lifecycle.enqueue_inserted
    Lifecycle.pop_entry Lifecycle.pop_answered Lifecycle.mark_taken Lifecycle.mark_answered
    Lifecycle.start_marked Lifecycle.finish_started service_platform.JobRepository.create
    service_platform.JobManager.new_job service_platform.RedisQueue.enqueue
    service_platform.RedisQueue.Server.lpush service_platform.RedisQueue.dequeue
    service_platform.RedisQueue.Server.brpop service_platform.RedisQueue.mark_processing
    service_platform.RedisQueue.get_priority_queues service_platform.RedisQueue.Server.split_last
    service_platform.Worker.Pool.finish_job service_platform.Worker.Pool.run_handler
    service_platform.Worker.Registry.get_handler service_platform.Prelude.lookup worker_registry
    service_platform.Prelude.insert service_platform.Worker.Pool.handle_job_failure
    service_platform.JobRepository.update_job_to_retrying service_platform.Prelude.update_rows
    service_platform.JobRepository.update_job_to_processing
statuses_then = (refl, refl)

ended_final_example :
    EndedStays first_ended.0.world.jobs second_started.0.world.jobs
    × OneHolder plain second_started.0.world.jobs
        (second_started.0.world.redis.lists queue_key)
        second_started.0.tasks
ended_final_example =
    ended_final plain first_rows beyond worker_registry plain-RoundTrips fresh-IsFresh first_ended.1
      second_started.1

-- A worker's whole round behind both creations.
abbrev one_taken : (w : World Job) × Reach plain first_rows beyond worker_registry fresh_world w
one_taken = (_, System.next two_jobs.1 (worked done answered))

run_worker-drains_example :
    let w' =
      run_worker plain beyond worker_registry
        (rounds_of plain beyond worker_registry (answered ∷ answered ∷ []))
        two_jobs.0 in
    (waiting w'.redis ≡ [])
    × All (EntryIsDone plain beyond worker_registry w') (waiting two_jobs.0.redis)
unfolding service_platform.JobManager.create_job service_platform.JobRepository.create
    service_platform.JobManager.new_job service_platform.RedisQueue.enqueue
    service_platform.RedisQueue.Server.lpush
run_worker-drains_example =
    run_worker-drains plain beyond worker_registry first_rows plain-RoundTrips
      (answered ∷ answered ∷ []) fresh_world-IsFresh two_jobs.1
      (answered-Answered, (answered-Answered, tt)) refl
