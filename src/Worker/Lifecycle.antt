-- ===== src/Worker/Lifecycle.antt =====
-- A job's way through app/manager/job_manager.go, app/pkg/queue/queue.go and app/pkg/worker/pool.go,
-- statement by statement: any number of requests and workers at once, each of which has done one
-- statement on the table or on the queue and has the next one before it. Marking a job in the
-- sorted sets after its row's last update is one step with that update.
pub mod Touches
pub mod Entries
pub mod Held
pub mod Pops
pub mod Creation
pub mod Pushes
pub mod Steps
pub mod Ended
pub mod Rounds
use service_platform.Prelude.{
  ℕ, String, ◌≡◌, Option, none, some, List, [], ◌∷◌, str_eq, if◌then◌else◌,
}
use service_platform.Prelude.Outcome.{Err, Outcome, Call, Result, ok, err}
use service_platform.Entity.{Job}
use service_platform.JobRepository.{create, update_job_to_processing}
use service_platform.JobRepository.Sql.{Engine}
use service_platform.JobManager.{CreateJobRequest, CreateCalls, new_job}
use service_platform.RedisQueue.{queue_key, get_priority_queues, enqueue, dequeue, mark_processing}
use service_platform.RedisQueue.Server.{Codec, Redis}
use service_platform.Worker.Pool.{
  World, ProcessCalls, increment_active_workers, decrement_active_workers, finish_job, run_handler,
}
use service_platform.Worker.Registry.{JobHandlerRegistry}
use service_platform.Worker.Scheduler.{RequeueCalls, process_retryable_jobs, collect_queue_stats}

-- What a request or a worker has in hand between two of its statements.
pub data Task : Type 0 where
  inserted : CreateCalls → Job → Task  -- `CreateJob` before `Enqueue`
  taken : Job → Task  -- `runWorker` after `Dequeue`
  marked : Job → Task  -- `processJob` after `MarkProcessing`
  started : Job → Task  -- `processJob` after `UpdateJobToProcessing`

abbrev pub task_job : Task → Job
task_job (inserted c j) = j
task_job (taken j) = j
task_job (marked j) = j
task_job (started j) = j

pub record Running (W : Type 0) : Type 0 where
  pub world : World W
  pub tasks : List Task

-- One task of the list, and the others.
pub data Picked (t : Task) : List Task → List Task → Type 0 where
  first : {ts : List Task} → Picked t (t ∷ ts) ts
  behind : {u : Task} {ts rest : List Task} → Picked t ts rest → Picked t (u ∷ ts) (u ∷ rest)

module _ {W : Type 0} where
  unfoldable pub insert_answered : CreateCalls → Job → Running W → List Job × Option Err → Running W
  insert_answered c j s (rows, some e) = record s { world = record s.world { jobs = rows } }
  insert_answered c j s (rows, none) = record {
    world = record s.world { jobs = rows };
    tasks = inserted c j ∷ s.tasks;
  }

  -- `CreateJob` up to the answer of `Create`.
  unfoldable pub insert_job : CreateCalls → CreateJobRequest → Running W → Running W
  insert_job c req s =
      if str_eq req.type ""
      then s
      else insert_answered c (new_job c req) s (create c.insert (new_job c req) s.world.jobs)

  unfoldable pub mark_answered : Job → World W → List Task → Redis W × Option Err → Running W
  mark_answered j w rest (r, some e) = record {
    world = record w { redis = r; stats = decrement_active_workers w.stats };
    tasks = rest;
  }
  mark_answered j w rest (r, none) = record {
    world = record w { redis = r };
    tasks = marked j ∷ rest;
  }

  -- `MarkProcessing`: a job that cannot be marked is given up.
  unfoldable pub mark_taken : Call → Job → World W → List Task → Running W
  mark_taken c j w rest = mark_answered j w rest (mark_processing c j.id w.redis)

  -- `UpdateJobToProcessing`, whose error is only logged.
  unfoldable pub start_marked : ProcessCalls → Job → World W → List Task → Running W
  start_marked c j w rest = record {
    world = record w { jobs = (update_job_to_processing c.start j.id c.start_time w.jobs).0 };
    tasks = started j ∷ rest;
  }

  -- The handler's outcome is written down, and the worker is free again.
  unfoldable pub finish_started :
      (ℕ → ℕ) → JobHandlerRegistry → ProcessCalls → Job → World W → List Task → Running W
  finish_started beyond registry c j w rest =
      let after = finish_job beyond c j (run_handler registry j) w in
      record { world = record after { stats = decrement_active_workers after.stats }; tasks = rest }

module _ (codec : Codec) where
  -- The rest of `CreateJob`, whose answer to the client is left out.
  unfoldable pub enqueue_inserted :
      CreateCalls → Job → World codec.Wire → List Task → Running codec.Wire
  enqueue_inserted c j w rest = record {
    world = record w { redis = (enqueue codec c.enqueue j w.redis).0 };
    tasks = rest;
  }

  unfoldable pub pop_answered :
      Running codec.Wire → Redis codec.Wire × Result (Option Job) → Running codec.Wire
  pop_answered s (r, err e) = record s { world = record s.world { redis = r } }
  pop_answered s (r, ok none) = record s { world = record s.world { redis = r } }
  pop_answered s (r, ok (some j)) = record {
    world = record s.world { redis = r; stats = increment_active_workers s.world.stats };
    tasks = taken j ∷ s.tasks;
  }

  -- A free worker's `Dequeue`.
  unfoldable pub pop_entry : Outcome → Running codec.Wire → Running codec.Wire
  pop_entry o s = pop_answered s (dequeue codec o get_priority_queues s.world.redis)

module _ (codec : Codec) (sql : Engine) (beyond : ℕ → ℕ) (registry : JobHandlerRegistry) where
  pub data Step (s : Running codec.Wire) : Running codec.Wire → Type 0 where
    inserts : (c : CreateCalls) (req : CreateJobRequest) → Step s (insert_job c req s)
    enqueues :
        (c : CreateCalls) (j : Job) {rest : List Task}
        → Picked (inserted c j) s.tasks rest
        → Step s (enqueue_inserted codec c j s.world rest)
    pops : (o : Outcome) → Step s (pop_entry codec o s)
    marks :
        (c : Call) (j : Job) {rest : List Task}
        → Picked (taken j) s.tasks rest
        → Step s (mark_taken c j s.world rest)
    starts :
        (c : ProcessCalls) (j : Job) {rest : List Task}
        → Picked (marked j) s.tasks rest
        → Step s (start_marked c j s.world rest)
    finishes :
        (c : ProcessCalls) (j : Job) {rest : List Task}
        → Picked (started j) s.tasks rest
        → Step s (finish_started beyond registry c j s.world rest)
    schedules :
        (c : Call) (calls : Job → RequeueCalls)
        → Step s (record s { world = process_retryable_jobs codec sql c calls s.world })
    collects :
        (answers : String → Outcome)
        → Step s (record s { world = collect_queue_stats answers s.world })

  -- The program starts with no job in the table or in the queue, and nothing under way.
  pub record IsFresh (s : Running codec.Wire) : Type 0 where
    pub no_rows : s.world.jobs ≡ []
    pub no_entries : s.world.redis.lists queue_key ≡ []
    pub no_tasks : s.tasks ≡ []

  pub data Reach (s : Running codec.Wire) : Running codec.Wire → Type 0 where
    here : Reach s s
    next : {t u : Running codec.Wire} → Reach s t → Step t u → Reach s u
