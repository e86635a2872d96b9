-- ===== src/Worker/System.antt =====
-- The job system as it runs: the API creates jobs, workers take and process them, the scheduler
-- and the collector of the counters tick, in any order and with any answers of the servers.
use service_platform.Prelude.{ℕ, String, ◌≡◌, []}
use service_platform.Prelude.Outcome.{Outcome, Call}
use service_platform.Entity.{Job}
use service_platform.JobRepository.Sql.{Engine}
use service_platform.JobManager.{CreateJobRequest, CreateCalls, Backend, create_job}
use service_platform.RedisQueue.{queue_key}
use service_platform.RedisQueue.Server.{Codec}
use service_platform.Worker.Pool.{World, ProcessCalls, worker_round}
use service_platform.Worker.Registry.{JobHandlerRegistry}
use service_platform.Worker.Scheduler.{RequeueCalls, process_retryable_jobs, collect_queue_stats}

abbrev pub backend_of : {W : Type 0} → World W → Backend W
backend_of w = record { jobs = w.jobs; redis = w.redis }

abbrev pub with_backend : {W : Type 0} → World W → Backend W → World W
with_backend w b = record w { jobs = b.jobs; redis = b.redis }

module _ (codec : Codec) (sql : Engine) (beyond : ℕ → ℕ) (registry : JobHandlerRegistry) where
  pub data Step (w : World codec.Wire) : World codec.Wire → Type 0 where
    created :
        (c : CreateCalls) (req : CreateJobRequest)
        → Step w (with_backend w (create_job codec c req (backend_of w)).0)
    worked : (o : Outcome) (c : ProcessCalls) → Step w (worker_round codec beyond registry o c w)
    scheduled :
        (c : Call) (calls : Job → RequeueCalls)
        → Step w (process_retryable_jobs codec sql c calls w)
    collected : (answers : String → Outcome) → Step w (collect_queue_stats answers w)

  -- The program starts with no job, neither in the table nor in the queue.
  pub record IsFresh (w : World codec.Wire) : Type 0 where
    pub no_rows : w.jobs ≡ []
    pub no_entries : w.redis.lists queue_key ≡ []

  pub data Reach (s : World codec.Wire) : World codec.Wire → Type 0 where
    here : Reach s s
    next : {t u : World codec.Wire} → Reach s t → Step t u → Reach s u
