-- ===== src/Worker/Client.antt =====
-- app/pkg/worker/client.go and app/pkg/worker/scheduler.go: background jobs on a gocron scheduler,
-- which is an argument.
pub mod Agrees
use service_platform.Prelude.{
  ℕ, ◌+◌, String, Bool, Option, none, some, List, [], ◌∷◌, ◌++◌, Assoc, lookup, insert,
}
use Prim.Native.String.{◌++◌ as append}
use service_platform.Prelude.Outcome.{Err, text}
use service_platform.Worker.JobPool.{
  JobPool, new_job_pool, new_job, is_job_valid as pool_is_job_valid, stop_job as pool_stop_job,
  stop_all_jobs as pool_stop_all_jobs,
}

-- When gocron runs a job.
pub data JobDefinition : Type 0 where
  one_time_immediately : JobDefinition
  one_time_at : ℕ → JobDefinition
  duration : ℕ → JobDefinition

-- The options that the client adds to those of its caller.
pub data JobOption : Type 0 where
  with_identifier : String → JobOption
  with_name : String → JobOption
  with_distributed_job_locker : JobOption

-- A task is called with the context of its job and the arguments of its caller.
pub record Task (F A : Type 0) : Type 0 where
  pub func : F
  pub context : ℕ
  pub args : List A

-- gocron's scheduler, with states `S`.
pub record Cron (S F A : Type 0) : Type 0 where
  pub new_job : JobDefinition → Task F A → List JobOption → S → S × Option Err
  pub remove_job : String → S → S × Option Err
  pub stop_jobs : S → S

-- `DefaultScheduler` and the fields of `DefaultClient` that change.
pub record DefaultClient (S F : Type 0) : Type 0 where
  pub cron : S
  pub task_list : Assoc F
  pub job_pool : JobPool

module _ {S F : Type 0} where
  -- `ImportTasks`, along the entries of the map.
  unfoldable pub import_tasks : Assoc F → DefaultClient S F → DefaultClient S F
  import_tasks [] d = d
  import_tasks ((name, f) ∷ fs) d =
      import_tasks fs (record d { task_list = insert name f d.task_list })

  unfoldable pub get_task : String → DefaultClient S F → Option F
  get_task name d = lookup name d.task_list

  unfoldable pub is_job_valid : String → DefaultClient S F → Bool
  is_job_valid id d = pool_is_job_valid id d.job_pool

  module _ {A : Type 0} (gocron : Cron S F A) where
    -- A job enters the pool first, and then the scheduler, which may refuse it.
    unfoldable pub scheduled :
        JobDefinition
        → List JobOption
        → String
        → F
        → List A
        → DefaultClient S F
        → DefaultClient S F × Option Err
    scheduled definition options id f args d =
        let (pool, context) = new_job id d.job_pool in
        let (cron', failed) =
          gocron.new_job definition (record { func = f; context = context; args = args }) options
            d.cron in
        (record d { cron = cron'; job_pool = pool }, failed)

    unfoldable pub add_job :
        String → List JobOption → F → List A → DefaultClient S F → DefaultClient S F × Option Err
    unfolding scheduled
    add_job id jo f args d =
        scheduled one_time_immediately (jo ++ with_identifier id ∷ []) id f args d

    unfoldable pub add_job_with_delay :
        ℕ
        → String
        → ℕ
        → List JobOption
        → F
        → List A
        → DefaultClient S F
        → DefaultClient S F × Option Err
    unfolding scheduled
    add_job_with_delay now id delay jo f args d =
        scheduled (one_time_at (now + delay)) (jo ++ with_identifier id ∷ []) id f args d

    unfoldable pub add_unique_job :
        String
        → String
        → List JobOption
        → F
        → List A
        → DefaultClient S F
        → DefaultClient S F × Option Err
    unfolding scheduled
    add_unique_job id key jo f args d =
        scheduled one_time_immediately
          (jo ++ with_identifier id ∷ with_name key ∷ with_distributed_job_locker ∷ []) id f args d

    unfoldable pub add_duration_job :
        String
        → ℕ
        → List JobOption
        → F
        → List A
        → DefaultClient S F
        → DefaultClient S F × Option Err
    unfolding scheduled
    add_duration_job id every jo f args d =
        scheduled (duration every) (jo ++ with_identifier id ∷ []) id f args d

    abbrev pub undefined_task : String → Err
    undefined_task name = text (append "task " (append name " is not defined"))

    unfoldable pub add_job_name :
        String
        → List JobOption
        → String
        → List A
        → DefaultClient S F
        → DefaultClient S F × Option Err
    unfolding get_task add_job
    add_job_name id jo name args d = elim (get_task name d) [
      | none ↦ (d, some (undefined_task name))
      | some f ↦ add_job id jo f args d
    ]

    unfoldable pub add_job_name_with_delay :
        ℕ
        → String
        → ℕ
        → List JobOption
        → String
        → List A
        → DefaultClient S F
        → DefaultClient S F × Option Err
    unfolding get_task add_job_with_delay
    add_job_name_with_delay now id delay jo name args d = elim (get_task name d) [
      | none ↦ (d, some (undefined_task name))
      | some f ↦ add_job_with_delay now id delay jo f args d
    ]

    unfoldable pub add_unique_job_name :
        String
        → String
        → List JobOption
        → String
        → List A
        → DefaultClient S F
        → DefaultClient S F × Option Err
    unfolding get_task add_unique_job
    add_unique_job_name id key jo name args d = elim (get_task name d) [
      | none ↦ (d, some (undefined_task name))
      | some f ↦ add_unique_job id key jo f args d
    ]

    -- An error of the scheduler is only logged.
    unfoldable pub stop_job : String → DefaultClient S F → DefaultClient S F
    stop_job id d = record d {
      cron = (gocron.remove_job id d.cron).0;
      job_pool = pool_stop_job id d.job_pool;
    }

    unfoldable pub stop_all_jobs : DefaultClient S F → DefaultClient S F
    stop_all_jobs d = record d {
      cron = gocron.stop_jobs d.cron;
      job_pool = pool_stop_all_jobs d.job_pool;
    }
