-- ===== src/Worker/Lifecycle/Ended.antt =====
-- The rows that have ended, over every run of the system, statement by statement.
use service_platform.Prelude.{ℕ}
use service_platform.JobRepository.Sql.{Engine}
use service_platform.RedisQueue.{queue_key}
use service_platform.RedisQueue.Server.{Codec, RoundTrips}
use service_platform.Worker.Registry.{JobHandlerRegistry}
use service_platform.Worker.Scheduler.{collect_queue_stats}
use service_platform.Worker.Lifecycle.{
  Running, Step, inserts, enqueues, pops, marks, starts, finishes, schedules, collects, IsFresh,
  Reach, here, next,
}
use service_platform.Worker.Retry.Never.{process_retryable_jobs-Settled}
use service_platform.Worker.Lifecycle.Touches.{EndedStays, EndedStays-same, EndedStays-chain}
use service_platform.Worker.Lifecycle.Held.{OneHolder, OneHolder-Picked}
use service_platform.Worker.Lifecycle.Steps.{
  Holds, Advances-pop_entry, After-mark_taken, After-start_marked, After-finish_started,
  After-enqueue_inserted,
}
use service_platform.Worker.Lifecycle.Creation.{Advances, Advances-insert_job}

module _ (codec : Codec) where
  open codec use {Wire}

  module _ (sql : Engine) (beyond : ℕ → ℕ) (registry : JobHandlerRegistry)
      (json : RoundTrips codec) where
    Advances-Step :
        {s s' : Running Wire}
        → Step codec sql beyond registry s s'
        → Holds codec s.world s.tasks
        → Advances codec s s'
    Advances-Step {s = s} (inserts c req) inv = Advances-insert_job codec c req s inv
    Advances-Step {s = s} (enqueues c j p) inv =
        let (others, free) = OneHolder-Picked codec p inv in
        After-enqueue_inserted codec j s.world _ others free json c
    Advances-Step {s = s} (pops o) inv = Advances-pop_entry codec o s inv
    Advances-Step {s = s} (marks c j p) inv =
        let (others, free) = OneHolder-Picked codec p inv in
        After-mark_taken codec j s.world _ others free c
    Advances-Step {s = s} (starts c j p) inv =
        let (others, free) = OneHolder-Picked codec p inv in
        After-start_marked codec j s.world _ others free c
    Advances-Step {s = s} (finishes c j p) inv =
        let (others, free) = OneHolder-Picked codec p inv in
        After-finish_started codec j s.world _ others free beyond registry c
    Advances-Step {s = s} (schedules c calls) inv =
        rw (process_retryable_jobs-Settled codec sql c calls s.world inv.settled)
          (EndedStays-same s.world.jobs, inv)
    Advances-Step {s = s} (collects answers) inv =
        unfold collect_queue_stats in (EndedStays-same s.world.jobs, inv)

    Reach-OneHolder :
        {s s' : Running Wire}
        → IsFresh codec sql beyond registry s
        → Reach codec sql beyond registry s s'
        → Holds codec s'.world s'.tasks
    Reach-OneHolder h here = record {
      settled = rw h.no_rows tt;
      entries = rw h.no_entries tt;
      distinct = rw h.no_entries tt;
      tasks = rw h.no_tasks tt;
      different = rw h.no_tasks tt;
    }
    Reach-OneHolder h (next r st) = (Advances-Step st (Reach-OneHolder h r)).1

    continued :
        {s t u : Running Wire}
        → Reach codec sql beyond registry s t
        → Reach codec sql beyond registry t u
        → Reach codec sql beyond registry s u
    continued r here = r
    continued r (next later st) = next (continued r later) st

    ended_stays :
        {s t u : Running Wire}
        → IsFresh codec sql beyond registry s
        → Reach codec sql beyond registry s t
        → Reach codec sql beyond registry t u
        → EndedStays t.world.jobs u.world.jobs
    ended_stays {t = t} h r here = EndedStays-same t.world.jobs
    ended_stays {t = t} h r (next later st) =
        EndedStays-chain t.world.jobs _ _ (ended_stays h r later)
          (Advances-Step st (Reach-OneHolder h (continued r later))).0

    -- From every state that the system reaches from its start, with requests, workers, scheduler
    -- and collector in any order, statement by statement, and with any answers of the servers, no
    -- row is ever lost, and a row that is completed, failed or retrying stays as it is for ever. At
    -- the end, as at any time, the entries of the queue and the requests and workers under way all
    -- have different jobs in hand: each such job has a row, and no row of it is completed, failed or
    -- retrying. Written jobs have to read back as they were.
    pub ended_final :
        {s t u : Running Wire}
        → IsFresh codec sql beyond registry s
        → Reach codec sql beyond registry s t
        → Reach codec sql beyond registry t u
        → EndedStays t.world.jobs u.world.jobs
          × OneHolder codec u.world.jobs (u.world.redis.lists queue_key) u.tasks
    ended_final h r later = (ended_stays h r later, Reach-OneHolder h (continued r later))
