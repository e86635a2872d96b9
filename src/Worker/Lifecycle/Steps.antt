-- ===== src/Worker/Lifecycle/Steps.antt =====
-- What each statement of a request or of a worker does to the rows and to what is held.
use service_platform.Prelude.{ℕ, ◌≡◌, refl, true, false, Option, none, some, List}
use service_platform.Prelude.Outcome.{Err, Outcome, Call, Result, ok, err}
use service_platform.Entity.{Job}
use service_platform.JobRepository.{has_id, update_job_to_processing}
use service_platform.JobManager.{CreateCalls}
use service_platform.RedisQueue.{queue_key, dequeue, get_priority_queues, mark_processing}
use service_platform.RedisQueue.Server.{Codec, RoundTrips, Redis}
use service_platform.Worker.Pool.{World, ProcessCalls, run_handler}
use service_platform.Worker.Registry.{JobHandlerRegistry}
use service_platform.Worker.Lifecycle.{
  Task, taken, marked, started, Running, pop_entry, pop_answered, mark_taken, mark_answered,
  start_marked, finish_started, enqueue_inserted,
}
use service_platform.Worker.Retry.Rows.{All-exec_update}
use service_platform.Worker.Retry.Keeps.{
  KeepsRows-processing, KeepsWorld-finish, lists-mark_processing,
}
use service_platform.Worker.Lifecycle.Touches.{
  Pairs, Only, Only-exec_update, Only-finish_job, IsOpen, has_ended, EndedStays, EndedStays-Only,
  EndedStays-same,
}
use service_platform.Worker.Lifecycle.Held.{OneHolder, IsFree, OneHolder-add, OneHolder-changed}
use service_platform.Worker.Lifecycle.Pops.{Got, Got-dequeue}
use service_platform.Worker.Lifecycle.Creation.{Advances}
use service_platform.Worker.Lifecycle.Pushes.{OneHolder-enqueue}

module _ (codec : Codec) where
  open codec use {Wire}

  abbrev pub Holds : World Wire → List Task → Type 0
  Holds w ts = OneHolder codec w.jobs (w.redis.lists queue_key) ts

  abbrev pub Frees : World Wire → List Task → Job → Type 0
  Frees w ts j = IsFree codec w.jobs (w.redis.lists queue_key) ts j

  Advances-answered :
      (s : Running Wire) (a : Redis Wire × Result (Option Job))
      → Got codec s.world.jobs s.tasks a
      → Advances codec s (pop_answered codec s a)
  unfolding pop_answered
  Advances-answered s (r, err e) got = (EndedStays-same s.world.jobs, got.0)
  Advances-answered s (r, ok none) got = (EndedStays-same s.world.jobs, got.0)
  Advances-answered s (r, ok (some j)) got = (
    EndedStays-same s.world.jobs,
    OneHolder-add codec (taken j) s.world.jobs (r.lists queue_key) s.tasks got.0 (got.1 j refl),
  )

  pub Advances-pop_entry :
      (o : Outcome) (s : Running Wire)
      → Holds s.world s.tasks
      → Advances codec s (pop_entry codec o s)
  unfolding pop_entry
  Advances-pop_entry o s inv =
      Advances-answered s (dequeue codec o get_priority_queues s.world.redis)
        (Got-dequeue codec s.world.jobs s.tasks s.world.redis o inv)

  module _ (j : Job) (w : World Wire) (rest : List Task) (inv : Holds w rest)
      (free : Frees w rest j) where
    -- The state behind a step of the task that had the job in hand.
    abbrev After : Running Wire → Type 0
    After s' = EndedStays w.jobs s'.world.jobs × Holds s'.world s'.tasks

    After-mark_answered :
        (a : Redis Wire × Option Err) → a.0.lists ≡ w.redis.lists → After (mark_answered j w rest a)
    unfolding mark_answered
    After-mark_answered (r, some e) same = (EndedStays-same w.jobs, rw same inv)
    After-mark_answered (r, none) same = (
      EndedStays-same w.jobs,
      rw same (OneHolder-add codec (marked j) w.jobs (w.redis.lists queue_key) rest inv free),
    )

    pub After-mark_taken : (c : Call) → After (mark_taken c j w rest)
    unfolding mark_taken
    After-mark_taken c =
        After-mark_answered (mark_processing c j.id w.redis) (lists-mark_processing c j.id w.redis)

    IsOpen-processing :
        (c : Call) (t : ℕ) → IsOpen (update_job_to_processing c j.id t w.jobs).0 j.id
    unfolding update_job_to_processing
    IsOpen-processing c t =
        All-exec_update (λ r. has_id j.id r ≡ true → has_ended r.status ≡ false) _ _ c.outcome
          w.jobs (λ r hit h same. refl) free.held.opened

    Only-processing :
        (c : Call) (t : ℕ) → Pairs (Only j.id) w.jobs (update_job_to_processing c j.id t w.jobs).0
    unfolding update_job_to_processing
    Only-processing c t = Only-exec_update c.outcome j.id _ w.jobs (λ r. refl)

    pub After-start_marked : (c : ProcessCalls) → After (start_marked c j w rest)
    unfolding start_marked
    After-start_marked c =
        let es = w.redis.lists queue_key in
        let rows' = (update_job_to_processing c.start j.id c.start_time w.jobs).0 in
        let keeps = KeepsRows-processing c.start j.id c.start_time w.jobs in
        let only = Only-processing c.start c.start_time in
        (
          EndedStays-Only j.id w.jobs rows' only free.held.opened,
          OneHolder-add codec (started j) rows' es rest
              (OneHolder-changed codec j w.jobs rows' es rest keeps only inv free)
              (record {
                held = record {
                  covers = keeps.covers j free.held.covers;
                  opened = IsOpen-processing c.start c.start_time;
                };
                not_queued = free.not_queued;
                not_in = free.not_in;
              }),
        )

    pub After-finish_started :
        (beyond : ℕ → ℕ) (registry : JobHandlerRegistry) (c : ProcessCalls)
        → After (finish_started beyond registry c j w rest)
    unfolding finish_started
    After-finish_started beyond registry c =
        let o = run_handler registry j in
        let kept = KeepsWorld-finish beyond registry c j o w free.held.covers in
        let only = Only-finish_job beyond c j o w in
        (
          EndedStays-Only j.id w.jobs _ only free.held.opened,
          rw kept.lists (
              OneHolder-changed codec j w.jobs _ (w.redis.lists queue_key) rest kept.rows only inv
                free),
        )

    pub After-enqueue_inserted :
        (json : RoundTrips codec) (c : CreateCalls) → After (enqueue_inserted codec c j w rest)
    unfolding enqueue_inserted
    After-enqueue_inserted json c = (
      EndedStays-same w.jobs,
      OneHolder-enqueue codec json c.enqueue j w.jobs w.redis rest inv free,
    )
