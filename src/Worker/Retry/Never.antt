-- ===== src/Worker/Retry/Never.antt =====
-- The retry scheduler over every run of the system.
use service_platform.Prelude.{ℕ, ◌-◌, ◌≡◌, refl, true, List, [], ◌∷◌, arith, All, ap}
use service_platform.Prelude.Outcome.{Outcome, done, refused, lost, Call, reading}
use service_platform.Entity.{Job}
use service_platform.JobRepository.{retryable_query, get_retryable_jobs}
use service_platform.JobRepository.Sql.{Engine}
use service_platform.RedisQueue.Server.{Codec, RoundTrips}
use service_platform.Worker.Pool.{World}
use service_platform.Worker.Registry.{JobHandlerRegistry}
use service_platform.Worker.Scheduler.{
  RequeueCalls, retry_age, retry_limit, requeue_jobs, requeue_found, process_retryable_jobs,
  collect_queue_stats,
}
use service_platform.Worker.System.{
  Step, created, worked, scheduled, collected, IsFresh, Reach, here, next,
}
use service_platform.Worker.Retry.Keeps.{Settled}
use service_platform.Worker.Retry.Invariant.{RetryInv, RetryInv-worker_round}
use service_platform.Worker.Retry.Creation.{RetryInv-create_job}

-- A row that is settled is not retryable.
not-retryable : (t : ℕ) (j : Job) → Settled j → (retryable_query t).picks j ≡ true → ⊥
unfolding retryable_query
not-retryable t j h p = ground arith

none-retryable :
    (t : ℕ) (js : List Job)
    → All (λ j. Settled j × ((retryable_query t).picks j ≡ true)) js
    → js ≡ []
none-retryable t [] h = refl
none-retryable t (j ∷ js) h = absurd (not-retryable t j h.0.0 h.0.1)

-- Where every failed job is settled, the query for retryable jobs finds none.
get_retryable_jobs-Settled :
    (sql : Engine) (c : Call) (t limit : ℕ) (rows : List Job)
    → All Settled rows
    → get_retryable_jobs sql c t limit rows ≡ reading c.outcome []
unfolding get_retryable_jobs
get_retryable_jobs-Settled sql c t limit rows h =
    ap (reading c.outcome)
      (none-retryable t _ (sql.select_picked Settled (retryable_query t) limit rows h))

module _ (codec : Codec) (sql : Engine) where
  requeue-nothing :
      (o : Outcome) (calls : Job → RequeueCalls) (w : World codec.Wire)
      → requeue_found codec calls (reading o []) w ≡ w
  unfolding requeue_jobs
  requeue-nothing done calls w = refl
  requeue-nothing (refused e) calls w = refl
  requeue-nothing (lost e) calls w = refl

  pub process_retryable_jobs-Settled :
      (c : Call) (calls : Job → RequeueCalls) (w : World codec.Wire)
      → All Settled w.jobs
      → process_retryable_jobs codec sql c calls w ≡ w
  unfolding process_retryable_jobs
  process_retryable_jobs-Settled c calls w h =
      rw (get_retryable_jobs-Settled sql c (c.at - retry_age) retry_limit w.jobs h)
        (requeue-nothing c.outcome calls w)

  module _ (beyond : ℕ → ℕ) (registry : JobHandlerRegistry) (json : RoundTrips codec) where
    Step-RetryInv :
        {w w' : World codec.Wire}
        → Step codec sql beyond registry w w'
        → RetryInv codec w
        → RetryInv codec w'
    Step-RetryInv {w = w} (created c req) inv = RetryInv-create_job codec json c req w inv
    Step-RetryInv {w = w} (worked o c) inv = RetryInv-worker_round codec beyond registry o c w inv
    Step-RetryInv {w = w} (scheduled c calls) inv =
        rw (process_retryable_jobs-Settled c calls w inv.settled) inv
    Step-RetryInv {w = w} (collected answers) inv =
        unfold collect_queue_stats in record { settled = inv.settled; covered = inv.covered }

    IsFresh-RetryInv :
        (w : World codec.Wire) → IsFresh codec sql beyond registry w → RetryInv codec w
    IsFresh-RetryInv w h = record { settled = rw h.no_rows tt; covered = rw h.no_entries tt }

    -- In every state that the system reaches from its start, each job marked as failed has used up
    -- its attempts, and each entry of the queue is a copy of a job in the table, whose row has the
    -- same number of attempts allowed and has counted at least as many.
    pub Reach-RetryInv :
        {s w : World codec.Wire}
        → IsFresh codec sql beyond registry s
        → Reach codec sql beyond registry s w
        → RetryInv codec w
    Reach-RetryInv {s = s} h here = IsFresh-RetryInv s h
    Reach-RetryInv h (next r st) = Step-RetryInv st (Reach-RetryInv h r)

    -- In every state that the system reaches from its start, the retry scheduler, at any time and
    -- with any answers of the servers, finds no job to put back and changes nothing.
    pub scheduler_never_requeues :
        {s w : World codec.Wire} (c : Call) (calls : Job → RequeueCalls)
        → IsFresh codec sql beyond registry s
        → Reach codec sql beyond registry s w
        → process_retryable_jobs codec sql c calls w ≡ w
    scheduler_never_requeues {w = w} c calls h r =
        process_retryable_jobs-Settled c calls w (Reach-RetryInv h r).settled
