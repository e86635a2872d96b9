-- ===== src/Worker/Retry/Invariant.antt =====
-- The invariant of the job system, on the rows that have failed and the entries of the queue.
use service_platform.Prelude.{ℕ, ◌≡◌, refl, Option, none, some, List, [], ◌∷◌, arith, All, All-map}
use service_platform.Prelude.Outcome.{Outcome, done, refused, lost, Result, ok, err}
use service_platform.Entity.{Job}
use service_platform.RedisQueue.{queue_key, dequeue, get_priority_queues, decode, popped, answer}
use service_platform.RedisQueue.Server.{Codec, Redis, split_last, brpop, pop_or}
use service_platform.Worker.Pool.{
  World, ProcessCalls, process_job, handle_dequeued, worker_round, increment_active_workers,
}
use service_platform.Worker.Registry.{JobHandlerRegistry}
use service_platform.Worker.Retry.Rows.{Covers}
use service_platform.Worker.Retry.Keeps.{Settled, KeepsWorld, KeepsWorld-process_job}

module _ (codec : Codec) where
  open codec use {Wire, marshal, unmarshal}

  -- An entry of the queue reads as a copy that the table covers.
  abbrev pub IsCovered : List Job → Wire → Type 0
  IsCovered rows e = (copy : Job) → unmarshal e ≡ ok copy → Covers rows copy

  pub record RetryInv (w : World Wire) : Type 0 where
    pub settled : All Settled w.jobs
    pub covered : All (IsCovered w.jobs) (w.redis.lists queue_key)

  RetryInv-KeepsWorld : (w w' : World Wire) → KeepsWorld w w' → RetryInv w → RetryInv w'
  RetryInv-KeepsWorld w w' k inv = record {
    settled = k.rows.settled inv.settled;
    covered = rw k.lists (
        All-map (IsCovered w.jobs) (IsCovered w'.jobs) _
          (λ e h copy read. k.rows.covers copy (h copy read)) inv.covered);
  }

  -- What BRPOP takes out of a list, and what it leaves there.
  module _ (P : Wire → Type 0) where
    abbrev pub Parted : Option (Wire × List Wire) → Type 0
    Parted none = Unit {0}
    Parted (some (y, ys)) = P y × All P ys

    Parted-cons :
        (x : Wire) (o : Option (Wire × List Wire))
        → P x
        → Parted o
        → Parted (elim o [ none ↦ some (x, []) | some (y, ys) ↦ some (y, x ∷ ys) ])
    Parted-cons x none h k = (h, tt)
    Parted-cons x (some (y, ys)) h k = (k.0, (h, k.1))

    pub split_last-Parted : (xs : List Wire) → All P xs → Parted (split_last xs)
    unfolding split_last
    split_last-Parted [] h = tt
    split_last-Parted (x ∷ xs) h = Parted-cons x (split_last xs) h.0 (split_last-Parted xs h.1)

  -- What the program makes of a popped entry, and of the queue behind it.
  abbrev pub Answered : List Job → Redis Wire × Result (Option Job) → Type 0
  Answered rows a =
      All (IsCovered rows) (a.0.lists queue_key)
      × ((copy : Job) → a.1 ≡ ok (some copy) → Covers rows copy)

  module _ (w : World Wire) (inv : RetryInv w) where
    Answered-decode :
        (e : Wire) (copy : Job)
        → IsCovered w.jobs e
        → decode codec e ≡ ok (some copy)
        → Covers w.jobs copy
    unfolding decode
    Answered-decode e copy h read = h copy (ground arith)

    Answered-pop :
        (o : Option (Wire × List Wire))
        → Parted (IsCovered w.jobs) o
        → let r = pop_or queue_key w.redis none o in
          Answered w.jobs (popped codec r w.redis, answer codec r)
    Answered-pop none h = (inv.covered, λ copy read. cc)
    Answered-pop (some (e, es)) h = (h.1, λ copy. Answered-decode e copy h.0)

    pub Answered-dequeue :
        (o : Outcome) → Answered w.jobs (dequeue codec o get_priority_queues w.redis)
    unfolding dequeue brpop get_priority_queues
    Answered-dequeue done =
        Answered-pop _ (split_last-Parted (IsCovered w.jobs) (w.redis.lists queue_key) inv.covered)
    Answered-dequeue (refused e) = (inv.covered, λ copy read. cc)
    Answered-dequeue (lost e) = (
      (Answered-pop _
          (split_last-Parted (IsCovered w.jobs) (w.redis.lists queue_key) inv.covered)).0,
      λ copy read. cc,
    )

  module _ (beyond : ℕ → ℕ) (registry : JobHandlerRegistry) where
    RetryInv-handle_dequeued :
        (c : ProcessCalls) (got : Result (Option Job)) (w : World Wire)
        → RetryInv w
        → ((copy : Job) → got ≡ ok (some copy) → Covers w.jobs copy)
        → RetryInv (handle_dequeued codec beyond registry c got w)
    unfolding handle_dequeued
    RetryInv-handle_dequeued c (err e) w inv cov = inv
    RetryInv-handle_dequeued c (ok none) w inv cov = inv
    RetryInv-handle_dequeued c (ok (some j)) w inv cov =
        let busy = record w { stats = increment_active_workers w.stats } in
        let kept =
          RetryInv-KeepsWorld busy (process_job beyond registry c j busy)
            (KeepsWorld-process_job beyond registry c j busy (cov j refl))
            (record { settled = inv.settled; covered = inv.covered }) in
        record { settled = kept.settled; covered = kept.covered }

    pub RetryInv-worker_round :
        (o : Outcome) (c : ProcessCalls) (w : World Wire)
        → RetryInv w
        → RetryInv (worker_round codec beyond registry o c w)
    unfolding worker_round
    RetryInv-worker_round o c w inv =
        let (redis', got) = dequeue codec o get_priority_queues w.redis in
        let answered = Answered-dequeue w inv o in
        RetryInv-handle_dequeued c got (record w { redis = redis' })
          (record { settled = inv.settled; covered = answered.0 }) answered.1
