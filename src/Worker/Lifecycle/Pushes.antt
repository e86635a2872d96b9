-- ===== src/Worker/Lifecycle/Pushes.antt =====
-- The second half of a creation by app/manager/job_manager.go: a copy of the job is put into the queue.
use service_platform.Prelude.{ℕ, ◌≡◌, refl, sym, ap, ◌∙◌, List, ◌∷◌, All-map}
use mathlib.Core.Path.{subst}
use service_platform.Prelude.Outcome.{Outcome, done, refused, lost, effect, Call, Result, ok, err}
use service_platform.Entity.{Job}
use service_platform.RedisQueue.{queue_key, enqueue, enqueue_wire, enqueue_commands}
use service_platform.RedisQueue.Server.{Codec, RoundTrips, Redis, lpush}
use service_platform.Worker.Lifecycle.{Task}
use service_platform.Worker.Retry.Creation.{lists-schedule_at}
use service_platform.Worker.Lifecycle.Entries.{Apart}
use service_platform.Worker.Lifecycle.Held.{IsHeld, NotIn, NotQueued, OneHolder, IsFree}

module _ (codec : Codec) where
  open codec use {Wire, marshal, unmarshal}

  module _ (json : RoundTrips codec) where
    reads-written : (j copy : Job) (e : Wire) → marshal j ≡ ok e → unmarshal e ≡ ok copy → copy ≡ j
    reads-written j copy e written read =
        let same : ok copy ≡ ok j = sym read ∙ json.reads_back j e written in cc

    -- The job that a request has in hand becomes an entry of the queue.
    OneHolder-pushed :
        (j : Job) (e : Wire) (rows : List Job) (es : List Wire) (ts : List Task)
        → marshal j ≡ ok e
        → OneHolder codec rows es ts
        → IsFree codec rows es ts j
        → OneHolder codec rows (e ∷ es) ts
    OneHolder-pushed j e rows es ts written inv free = record {
      settled = inv.settled;
      entries = (
        λ copy read.
            subst (λ i. IsHeld rows i × NotIn ts i) (sym (reads-written j copy e written read))
              (free.held, free.not_in),
        inv.entries,
      );
      distinct = (
        All-map (NotQueued codec j) (Apart codec e) es
            (λ d h i k read read' same.
              h k read' (sym (ap (λ x. x.id) (reads-written j i e written read)) ∙ same))
            free.not_queued,
        inv.distinct,
      );
      tasks = inv.tasks;
      different = inv.different;
    }

    OneHolder-enqueue_commands :
        (now : ℕ) (j : Job) (e : Wire) (rows : List Job) (r : Redis Wire) (ts : List Task)
        → marshal j ≡ ok e
        → OneHolder codec rows (r.lists queue_key) ts
        → IsFree codec rows (r.lists queue_key) ts j
        → OneHolder codec rows ((enqueue_commands codec now j e r).lists queue_key) ts
    unfolding enqueue_commands lpush
    OneHolder-enqueue_commands now j e rows r ts written inv free =
        rw
          (lists-schedule_at codec json (codec.uuid_bytes j.id) now j.scheduled_at
            (lpush queue_key e r))
          (OneHolder-pushed j e rows (r.lists queue_key) ts written inv free)

    OneHolder-enqueue_wire :
        (c : Call) (j : Job) (m : Result Wire) (rows : List Job) (r : Redis Wire) (ts : List Task)
        → marshal j ≡ m
        → OneHolder codec rows (r.lists queue_key) ts
        → IsFree codec rows (r.lists queue_key) ts j
        → OneHolder codec rows ((enqueue_wire codec c j m r).0.lists queue_key) ts
    unfolding enqueue_wire
    OneHolder-enqueue_wire c j (err x) rows r ts written inv free = inv
    OneHolder-enqueue_wire c j (ok e) rows r ts written inv free = by_outcome c.outcome
      where
        by_outcome :
            (o : Outcome)
            → OneHolder codec rows
                ((effect o (enqueue_commands codec c.at j e) r).lists queue_key)
                ts
        by_outcome done = OneHolder-enqueue_commands c.at j e rows r ts written inv free
        by_outcome (refused x) = inv
        by_outcome (lost x) = OneHolder-enqueue_commands c.at j e rows r ts written inv free

    -- Whatever the queue's server answers to the request.
    pub OneHolder-enqueue :
        (c : Call) (j : Job) (rows : List Job) (r : Redis Wire) (ts : List Task)
        → OneHolder codec rows (r.lists queue_key) ts
        → IsFree codec rows (r.lists queue_key) ts j
        → OneHolder codec rows ((enqueue codec c j r).0.lists queue_key) ts
    unfolding enqueue
    OneHolder-enqueue c j rows r ts inv free =
        OneHolder-enqueue_wire c j (marshal j) rows r ts refl inv free
