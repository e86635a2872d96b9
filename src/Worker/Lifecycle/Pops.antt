-- ===== src/Worker/Lifecycle/Pops.antt =====
-- What a worker takes out of the queue of app/pkg/queue/queue.go, and what it leaves there.
use service_platform.Prelude.{◌≡◌, sym, arith, Option, none, some, List, All-map}
use service_platform.Prelude.Outcome.{Outcome, done, refused, lost, Result, ok}
use service_platform.Entity.{Job}
use service_platform.RedisQueue.{queue_key, dequeue, get_priority_queues, decode, popped, answer}
use service_platform.RedisQueue.Server.{Codec, Redis, brpop, pop_or}
use service_platform.Worker.Lifecycle.{Task}
use service_platform.Worker.Retry.Invariant.{Parted, split_last-Parted}
use service_platform.Worker.Lifecycle.Entries.{Apart, Popped, split_last-Popped}
use service_platform.Worker.Lifecycle.Held.{Entry, NotQueued, OneHolder, IsFree}

module _ (codec : Codec) where
  open codec use {Wire, unmarshal}

  -- What a worker gets from the queue, and what it leaves there.
  abbrev pub Got : List Job → List Task → Redis Wire × Result (Option Job) → Type 0
  Got rows ts a =
      OneHolder codec rows (a.0.lists queue_key) ts
      × ((copy : Job) → a.1 ≡ ok (some copy) → IsFree codec rows (a.0.lists queue_key) ts copy)

  decode_reads : (e : Wire) (copy : Job) → decode codec e ≡ ok (some copy) → unmarshal e ≡ ok copy
  unfolding decode
  decode_reads e copy h = ground arith

  Got-pop :
      (rows : List Job) (ts : List Task) (r : Redis Wire) (o : Option (Wire × List Wire))
      → OneHolder codec rows (r.lists queue_key) ts
      → Parted codec (Entry codec rows ts) o
      → Popped codec o
      → let p = pop_or queue_key r none o in Got rows ts (popped codec p r, answer codec p)
  Got-pop rows ts r none inv h k = (inv, λ copy read. cc)
  Got-pop rows ts r (some (e, es)) inv h k = (
    record {
      settled = inv.settled;
      entries = h.1;
      distinct = k.0;
      tasks = inv.tasks;
      different = inv.different;
    },
    λ copy read.
        let read' = decode_reads e copy read in
        record {
          held = (h.0 copy read').0;
          not_queued =
              All-map (λ d. Apart codec d e) (NotQueued codec copy) es
                (λ d apart i reads same. apart i copy reads read' (sym same)) k.1;
          not_in = (h.0 copy read').1;
        },
  )

  pub Got-dequeue :
      (rows : List Job) (ts : List Task) (r : Redis Wire) (o : Outcome)
      → OneHolder codec rows (r.lists queue_key) ts
      → Got rows ts (dequeue codec o get_priority_queues r)
  unfolding dequeue brpop get_priority_queues
  Got-dequeue rows ts r done inv =
      Got-pop rows ts r _ inv
        (split_last-Parted codec (Entry codec rows ts) (r.lists queue_key) inv.entries)
        (split_last-Popped codec (r.lists queue_key) inv.distinct)
  Got-dequeue rows ts r (refused e) inv = (inv, λ copy read. cc)
  Got-dequeue rows ts r (lost e) inv = (
    (Got-pop rows ts r _ inv
        (split_last-Parted codec (Entry codec rows ts) (r.lists queue_key) inv.entries)
        (split_last-Popped codec (r.lists queue_key) inv.distinct)).0,
    λ copy read. cc,
  )
