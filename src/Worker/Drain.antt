-- ===== src/Worker/Drain.antt =====
-- The workers of app/pkg/worker/pool.go on a queue with entries.
use service_platform.Prelude.{
  update_rows, ℕ, String, ◌≡◌, refl, sym, ap, ◌∙◌, arith, Bool, true, Option, none, some, List, [],
  ◌∷◌, map, length, All, inl, inr, Bool-cases, leb, ◌+◌,
}
use mathlib.Core.Path.{subst}
use mathlib.Core.List.{reverse}
use service_platform.Prelude.Outcome.{Outcome, done, Result, ok, err}
use service_platform.Constant.{Status, pending, processing, completed, failed, retrying}
use service_platform.Entity.{Job}
use service_platform.JobRepository.{is_live_row, set_error}
use service_platform.JobRepository.Sql.{Engine}
use service_platform.RedisQueue.{queue_key, dequeue, get_priority_queues, decode}
use service_platform.RedisQueue.Fifo.{waiting, waiting-dequeue}
use service_platform.RedisQueue.Server.{Codec, RoundTrips}
use service_platform.Worker.Pool.{
  World, ProcessCalls, process_job, run_handler, handle_dequeued, worker_round, run_worker,
  increment_active_workers,
}
use service_platform.Worker.Pool.Process.{Answered, processed_row, jobs-process_job}
use service_platform.Worker.Registry.{JobHandlerRegistry}
use service_platform.Worker.System.{IsFresh, Reach}
use service_platform.Worker.Retry.Rows.{Covers, All-update_rows}
use service_platform.Worker.Retry.Keeps.{KeepsWorld-process_job}
use service_platform.Worker.Retry.Invariant.{RetryInv, Answered-dequeue, RetryInv-worker_round}
use service_platform.Worker.Retry.Never.{Reach-RetryInv}

-- The statuses in which a worker leaves a job.
abbrev pub IsFinal : Status → Type 0
IsFinal completed = Unit {0}
IsFinal failed = Unit {0}
IsFinal retrying = Unit {0}
IsFinal pending = ⊥
IsFinal processing = ⊥

-- The rows of a job that are not deleted are in such a status.
abbrev pub IsDone : String → List Job → Type 0
IsDone id rows = All (λ r. is_live_row id r ≡ true → IsFinal r.status) rows

set_error_status : (msg : String) (j : Job) → (set_error msg j).status ≡ j.status
set_error_status msg j = ground arith

processed_row-IsFinal :
    (c : ProcessCalls) (copy : Job) (o : Option String) (r : Job)
    → IsFinal (processed_row c copy o r).status
processed_row-IsFinal c copy none r = tt
processed_row-IsFinal c copy (some msg) r =
    elim (Bool-cases (leb copy.max_attempts (copy.attempts + 1))) [
      | inl last ↦ rw last (subst IsFinal (sym (set_error_status msg _)) tt)
      | inr more ↦ rw more (subst IsFinal (sym (set_error_status msg _)) tt)
    ]

-- The rows of the job itself become final, and final rows of any job stay so.
IsDone-self :
    (id : String) (f : Job → Job) (rows : List Job)
    → ((r : Job) → IsFinal (f r).status)
    → IsDone id (update_rows (is_live_row id) f rows)
unfolding update_rows
IsDone-self id f [] final = tt
IsDone-self id f (r ∷ rows) final = elim (Bool-cases (is_live_row id r)) [
  | inl hit ↦ rw hit ((λ live. final r), IsDone-self id f rows final)
  | inr miss ↦ rw miss ((λ live. absurd (cc)), IsDone-self id f rows final)
]

IsDone-update_rows :
    (id : String) (p : Job → Bool) (f : Job → Job) (rows : List Job)
    → ((r : Job) → IsFinal (f r).status)
    → IsDone id rows
    → IsDone id (update_rows p f rows)
IsDone-update_rows id p f rows final h =
    All-update_rows (λ r. is_live_row id r ≡ true → IsFinal r.status) p f rows
      (λ r hit old live. final r) h

module _ (codec : Codec) (beyond : ℕ → ℕ) (registry : JobHandlerRegistry) where
  open codec use {Wire, unmarshal}

  -- The job of which an entry is a copy is done.
  abbrev pub EntryIsDone : World Wire → Wire → Type 0
  EntryIsDone w e = (copy : Job) → unmarshal e ≡ ok copy → IsDone copy.id w.jobs

  -- What one round does with the entry that it takes.
  abbrev Handled : Wire → World Wire → World Wire → Type 0
  Handled e w w' =
      (waiting w'.redis ≡ waiting w.redis)
      × EntryIsDone w' e
      × ((id : String) → IsDone id w.jobs → IsDone id w'.jobs)

  decode_read : (e : Wire) (copy : Job) → unmarshal e ≡ ok copy → decode codec e ≡ ok (some copy)
  unfolding decode
  decode_read e copy read = rw (read, decode)

  some_ok : {i j : Job} → ◌≡◌ {A = Result (Option Job)} (ok (some i)) (ok (some j)) → i ≡ j
  some_ok same = cc

  Handled-dequeued :
      (c : ProcessCalls) (e : Wire) (got : Result (Option Job)) (w : World Wire)
      → Answered c
      → got ≡ decode codec e
      → ((copy : Job) → got ≡ ok (some copy) → Covers w.jobs copy)
      → Handled e w (handle_dequeued codec beyond registry c got w)
  unfolding handle_dequeued
  Handled-dequeued c e (err x) w a same cov =
      (refl, (λ copy read. absurd (cc (same ∙ decode_read e copy read))), λ id h. h)
  Handled-dequeued c e (ok none) w a same cov =
      (refl, (λ copy read. absurd (cc (same ∙ decode_read e copy read))), λ id h. h)
  Handled-dequeued c e (ok (some copy)) w a same cov =
      let busy = record w { stats = increment_active_workers w.stats } in
      let kept = KeepsWorld-process_job beyond registry c copy busy (cov copy refl) in
      (
        ap (λ ls. reverse (ls queue_key)) kept.lists,
        λ copy' read.
            subst (λ (j : Job). IsDone j.id (process_job beyond registry c copy busy).jobs)
              (some_ok (same ∙ decode_read e copy' read))
              (rw (jobs-process_job beyond registry c copy busy a) (
                IsDone-self copy.id (processed_row c copy (run_handler registry copy)) w.jobs
                  (processed_row-IsFinal c copy (run_handler registry copy)))),
        λ id h. rw (jobs-process_job beyond registry c copy busy a) (
            IsDone-update_rows id (is_live_row copy.id)
              (processed_row c copy (run_handler registry copy)) w.jobs
              (processed_row-IsFinal c copy (run_handler registry copy)) h),
      )

  Handled-worker_round :
      (c : ProcessCalls) (e : Wire) (rest : List Wire) (w : World Wire)
      → Answered c
      → RetryInv codec w
      → waiting w.redis ≡ e ∷ rest
      → let w' = worker_round codec beyond registry done c w in
        (waiting w'.redis ≡ rest)
        × EntryIsDone w' e
        × ((id : String) → IsDone id w.jobs → IsDone id w'.jobs)
  unfolding worker_round
  Handled-worker_round c e rest w a inv wait =
      let (redis', got) = dequeue codec done get_priority_queues w.redis in
      let popped = waiting-dequeue codec e rest w.redis wait in
      let handled =
        Handled-dequeued c e got (record w { redis = redis' }) a popped.0
          (Answered-dequeue codec w inv done).1 in
      (handled.0 ∙ popped.1, handled.1, handled.2)

  abbrev pub rounds_of : List ProcessCalls → List (Outcome × ProcessCalls)
  rounds_of cs = map (λ c. (done, c)) cs

  -- Rounds that all get their answers, one for each entry.
  drained :
      (cs : List ProcessCalls) (w : World Wire) (es : List Wire)
      → All Answered cs
      → RetryInv codec w
      → waiting w.redis ≡ es
      → length cs ≡ length es
      → let w' = run_worker codec beyond registry (rounds_of cs) w in
        (waiting w'.redis ≡ [])
        × All (EntryIsDone w') es
        × ((id : String) → IsDone id w.jobs → IsDone id w'.jobs)
  unfolding run_worker
  drained [] w [] a inv wait enough = (wait, tt, λ id h. h)
  drained [] w (e ∷ es) a inv wait enough = absurd (omega (arith, enough))
  drained (c ∷ cs) w [] a inv wait enough = absurd (omega (arith, enough))
  drained (c ∷ cs) w (e ∷ es) a inv wait enough =
      let first = Handled-worker_round c e es w a.0 inv wait in
      let rest =
        drained cs (worker_round codec beyond registry done c w) es a.1
          (RetryInv-worker_round codec beyond registry done c w inv) first.0
          (omega (arith, enough)) in
      (
        rest.0,
        (λ copy read. rest.2 copy.id (first.1 copy read), rest.1),
        λ id h. rest.2 id (first.2 id h),
      )

  -- From every state that the system reaches from its start, one worker that makes as many rounds
  -- as there are entries, each answered by the servers, empties the queue; and each job that an
  -- entry stood for is then completed, failed or retrying, in all its rows that are not deleted.
  pub run_worker-drains :
      (sql : Engine) (json : RoundTrips codec) {s w : World Wire} (cs : List ProcessCalls)
      → IsFresh codec sql beyond registry s
      → Reach codec sql beyond registry s w
      → All Answered cs
      → length cs ≡ length (waiting w.redis)
      → let w' = run_worker codec beyond registry (rounds_of cs) w in
        (waiting w'.redis ≡ []) × All (EntryIsDone w') (waiting w.redis)
  run_worker-drains sql json {w = w} cs h r a enough =
      let all =
        drained cs w (waiting w.redis) a (Reach-RetryInv codec sql beyond registry json h r) refl
          enough in
      (all.0, all.1)
