-- ===== src/Worker/Lifecycle/Creation.antt =====
-- The first half of a creation by app/manager/job_manager.go: the job's row is inserted.
use service_platform.Prelude.{
  ◌≡◌, ◌≢◌, refl, sym, ap, true, false, List, [], ◌∷◌, ◌++◌, any, All-map, All-snoc, str_eq, inl,
  inr, Bool-cases,
}
use service_platform.Prelude.Outcome.{Outcome, done, refused, lost, effect, failure}
use service_platform.Entity.{Job}
use service_platform.JobRepository.{has_id, create}
use service_platform.JobManager.{CreateCalls, CreateJobRequest, new_job}
use service_platform.RedisQueue.{queue_key}
use service_platform.RedisQueue.Server.{Codec}
use service_platform.Worker.Lifecycle.{
  Task, task_job, inserted, Running, insert_job, insert_answered,
}
use service_platform.Worker.Retry.Creation.{new_job-Settled, Covers-append, Covers-self}
use service_platform.Worker.Retry.Keeps.{Settled}
use service_platform.Worker.Lifecycle.Touches.{
  IsOpen-absent, has_ended, EndedStays, EndedStays-same, EndedStays-append,
}
use service_platform.Worker.Lifecycle.Held.{
  IsHeld, Entry, NotQueued, OneHolder, IsFree, OneHolder-add,
}

module _ (codec : Codec) where
  open codec use {Wire, marshal, unmarshal}

  IsHeld-append :
      (j copy : Job) (rows : List Job)
      → any (has_id j.id) rows ≡ false
      → has_ended j.status ≡ false
      → IsHeld rows copy
      → IsHeld (rows ++ j ∷ []) copy
  IsHeld-append j copy rows fresh new h = record {
    covers = Covers-append j copy rows fresh h.covers;
    opened =
        All-snoc (λ r. has_id copy.id r ≡ true → has_ended r.status ≡ false) rows j h.opened
          (λ same. new);
  }

  OneHolder-append :
      (j : Job) (rows : List Job) (es : List Wire) (ts : List Task)
      → any (has_id j.id) rows ≡ false
      → has_ended j.status ≡ false
      → Settled j
      → OneHolder codec rows es ts
      → OneHolder codec (rows ++ j ∷ []) es ts
  OneHolder-append j rows es ts fresh new ready inv = record {
    settled = All-snoc Settled rows j inv.settled ready;
    entries =
        All-map (Entry codec rows ts) (Entry codec (rows ++ j ∷ []) ts) es
          (λ e h copy read.
            let both = h copy read in (IsHeld-append j copy rows fresh new both.0, both.1))
          inv.entries;
    distinct = inv.distinct;
    tasks =
        All-map (λ t. IsHeld rows (task_job t)) (λ t. IsHeld (rows ++ j ∷ []) (task_job t)) ts
          (λ t h. IsHeld-append j (task_job t) rows fresh new h) inv.tasks;
    different = inv.different;
  }

  -- A job with no row is not the one that a held copy is of.
  absent-IsHeld :
      (j copy : Job) (rows : List Job)
      → any (has_id j.id) rows ≡ false
      → IsHeld rows copy
      → j.id ≢ copy.id
  absent-IsHeld j copy rows fresh h same =
      absurd (cc (fresh, h.covers.present, ap (λ id. any (has_id id) rows) same))

  IsFree-new :
      (j : Job) (rows : List Job) (es : List Wire) (ts : List Task)
      → any (has_id j.id) rows ≡ false
      → has_ended j.status ≡ false
      → OneHolder codec rows es ts
      → IsFree codec (rows ++ j ∷ []) es ts j
  IsFree-new j rows es ts fresh new inv = record {
    held = record {
      covers = Covers-self j rows fresh;
      opened =
          All-snoc (λ r. has_id j.id r ≡ true → has_ended r.status ≡ false) rows j
            (IsOpen-absent j.id rows fresh) (λ same. new);
    };
    not_queued =
        All-map (Entry codec rows ts) (NotQueued codec j) es
          (λ e h copy read. absent-IsHeld j copy rows fresh (h copy read).0) inv.entries;
    not_in =
        All-map (λ t. IsHeld rows (task_job t)) (λ t. (task_job t).id ≢ j.id) ts
          (λ t h same. absent-IsHeld j (task_job t) rows fresh h (sym same)) inv.tasks;
  }

  -- What one step does to the rows, and what holds behind it.
  abbrev pub Advances : Running Wire → Running Wire → Type 0
  Advances s s' =
      EndedStays s.world.jobs s'.world.jobs
      × OneHolder codec s'.world.jobs (s'.world.redis.lists queue_key) s'.tasks

  Advances-inserted :
      (c : CreateCalls) (o : Outcome) (j : Job) (s : Running Wire)
      → any (has_id j.id) s.world.jobs ≡ false
      → has_ended j.status ≡ false
      → Settled j
      → OneHolder codec s.world.jobs (s.world.redis.lists queue_key) s.tasks
      → Advances s (insert_answered c j s (effect o (λ rs. rs ++ j ∷ []) s.world.jobs, failure o))
  unfolding insert_answered
  Advances-inserted c done j s fresh new ready inv =
      let es = s.world.redis.lists queue_key in
      (
        EndedStays-append s.world.jobs (j ∷ []),
        OneHolder-add codec (inserted c j) (s.world.jobs ++ j ∷ []) es s.tasks
            (OneHolder-append j s.world.jobs es s.tasks fresh new ready inv)
            (IsFree-new j s.world.jobs es s.tasks fresh new inv),
      )
  Advances-inserted c (refused e) j s fresh new ready inv = (EndedStays-same s.world.jobs, inv)
  Advances-inserted c (lost e) j s fresh new ready inv = (
    EndedStays-append s.world.jobs (j ∷ []),
    OneHolder-append j s.world.jobs (s.world.redis.lists queue_key) s.tasks fresh new ready inv,
  )

  new_job_open :
      (c : CreateCalls) (req : CreateJobRequest) → has_ended (new_job c req).status ≡ false
  unfolding new_job
  new_job_open c req = refl

  pub Advances-insert_job :
      (c : CreateCalls) (req : CreateJobRequest) (s : Running Wire)
      → OneHolder codec s.world.jobs (s.world.redis.lists queue_key) s.tasks
      → Advances s (insert_job c req s)
  unfolding insert_job create insert_answered
  Advances-insert_job c req s inv = elim (Bool-cases (str_eq req.type "")) [
    | inl missing ↦ rw missing (EndedStays-same s.world.jobs, inv)
    | inr given ↦ elim (Bool-cases (any (has_id (new_job c req).id) s.world.jobs)) [
      | inl taken ↦ rw (given, taken) (EndedStays-same s.world.jobs, inv)
      | inr fresh ↦
          rw (given, fresh)
            (Advances-inserted c c.insert (new_job c req) s fresh (new_job_open c req)
              (new_job-Settled c req) inv)
    ]
  ]
