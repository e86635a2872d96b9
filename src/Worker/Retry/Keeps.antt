-- ===== src/Worker/Retry/Keeps.antt =====
-- What the worker does to the table and to the queue while it processes one job.
use service_platform.Prelude.{
  ℕ, ◌+◌, ◌≤◌, String, ◌≡◌, refl, Option, none, some, List, arith, All, All-map, inl, inr,
  Bool-cases, leb, leb→le, ◌∙◌,
}
use service_platform.Prelude.Outcome.{Outcome, Call, Err}
use service_platform.Constant.{Status, failed, retrying, processing, completed}
use service_platform.Entity.{Job}
use service_platform.JobRepository.{
  set_error, update_job_to_processing, update_job_to_completed, update_job_to_failed,
  update_job_to_retrying,
}
use service_platform.RedisQueue.{mark_processing, mark_completed, mark_failed}
use service_platform.RedisQueue.Server.{Redis, zadd, zrem}
use service_platform.Worker.Pool.{
  World, ProcessCalls, handle_job_success, handle_job_failure, finish_job, process_marked,
  process_job, run_handler,
}
use service_platform.Worker.Registry.{JobHandlerRegistry}
use service_platform.Worker.Retry.Rows.{
  All-exec_update, All-both, Grows, Follows, Covers, Covers-exec_update,
}

-- A job marked as failed has no attempts left.
abbrev pub Settled : Job → Type 0
Settled j = j.status ≡ failed → j.max_attempts ≤ j.attempts

-- What an update that is not a failure does to a row.
Grows-processing :
    (t u : ℕ)
    → Grows (λ j. record j { status = processing; started_at = some t; updated_at = some u })
Grows-processing t u = record {
  same_id = λ j. refl;
  same_max = λ j. refl;
  more_attempts = λ j. omega arith;
}

Grows-completed :
    (t u : ℕ)
    → Grows (λ j. record j { status = completed; completed_at = some t; updated_at = some u })
Grows-completed t u = record {
  same_id = λ j. refl;
  same_max = λ j. refl;
  more_attempts = λ j. omega arith;
}

abbrev counted : Status → ℕ → String → Job → Job
counted s u msg j =
    set_error msg (record j { status = s; attempts = j.attempts + 1; updated_at = some u })

Grows-counted : (s : Status) (u : ℕ) (msg : String) → Grows (counted s u msg)
Grows-counted s u msg = record {
  same_id = λ j. ground arith;
  same_max = λ j. ground arith;
  more_attempts = λ j. ground arith;
}

-- One operation on the table keeps what the invariant says of it.
pub record KeepsRows (rows rows' : List Job) : Type 0 where
  pub settled : All Settled rows → All Settled rows'
  pub covers : (copy : Job) → Covers rows copy → Covers rows' copy

pub KeepsRows-processing :
    (c : Call) (id : String) (t : ℕ) (rows : List Job)
    → KeepsRows rows (update_job_to_processing c id t rows).0
unfolding update_job_to_processing
KeepsRows-processing c id t rows = record {
  settled = All-exec_update Settled _ _ c.outcome rows (λ j hit h e. cc);
  covers = λ copy. Covers-exec_update c.outcome _ _ rows copy (Grows-processing t c.at);
}

KeepsRows-completed :
    (c : Call) (id : String) (t : ℕ) (rows : List Job)
    → KeepsRows rows (update_job_to_completed c id t rows).0
unfolding update_job_to_completed
KeepsRows-completed c id t rows = record {
  settled = All-exec_update Settled _ _ c.outcome rows (λ j hit h e. cc);
  covers = λ copy. Covers-exec_update c.outcome _ _ rows copy (Grows-completed t c.at);
}

KeepsRows-retrying :
    (c : Call) (id msg : String) (rows : List Job)
    → KeepsRows rows (update_job_to_retrying c id msg rows).0
unfolding update_job_to_retrying
KeepsRows-retrying c id msg rows = record {
  settled = All-exec_update Settled _ _ c.outcome rows (λ j hit h. ground arith);
  covers = λ copy. Covers-exec_update c.outcome _ _ rows copy (Grows-counted retrying c.at msg);
}

-- The last failure of a copy that the table covers.
KeepsRows-failed :
    (c : Call) (copy : Job) (msg : String) (rows : List Job)
    → Covers rows copy
    → copy.max_attempts ≤ copy.attempts + 1
    → KeepsRows rows (update_job_to_failed c copy.id msg rows).0
unfolding update_job_to_failed
KeepsRows-failed c copy msg rows cov spent = record {
  settled = λ h.
      All-map (λ r. Settled r × Follows copy r) Settled _ (λ r both. both.0)
        (All-exec_update (λ r. Settled r × Follows copy r) _ _ c.outcome rows
          (λ r hit both. (ground arith, ground arith))
          (All-both Settled (Follows copy) rows h cov.followed));
  covers = λ other. Covers-exec_update c.outcome _ _ rows other (Grows-counted failed c.at msg);
}

KeepsRows-trans : {a b c : List Job} → KeepsRows a b → KeepsRows b c → KeepsRows a c
KeepsRows-trans h k = record {
  settled = λ s. k.settled (h.settled s);
  covers = λ copy v. k.covers copy (h.covers copy v);
}

KeepsRows-refl : (a : List Job) → KeepsRows a a
KeepsRows-refl a = record { settled = λ s. s; covers = λ copy v. v }

-- Marks touch no list.
pub lists-mark_processing :
    {W : Type 0} (c : Call) (id : String) (r : Redis W) → (mark_processing c id r).0.lists ≡ r.lists
unfolding mark_processing zadd
lists-mark_processing c id r = ground arith

lists-mark_completed :
    {W : Type 0} (o : Outcome) (id : String) (r : Redis W)
    → (mark_completed o id r).0.lists ≡ r.lists
unfolding mark_completed zrem
lists-mark_completed o id r = ground arith

lists-mark_failed :
    {W : Type 0} (c : Call) (id : String) (d : ℕ) (r : Redis W)
    → (mark_failed c id d r).0.lists ≡ r.lists
unfolding mark_failed zrem zadd
lists-mark_failed c id d r = ground arith

-- What processing a job does to the table and to the lists.
pub record KeepsWorld {W : Type 0} (w w' : World W) : Type 0 where
  pub rows : KeepsRows w.jobs w'.jobs
  pub lists : w'.redis.lists ≡ w.redis.lists

module _ {W : Type 0} (beyond : ℕ → ℕ) (registry : JobHandlerRegistry) where
  KeepsWorld-success :
      (c : ProcessCalls) (j : Job) (w : World W) → KeepsWorld w (handle_job_success c j w)
  unfolding handle_job_success
  KeepsWorld-success c j w = record {
    rows = KeepsRows-completed c.finish j.id c.completed_at w.jobs;
    lists = lists-mark_completed c.unmark.outcome j.id w.redis;
  }

  KeepsWorld-failure :
      (c : ProcessCalls) (j : Job) (msg : String) (w : World W)
      → Covers w.jobs j
      → KeepsWorld w (handle_job_failure beyond c j msg w)
  unfolding handle_job_failure
  KeepsWorld-failure c j msg w cov = elim (Bool-cases (leb j.max_attempts (j.attempts + 1))) [
    | inl last ↦ rw last (record {
      rows = KeepsRows-failed c.finish j msg w.jobs cov (leb→le _ _ last);
      lists = lists-mark_failed c.unmark j.id 0 w.redis;
    })
    | inr more ↦ rw more (record {
      rows = KeepsRows-retrying c.finish j.id msg w.jobs;
      lists = lists-mark_failed c.unmark j.id _ w.redis;
    })
  ]

  pub KeepsWorld-finish :
      (c : ProcessCalls) (j : Job) (o : Option String) (w : World W)
      → Covers w.jobs j
      → KeepsWorld w (finish_job beyond c j o w)
  unfolding finish_job
  KeepsWorld-finish c j none w cov = KeepsWorld-success c j w
  KeepsWorld-finish c j (some msg) w cov = KeepsWorld-failure c j msg w cov

  KeepsWorld-process_marked :
      (c : ProcessCalls) (j : Job) (o : Option Err) (w : World W)
      → Covers w.jobs j
      → KeepsWorld w (process_marked beyond registry c j o w)
  unfolding process_marked
  KeepsWorld-process_marked c j (some e) w cov = record {
    rows = KeepsRows-refl w.jobs;
    lists = refl;
  }
  KeepsWorld-process_marked c j none w cov =
      let started = KeepsRows-processing c.start j.id c.start_time w.jobs in
      let rest =
        KeepsWorld-finish c j (run_handler registry j)
          (record w { jobs = (update_job_to_processing c.start j.id c.start_time w.jobs).0 })
          (started.covers j cov) in
      record { rows = KeepsRows-trans started rest.rows; lists = rest.lists }

  -- Processing a job that the table covers keeps what is said of the rows, and touches no list.
  pub KeepsWorld-process_job :
      (c : ProcessCalls) (j : Job) (w : World W)
      → Covers w.jobs j
      → KeepsWorld w (process_job beyond registry c j w)
  unfolding process_job
  KeepsWorld-process_job c j w cov =
      let (redis', marked) = mark_processing c.mark j.id w.redis in
      let rest = KeepsWorld-process_marked c j marked (record w { redis = redis' }) cov in
      record { rows = rest.rows; lists = rest.lists ∙ lists-mark_processing c.mark j.id w.redis }
