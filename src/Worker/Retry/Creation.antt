-- ===== src/Worker/Retry/Creation.antt =====
-- The creation of a job under the invariant of the job system.
use service_platform.Prelude.{
  ℕ, String, ◌≡◌, refl, Bool, true, false, Option, List, [], ◌∷◌, ◌++◌, arith, any, All, All-map,
  All-snoc, str_eq, eq_iff, eq_refl, inl, inr, Bool-cases, sym, ap, ◌∙◌,
}
use mathlib.Core.Path.{subst}
use service_platform.Prelude.Outcome.{
  Outcome, done, refused, lost, effect, failure, Call, Result, ok, err,
}
use service_platform.Entity.{Job}
use service_platform.JobRepository.{has_id, create}
use service_platform.JobManager.{
  CreateCalls, CreateJobRequest, new_job, enqueue_created, create_job,
}
use service_platform.RedisQueue.{queue_key, enqueue, enqueue_wire, enqueue_commands, schedule_at}
use service_platform.RedisQueue.Server.{Codec, RoundTrips, Redis, lpush, zadd}
use service_platform.Worker.Pool.{World}
use service_platform.Worker.System.{backend_of, with_backend}
use service_platform.Worker.Retry.Rows.{Follows, Covers}
use service_platform.Worker.Retry.Keeps.{Settled}
use service_platform.Worker.Retry.Invariant.{RetryInv, IsCovered}

ok-injective {ℓ} : {A : Type ℓ} {a b : A} → ok a ≡ ok b → a ≡ b
ok-injective e = cc

pub new_job-Settled : (c : CreateCalls) (req : CreateJobRequest) → Settled (new_job c req)
unfolding new_job
new_job-Settled c req = λ e. cc

-- A table with no row of an identifier has no row to follow a copy with it.
Follows-absent :
    (copy : Job) (rows : List Job) → any (has_id copy.id) rows ≡ false → All (Follows copy) rows
Follows-absent copy [] h = tt
Follows-absent copy (r ∷ rows) h = elim (Bool-cases (has_id copy.id r)) [
  | inl same ↦ absurd (absent same)
  | inr other ↦ ((λ same. cc), Follows-absent copy rows (rw other at h))
]
  where
    absent : has_id copy.id r ≡ true → ⊥
    absent same = ground arith

any-append_self : (j : Job) (rows : List Job) → any (has_id j.id) (rows ++ j ∷ []) ≡ true
any-append_self j [] = rw (eq_refl j.id)
any-append_self j (r ∷ rows) = ground (arith, any-append_self j rows)

any-append_old :
    (p : Job → Bool) (j : Job) (rows : List Job) → any p rows ≡ true → any p (rows ++ j ∷ []) ≡ true
any-append_old p j [] h = cc
any-append_old p j (r ∷ rows) h = ground (arith, any-append_old p j rows)

-- The new row has an identifier of its own, so that no copy in the queue is followed by it.
pub Covers-append :
    (j copy : Job) (rows : List Job)
    → any (has_id j.id) rows ≡ false
    → Covers rows copy
    → Covers (rows ++ j ∷ []) copy
Covers-append j copy rows fresh cov = record {
  present = any-append_old (has_id copy.id) j rows cov.present;
  followed = All-snoc (Follows copy) rows j cov.followed (λ same.
      let e : j.id ≡ copy.id = (eq_iff j.id copy.id).0 same in
      cc (fresh, cov.present, ap (λ i. any (has_id i) rows) e));
}

pub Covers-self :
    (j : Job) (rows : List Job) → any (has_id j.id) rows ≡ false → Covers (rows ++ j ∷ []) j
Covers-self j rows fresh = record {
  present = any-append_self j rows;
  followed =
      All-snoc (Follows j) rows j (Follows-absent j rows fresh) (λ same. (refl, omega arith));
}

module _ (codec : Codec) (json : RoundTrips codec) where
  open codec use {Wire, marshal, unmarshal}

  pub lists-schedule_at :
      (id : String) (now : ℕ) (t : Option ℕ) (r : Redis Wire)
      → (schedule_at id now t r).lists ≡ r.lists
  unfolding zadd
  lists-schedule_at id now t r = ground arith

  IsCovered-enqueue_commands :
      (now : ℕ) (j : Job) (e : Wire) (rows : List Job) (r : Redis Wire)
      → Covers rows j
      → marshal j ≡ ok e
      → All (IsCovered codec rows) (r.lists queue_key)
      → All (IsCovered codec rows) ((enqueue_commands codec now j e r).lists queue_key)
  unfolding enqueue_commands lpush
  IsCovered-enqueue_commands now j e rows r cov written h =
      rw (lists-schedule_at (codec.uuid_bytes j.id) now j.scheduled_at (lpush queue_key e r)) (
        λ copy read.
            let same : ok j ≡ ok copy = sym (json.reads_back j e written) ∙ read in
            subst (λ x. Covers rows x) (ok-injective same) cov,
        h,
      )

  IsCovered-enqueue_wire :
      (c : Call) (j : Job) (m : Result Wire) (rows : List Job) (r : Redis Wire)
      → Covers rows j
      → marshal j ≡ m
      → All (IsCovered codec rows) (r.lists queue_key)
      → All (IsCovered codec rows) ((enqueue_wire codec c j m r).0.lists queue_key)
  unfolding enqueue_wire
  IsCovered-enqueue_wire c j (err e) rows r cov written h = h
  IsCovered-enqueue_wire c j (ok e) rows r cov written h = by_outcome c.outcome
    where
      by_outcome :
          (o : Outcome)
          → All
              (IsCovered codec rows)
              ((effect o (enqueue_commands codec c.at j e) r).lists queue_key)
      by_outcome done = IsCovered-enqueue_commands c.at j e rows r cov written h
      by_outcome (refused x) = h
      by_outcome (lost x) = IsCovered-enqueue_commands c.at j e rows r cov written h

  -- A job that the table covers goes into the queue.
  pub IsCovered-enqueue :
      (c : Call) (j : Job) (rows : List Job) (r : Redis Wire)
      → Covers rows j
      → All (IsCovered codec rows) (r.lists queue_key)
      → All (IsCovered codec rows) ((enqueue codec c j r).0.lists queue_key)
  unfolding enqueue
  IsCovered-enqueue c j rows r cov h = IsCovered-enqueue_wire c j (marshal j) rows r cov refl h

  RetryInv-append :
      (j : Job) (w : World Wire)
      → any (has_id j.id) w.jobs ≡ false
      → Settled j
      → RetryInv codec w
      → RetryInv codec (record w { jobs = w.jobs ++ j ∷ [] })
  RetryInv-append j w fresh ready inv = record {
    settled = All-snoc Settled w.jobs j inv.settled ready;
    covered =
        All-map (IsCovered codec w.jobs) (IsCovered codec (w.jobs ++ j ∷ [])) _
          (λ e h copy read. Covers-append j copy w.jobs fresh (h copy read)) inv.covered;
  }

  -- The row is inserted, and the job is put into the queue if the program has seen no error.
  RetryInv-inserted :
      (c : CreateCalls) (o : Outcome) (j : Job) (w : World Wire)
      → any (has_id j.id) w.jobs ≡ false
      → Settled j
      → RetryInv codec w
      → RetryInv codec (
          with_backend w
            (enqueue_created codec c j w.redis (effect o (λ rs. rs ++ j ∷ []) w.jobs, failure o)).0)
  unfolding enqueue_created
  RetryInv-inserted c done j w fresh ready inv =
      let more = RetryInv-append j w fresh ready inv in
      record {
        settled = more.settled;
        covered =
            IsCovered-enqueue c.enqueue j (w.jobs ++ j ∷ []) w.redis (Covers-self j w.jobs fresh)
              more.covered;
      }
  RetryInv-inserted c (refused e) j w fresh ready inv = record {
    settled = inv.settled;
    covered = inv.covered;
  }
  RetryInv-inserted c (lost e) j w fresh ready inv =
      let more = RetryInv-append j w fresh ready inv in
      record { settled = more.settled; covered = more.covered }

  -- A job that is created, or whose creation fails at any point, keeps the invariant.
  pub RetryInv-create_job :
      (c : CreateCalls) (req : CreateJobRequest) (w : World Wire)
      → RetryInv codec w
      → RetryInv codec (with_backend w (create_job codec c req (backend_of w)).0)
  unfolding create_job create
  RetryInv-create_job c req w inv = elim (Bool-cases (str_eq req.type "")) [
    | inl missing ↦ rw missing (record { settled = inv.settled; covered = inv.covered })
    | inr given ↦ elim (Bool-cases (any (has_id (new_job c req).id) w.jobs)) [
      | inl taken ↦ rw (given, taken) (record { settled = inv.settled; covered = inv.covered })
      | inr fresh ↦
          rw (given, fresh)
            (RetryInv-inserted c c.insert (new_job c req) w fresh (new_job-Settled c req) inv)
    ]
  ]
