-- ===== src/JobManager/Create.antt =====
-- What the creation of a job leaves in the table and in the queue, on success and on an error.
use service_platform.Prelude.{
  ◌≡◌, refl, ap, sym, Option, none, some, [], ◌∷◌, ◌++◌, arith, any, str_eq, inl, inr, Bool-cases,
}
use service_platform.Prelude.Outcome.{
  Err, Outcome, done, refused, lost, effect, failure, Call, Result, ok, err,
}
use service_platform.Entity.{Job}
use service_platform.JobRepository.{has_id, create}
use service_platform.JobManager.{
  CreateJobRequest, CreateCalls, Backend, new_job, created_or, enqueue_created, create_job,
}
use service_platform.RedisQueue.{enqueue, enqueue_wire}
use service_platform.RedisQueue.Fifo.{waiting, waiting-enqueue}
use service_platform.RedisQueue.Server.{Codec, Redis}

created_or-ok : (j : Job) (o : Option Err) {i : Job} → created_or j o ≡ ok i → (o ≡ none) × (i ≡ j)
created_or-ok j none h = (refl, cc)
created_or-ok j (some e) h = cc

text-ne-ok : {A : Type 0} {e : Err} {a : A} → ◌≡◌ {A = Result A} (err e) (ok a) → ⊥
text-ne-ok h = cc

module _ (codec : Codec) where
  open codec use {Wire, marshal}

  enqueue_wire_accepted :
      (c : Call) (j : Job) (m : Result Wire) (r : Redis Wire)
      → (enqueue_wire codec c j m r).1 ≡ none
      → ((w : Wire) × (m ≡ ok w)) × (c.outcome ≡ done)
  unfolding enqueue_wire
  enqueue_wire_accepted c j (err e) r h = cc
  enqueue_wire_accepted c j (ok w) r h = ((w, refl), ground arith)

  -- What a successful creation has done.
  pub record Created (c : CreateCalls) (req : CreateJobRequest) (b b' : Backend Wire) (j : Job)
      : Type 0 where
    pub job : j ≡ new_job c req
    pub stored : b'.jobs ≡ b.jobs ++ j ∷ []
    pub entry : Wire
    pub written : marshal j ≡ ok entry
    pub queued : waiting b'.redis ≡ waiting b.redis ++ entry ∷ []

  Created-enqueue_created :
      (c : CreateCalls) (req : CreateJobRequest) (b : Backend Wire) (o : Outcome) {j : Job}
      → let a =
          enqueue_created codec c
            (new_job c req)
            b.redis
            (effect o (λ rs. rs ++ new_job c req ∷ []) b.jobs, failure o) in
        a.1 ≡ ok j → Created c req b a.0 j
  unfolding enqueue_created
  Created-enqueue_created c req b (refused e) h = cc
  Created-enqueue_created c req b (lost e) h = cc
  Created-enqueue_created c req b done {j} h =
      let made = created_or-ok (new_job c req) _ h in
      let entry =
        enqueue_wire_accepted c.enqueue (new_job c req) (marshal (new_job c req)) b.redis
          (unfold enqueue in made.0) in
      record {
        job = made.1;
        stored = ap (λ i. b.jobs ++ i ∷ []) (sym made.1);
        entry = entry.0.0;
        written = rw (made.1, entry.0.1) refl;
        queued =
            waiting-enqueue codec c.enqueue (new_job c req) entry.0.0 b.redis entry.1 entry.0.1;
      }

  -- A job that is created is the one that the request and the defaults describe; its row is the
  -- last of the table, and its text waits behind all others in the queue.
  pub create_job-Created :
      (c : CreateCalls) (req : CreateJobRequest) (b : Backend Wire) {j : Job}
      → (create_job codec c req b).1 ≡ ok j
      → Created c req b (create_job codec c req b).0 j
  unfolding create_job create
  create_job-Created c req b h = elim (Bool-cases (str_eq req.type "")) [
    | inl missing ↦ absurd (text-ne-ok (rw missing at h))
    | inr given ↦ elim (Bool-cases (any (has_id (new_job c req).id) b.jobs)) [
      | inl taken ↦ absurd (text-ne-ok (rw (given, taken) at h))
      | inr fresh ↦
          rw (given, fresh) (Created-enqueue_created c req b c.insert (rw (given, fresh) at h))
    ]
  ]
