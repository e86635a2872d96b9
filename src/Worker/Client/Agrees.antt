-- ===== src/Worker/Client/Agrees.antt =====
-- What the client says of a job that it was given by the name of its task.
use service_platform.Prelude.{
  String, ◌≡◌, refl, ◌⊎◌, true, none, some, List, str_eq, if◌then◌else◌, inl, inr,
}
use service_platform.Prelude.Outcome.{Option-cases}
use service_platform.Worker.JobPool.Refines.{is_job_valid-new_job}
use service_platform.Worker.Client.{
  JobOption, Cron, DefaultClient, get_task, is_job_valid, add_job, add_job_name, undefined_task,
}

module _ {S F A : Type 0} (gocron : Cron S F A) where
  -- The job counts as valid, whatever gocron has answered, and no other job is touched.
  abbrev pub Enters : String → DefaultClient S F → DefaultClient S F → Type 0
  Enters id d d' =
      (other : String)
      → is_job_valid other d' ≡ (if str_eq id other then true else is_job_valid other d)

  add_job-Enters :
      (id : String) (jo : List JobOption) (f : F) (args : List A) (d : DefaultClient S F)
      → Enters id d (add_job gocron id jo f args d).0
  unfolding add_job is_job_valid
  add_job-Enters id jo f args d other = is_job_valid-new_job other id d.job_pool

  -- A task that is not defined is an error and changes nothing. Otherwise the job counts as valid
  -- from then on, even if the scheduler has refused it, and no other job does that did not before.
  pub add_job_name-Enters :
      (id name : String) (jo : List JobOption) (args : List A) (d : DefaultClient S F)
      → let a = add_job_name gocron id jo name args d in
        ((get_task name d ≡ none) × (a ≡ (d, some (undefined_task gocron name))))
        ⊎ ((f : F) × (get_task name d ≡ some f) × Enters id d a.0)
  unfolding add_job_name
  add_job_name-Enters id name jo args d = elim (Option-cases (get_task name d)) [
    | inl unknown ↦ inl (unknown, rw (unknown, add_job_name) refl)
    | inr (f, known) ↦ inr (f, known, rw (known, add_job_name) (add_job-Enters id jo f args d))
  ]
