-- ===== src/Tests/JobPoolTests.antt =====
-- Background jobs, and the start and stop of the listener, at concrete inputs.
use service_platform.Prelude.{
  ℕ, ◌+◌, ◌<◌, String, ◌≡◌, ◌⊎◌, refl, arith, Bool, true, false, Option, none, some, List, [], ◌∷◌,
  str_eq, eq_iff, any, ◌==◌, ◌≢◌, lookup, Assoc, insert, if◌then◌else◌, Bool-cases, inl, inr,
}
use service_platform.Prelude.Outcome.{text}
use service_platform.Worker.JobPool.{
  JobPool, new_job_pool, new_job, is_job_valid, stop_all_jobs, Operation, starts, stops, stops_all,
  apply_all,
}
use service_platform.Worker.JobPool.Refines.{is_member, is_job_valid-apply_all}
use service_platform.Worker.JobPool.Leaks.{IsCancelled, stop_all_jobs-cancels, new_job-leaks}
use service_platform.Worker.Client.{Cron, DefaultClient}
use service_platform.Sqs.Listener.Running.{Life, at_rest}
use service_platform.Sqs.Listener.OneStart.{
  service_called, listener_called, spawned, service_cancelled, Reach, here, next, count,
  Reach-OneStart,
}

abbrev operations : List Operation
operations = starts "a" ∷ starts "b" ∷ stops "a" ∷ starts "a" ∷ []

is_job_valid-apply_all_example :
    is_job_valid "b" (apply_all operations new_job_pool)
    ≡ is_member operations "b" (is_job_valid "b" new_job_pool)
is_job_valid-apply_all_example = is_job_valid-apply_all operations "b" new_job_pool

stop_all_jobs-cancels_example : IsCancelled 1 (stop_all_jobs (apply_all operations new_job_pool))
unfolding is_job_valid lookup new_job_pool service_platform.Worker.JobPool.apply insert
    service_platform.Prelude.remove apply_all
stop_all_jobs-cancels_example =
    stop_all_jobs-cancels operations 1 (refl, (refl, (refl, tt))) (omega arith)

abbrev one_job : JobPool
one_job = record { job_list = ("a", 0) ∷ []; made = 1; cancelled = [] }

only_a : (other : String) → lookup other one_job.job_list ≡ some 0 → "a" ≡ other
unfolding lookup
only_a other h = elim (Bool-cases (str_eq "a" other)) [
  | inl same ↦ (eq_iff "a" other).0 same
  | inr apart ↦ absurd (cc (rw apart at h))
]

new_job-leaks_example :
    (any (λ d. d == 0) (new_job "a" one_job).0.cancelled ≡ false)
    × ((other : String) → lookup other (new_job "a" one_job).0.job_list ≢ some 0)
unfolding lookup
new_job-leaks_example = new_job-leaks "a" 0 one_job refl only_a refl (omega arith)

-- A scheduler that refuses every job.
abbrev refusing : Cron ℕ ℕ ℕ
refusing = record {
  new_job = λ definition task options s. (s, some (text "refused"));
  remove_job = λ id s. (s, none);
  stop_jobs = λ s. s;
}

abbrev client : DefaultClient ℕ ℕ
client = record { cron = 0; task_list = ("clean", 7) ∷ []; job_pool = one_job }

-- The service is called, its listener starts, and the context of the service ends.
abbrev shut : (w : Life) × Reach at_rest w
unfolding service_platform.Sqs.Listener.Running.service_entered
    service_platform.Sqs.Listener.Running.listener_entered
shut = (
  _,
  next
      (next (next (next here service_called) (listener_called (omega arith)))
        (spawned (omega arith)))
      (service_cancelled (omega arith)),
)

Reach-OneStart_example :
    (shut.0.serving + shut.0.closing ≡ count shut.0.service_running)
    × (shut.0.spawning + shut.0.waiting + shut.0.ending ≡ count shut.0.listener_running)
    × (shut.0.service_running ≡ false
        → (shut.0.called + shut.0.spawning + shut.0.waiting + shut.0.ending + shut.0.draining ≡ 0)
          × (shut.0.listener_running ≡ false))
Reach-OneStart_example = Reach-OneStart shut.1
