-- ===== src/Worker/Pool/Process.antt =====
-- What becomes of a job that a worker processes, where the servers answer.
use service_platform.Prelude.{
  update_rows, ℕ, ◌+◌, String, ◌≡◌, refl, arith, Bool, Option, none, some, List, [], ◌∷◌, leb, inl,
  inr, Bool-cases, ◌∙◌, if◌then◌else◌, lookup, lookup-insert, lookup-remove, eq_refl,
}
use service_platform.Prelude.Outcome.{Err, done, Call}
use service_platform.Constant.{completed, failed, retrying}
use service_platform.Entity.{Job}
use service_platform.JobRepository.{
  is_live_row, set_error, update_job_to_processing, update_job_to_completed, update_job_to_failed,
  update_job_to_retrying,
}
use service_platform.RedisQueue.{
  processing_set_key, retry_set_key, unix, is_positive, mark_processing, mark_completed,
  mark_failed,
}
use service_platform.RedisQueue.Server.{Redis, zadd, zrem}
use service_platform.Worker.Backoff.{calculate_retry_delay}
use service_platform.Worker.Registry.{JobHandlerRegistry}
use service_platform.Worker.Pool.{
  World, ProcessCalls, handle_job_success, handle_job_failure, run_handler, finish_job,
  process_marked, process_job,
}

-- All the answers of the servers are given.
pub record Answered (c : ProcessCalls) : Type 0 where
  pub mark : c.mark.outcome ≡ done
  pub start : c.start.outcome ≡ done
  pub finish : c.finish.outcome ≡ done
  pub unmark : c.unmark.outcome ≡ done

-- The row of a job behind its processing, by the outcome of the handler and by the attempts that
-- the worker's copy has counted and is allowed.
abbrev pub processed_row : ProcessCalls → Job → Option String → Job → Job
processed_row c copy none r = record r {
  status = completed;
  started_at = some c.start_time;
  completed_at = some c.completed_at;
  updated_at = some c.finish.at;
}
processed_row c copy (some msg) r = set_error msg (record r {
  status = if leb copy.max_attempts (copy.attempts + 1) then failed else retrying;
  attempts = r.attempts + 1;
  started_at = some c.start_time;
  updated_at = some c.finish.at;
})

update_rows_twice :
    (p : Job → Bool) (f g h : Job → Job) (rows : List Job)
    → ((j : Job) → p (f j) ≡ p j)
    → ((j : Job) → g (f j) ≡ h j)
    → update_rows p g (update_rows p f rows) ≡ update_rows p h rows
unfolding update_rows
update_rows_twice p f g h [] same both = refl
update_rows_twice p f g h (j ∷ rows) same both = elim (Bool-cases (p j)) [
  | inl hit ↦ rw (hit, same j, hit, both j, update_rows_twice p f g h rows same both) refl
  | inr miss ↦ rw (miss, miss, update_rows_twice p f g h rows same both) refl
]

module _ {W : Type 0} (beyond : ℕ → ℕ) (registry : JobHandlerRegistry) where
  finish_job-rows :
      (c : ProcessCalls) (copy : Job) (o : Option String) (w : World W)
      → Answered c
      → (finish_job beyond c copy o (record w {
        jobs = (update_job_to_processing c.start copy.id c.start_time w.jobs).0;
      })).jobs
        ≡ update_rows (is_live_row copy.id) (processed_row c copy o) w.jobs
  unfolding finish_job handle_job_success handle_job_failure update_job_to_processing
      update_job_to_completed update_job_to_failed update_job_to_retrying
  finish_job-rows c copy none w a =
      rw (a.start, a.finish)
        (update_rows_twice (is_live_row copy.id) _ _ _ w.jobs (λ j. refl) (λ j. refl))
  finish_job-rows c copy (some msg) w a =
      elim (Bool-cases (leb copy.max_attempts (copy.attempts + 1))) [
        | inl last ↦
            rw (last, a.start, a.finish)
              (update_rows_twice (is_live_row copy.id) _ _ _ w.jobs (λ j. refl) (λ j. ground arith))
        | inr more ↦
            rw (more, a.start, a.finish)
              (update_rows_twice (is_live_row copy.id) _ _ _ w.jobs (λ j. refl) (λ j. ground arith))
      ]

  finish_marked :
      (c : ProcessCalls) (copy : Job) (o : Option Err) (w : World W)
      → Answered c
      → o ≡ none
      → (process_marked beyond registry c copy o w).jobs
        ≡ update_rows
            (is_live_row copy.id)
            (processed_row c copy (run_handler registry copy))
            w.jobs
  unfolding process_marked
  finish_marked c copy none w a e = finish_job-rows c copy (run_handler registry copy) w a
  finish_marked c copy (some x) w a e = cc

  -- Where all servers answer, a worker changes just the rows of its job that are not deleted: a job
  -- whose handler succeeds is completed; one whose handler fails, or that has no handler, has one
  -- more attempt and the error, and is failed if the copy's attempts are used up, and otherwise
  -- retrying.
  pub jobs-process_job :
      (c : ProcessCalls) (copy : Job) (w : World W)
      → Answered c
      → (process_job beyond registry c copy w).jobs
        ≡ update_rows
            (is_live_row copy.id)
            (processed_row c copy (run_handler registry copy))
            w.jobs
  unfolding process_job mark_processing
  jobs-process_job c copy w a = finish_marked c copy _ _ a (rw a.mark)

-- What the retry set says of a job behind its processing.
abbrev pub retry_mark : (ℕ → ℕ) → ProcessCalls → Job → Option String → Option ℕ → Option ℕ
retry_mark beyond c copy none old = old
retry_mark beyond c copy (some msg) old =
    let delay = calculate_retry_delay beyond (copy.attempts + 1) in
    if leb copy.max_attempts (copy.attempts + 1)
    then old
    else if is_positive delay
    then some (unix (c.unmark.at + delay))
    else old

module _ {W : Type 0} (beyond : ℕ → ℕ) where
  abbrev pub MarksOf : ProcessCalls → Job → Option String → World W → World W → Type 0
  MarksOf c copy o w w' =
      (lookup copy.id (w'.redis.zsets processing_set_key) ≡ none)
      × (lookup copy.id (w'.redis.zsets retry_set_key)
          ≡ retry_mark beyond c copy o (lookup copy.id (w.redis.zsets retry_set_key)))

  mark_failed-marks :
      (c : Call) (id : String) (d : ℕ) (r : Redis W)
      → c.outcome ≡ done
      → let r' = (mark_failed c id d r).0 in
        (lookup id (r'.zsets processing_set_key) ≡ none)
        × (lookup id (r'.zsets retry_set_key)
            ≡ (if is_positive d then some (unix (c.at + d)) else lookup id (r.zsets retry_set_key)))
  unfolding mark_failed zadd zrem
  mark_failed-marks c id d r a = elim (Bool-cases (is_positive d)) [
    | inl later ↦ rw (a, later) (simp (lookup-remove, eq_refl), simp (lookup-insert, eq_refl))
    | inr never ↦ rw (a, never) (simp (lookup-remove, eq_refl), refl)
  ]

  finish_job-marks :
      (c : ProcessCalls) (copy : Job) (o : Option String) (w : World W)
      → Answered c
      → MarksOf c copy o w (finish_job beyond c copy o w)
  unfolding finish_job handle_job_success handle_job_failure mark_completed zrem
  finish_job-marks c copy none w a = rw a.unmark (simp (lookup-remove, eq_refl), refl)
  finish_job-marks c copy (some msg) w a =
      elim (Bool-cases (leb copy.max_attempts (copy.attempts + 1))) [
        | inl last ↦ rw last (mark_failed-marks c.unmark copy.id 0 w.redis a.unmark)
        | inr more ↦ rw more (
            mark_failed-marks c.unmark copy.id (calculate_retry_delay beyond (copy.attempts + 1))
              w.redis a.unmark)
      ]

  process_marked-marks :
      (registry : JobHandlerRegistry) (c : ProcessCalls) (copy : Job) (o : Option Err) (w : World W)
      → Answered c
      → o ≡ none
      → MarksOf c copy (run_handler registry copy) w (process_marked beyond registry c copy o w)
  unfolding process_marked
  process_marked-marks registry c copy none w a e =
      finish_job-marks c copy (run_handler registry copy) (record w { jobs = _ }) a
  process_marked-marks registry c copy (some x) w a e = cc

  -- Where all servers answer, a job that was processed is no longer in the processing set; and it
  -- enters the retry set, at the time of its delay, just when its handler failed with attempts left
  -- and the delay is positive.
  pub marks-process_job :
      (registry : JobHandlerRegistry) (c : ProcessCalls) (copy : Job) (w : World W)
      → Answered c
      → MarksOf c copy (run_handler registry copy) w (process_job beyond registry c copy w)
  unfolding process_job mark_processing zadd
  marks-process_job registry c copy w a =
      let (redis', marked) = mark_processing c.mark copy.id w.redis in
      let h =
        process_marked-marks registry c copy marked (record w { redis = redis' }) a (rw a.mark) in
      (h.0, h.1 ∙ rw a.mark)
