-- ===== src/Tests/Servers.antt =====
-- Values for what is not the program's: the texts of jobs, and the SQL server's answers.
use service_platform.Prelude.{
  ℕ, zero, suc, ◌≤◌, ◌≡◌, arith, Bool, true, none, some, List, [], ◌∷◌, All, filter, take, length,
  inl, inr, Bool-cases,
}
use service_platform.Prelude.Outcome.{pos, done, Call, ok}
use service_platform.Constant.{pending}
use service_platform.Entity.{Job, end}
use service_platform.JobRepository.Sql.{Engine}
use service_platform.RedisQueue.Server.{Codec, RoundTrips, Redis}
use service_platform.Worker.Pool.{World, PoolStats, ProcessCalls}

abbrev pub plain : Codec
plain = record { Wire = Job; marshal = λ j. ok j; unmarshal = λ j. ok j; uuid_bytes = λ id. id }

pub plain-RoundTrips : RoundTrips plain
plain-RoundTrips = record { reads_back = λ j w written. rw written }

pub All-filter :
    (P : Job → Type 0) (p : Job → Bool) (rows : List Job)
    → All P rows
    → All (λ j. P j × (p j ≡ true)) (filter p rows)
All-filter P p [] h = tt
All-filter P p (j ∷ rows) h = elim (Bool-cases (p j)) [
  | inl hit ↦ rw hit ((h.0, hit), All-filter P p rows h.1)
  | inr miss ↦ rw miss (All-filter P p rows h.1)
]

pub All-take : (P : Job → Type 0) (n : ℕ) (rows : List Job) → All P rows → All P (take n rows)
All-take P zero rows h = tt
All-take P (suc n) [] h = tt
All-take P (suc n) (j ∷ rows) h = (h.0, All-take P n rows h.1)

pub length-take_le : (n : ℕ) (rows : List Job) → length (take n rows) ≤ n
length-take_le zero rows = omega arith
length-take_le (suc n) [] = omega arith
length-take_le (suc n) (j ∷ rows) = omega (arith, length-take_le n rows)

abbrev pub first_rows : Engine
first_rows = record {
  select = λ q limit rows. take limit (filter q.picks rows);
  select_picked = λ P q limit rows h.
      All-take (λ j. P j × (q.picks j ≡ true)) limit _ (All-filter P q.picks rows h);
  select_limited = λ q limit rows. length-take_le limit _;
}

-- A call that is answered at the given time.
abbrev pub at_time : ℕ → Call
at_time t = record { outcome = done; at = t }

abbrev pub answered : ProcessCalls
answered = record {
  mark = at_time 1;
  start_time = 2;
  start = at_time 3;
  completed_at = 4;
  finish = at_time 5;
  unmark = at_time 6;
}

abbrev pub empty_redis : Redis Job
empty_redis = record { lists = λ k. []; zsets = λ k. [] }

abbrev pub no_stats : PoolStats
no_stats = record {
  total_workers = 2;
  active_workers = 0;
  processing_jobs = 0;
  total_processed = 0;
  total_failed = 0;
  queue_depths = [];
}

abbrev pub fresh_world : World Job
fresh_world = record { jobs = []; redis = empty_redis; stats = no_stats }

abbrev pub claim : Job
claim = record {
  id = "job-1";
  type = "unknown_type";
  priority = pos 1;
  payload = some end;
  attempts = 0;
  max_attempts = 3;
  created_at = 0;
  updated_at = none;
  deleted_at = none;
  scheduled_at = none;
  started_at = none;
  completed_at = none;
  status = pending;
  error = "";
}
