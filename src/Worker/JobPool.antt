-- ===== src/Worker/JobPool.antt =====
-- app/pkg/worker/job.go: the contexts of background jobs by identifier. A context is its number, in
-- the order in which they are made.
pub mod Refines
pub mod Leaks
use service_platform.Prelude.{
  ℕ, ◌+◌, String, Bool, true, false, Option, none, some, List, [], ◌∷◌, ◌++◌, map, Assoc, lookup,
  insert, remove,
}

pub record JobPool : Type 0 where
  pub job_list : Assoc ℕ
  pub made : ℕ
  pub cancelled : List ℕ

unfoldable pub new_job_pool : JobPool
new_job_pool = record { job_list = []; made = 0; cancelled = [] }

-- The context that is handed to the task; one that is in the list under the identifier is replaced.
unfoldable pub new_job : String → JobPool → JobPool × ℕ
new_job id p = (record p { job_list = insert id p.made p.job_list; made = p.made + 1 }, p.made)

abbrev pub is_some : Option ℕ → Bool
is_some none = false
is_some (some c) = true

unfoldable pub is_job_valid : String → JobPool → Bool
is_job_valid id p = is_some (lookup id p.job_list)

unfoldable pub stop_job : String → JobPool → JobPool
stop_job id p = elim (lookup id p.job_list) [
  | none ↦ p
  | some c ↦ record p { job_list = remove id p.job_list; cancelled = c ∷ p.cancelled }
]

unfoldable pub stop_all_jobs : JobPool → JobPool
stop_all_jobs p = record p { job_list = []; cancelled = map (λ e. e.1) p.job_list ++ p.cancelled }

-- What is done to a pool.
pub data Operation : Type 0 where
  starts : String → Operation
  stops : String → Operation
  stops_all : Operation

unfoldable pub apply : Operation → JobPool → JobPool
unfolding new_job stop_job stop_all_jobs
apply (starts id) p = (new_job id p).0
apply (stops id) p = stop_job id p
apply stops_all p = stop_all_jobs p

unfoldable pub apply_all : List Operation → JobPool → JobPool
unfolding apply
apply_all [] p = p
apply_all (o ∷ os) p = apply_all os (apply o p)
