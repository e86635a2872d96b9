-- ===== src/Worker/JobPool/Refines.antt =====
-- The pool as a set of identifiers.
use service_platform.Prelude.{
  ℕ, String, ◌≡◌, refl, sym, ap, ◌∙◌, Bool, true, false, Option, none, some, List, [], ◌∷◌, lookup,
  lookup-insert, lookup-remove, str_eq, eq_iff, inl, inr, Bool-cases, if◌then◌else◌, remove,
}
use service_platform.Prelude.Outcome.{Option-cases}
use service_platform.Worker.JobPool.{
  JobPool, new_job, is_some, is_job_valid, stop_job, Operation, starts, stops, stops_all, apply,
  apply_all,
}

-- What a pool promises of an identifier: a start puts it in, a stop takes it out.
abbrev pub member_after : String → Operation → Bool → Bool
member_after id (starts other) before = if str_eq other id then true else before
member_after id (stops other) before = if str_eq other id then false else before
member_after id stops_all before = false

pub is_member : List Operation → String → Bool → Bool
is_member [] id before = before
is_member (o ∷ os) id before = is_member os id (member_after id o before)

is_some-if :
    (b : Bool) (x y : Option ℕ)
    → is_some (if b then x else y) ≡ (if b then is_some x else is_some y)
is_some-if true x y = refl
is_some-if false x y = refl

pub stop_job-absent : (id : String) (p : JobPool) → lookup id p.job_list ≡ none → stop_job id p ≡ p
unfolding stop_job
stop_job-absent id p absent = rw (absent, stop_job) refl

pub stop_job-there :
    (id : String) (c : ℕ) (p : JobPool)
    → lookup id p.job_list ≡ some c
    → stop_job id p ≡ record p { job_list = remove id p.job_list; cancelled = c ∷ p.cancelled }
unfolding stop_job
stop_job-there id c p there = rw (there, stop_job) refl

is_job_valid-stop_job :
    (id other : String) (p : JobPool)
    → is_job_valid id (stop_job other p) ≡ (if str_eq other id then false else is_job_valid id p)
unfolding is_job_valid
is_job_valid-stop_job id other p = elim (Option-cases (lookup other p.job_list)) [
  | inr (c, there) ↦
      ap (is_job_valid id) (stop_job-there other c p there)
      ∙ ap is_some (lookup-remove other id p.job_list)
      ∙ is_some-if (str_eq other id) none (lookup id p.job_list)
  | inl absent ↦
      ap (is_job_valid id) (stop_job-absent other p absent) ∙ elim (Bool-cases (str_eq other id)) [
        | inl same ↦ rw same (
            ap is_some
              (ap (λ key. lookup key p.job_list) (sym ((eq_iff other id).0 same)) ∙ absent))
        | inr apart ↦ rw apart refl
      ]
]

pub is_job_valid-new_job :
    (id other : String) (p : JobPool)
    → is_job_valid id (new_job other p).0 ≡ (if str_eq other id then true else is_job_valid id p)
unfolding is_job_valid new_job
is_job_valid-new_job id other p =
    ap is_some (lookup-insert other id p.made p.job_list)
    ∙ is_some-if (str_eq other id) (some p.made) (lookup id p.job_list)

is_job_valid-apply :
    (id : String) (o : Operation) (p : JobPool)
    → is_job_valid id (apply o p) ≡ member_after id o (is_job_valid id p)
unfolding apply is_job_valid lookup
is_job_valid-apply id (starts other) p = is_job_valid-new_job id other p
is_job_valid-apply id (stops other) p = is_job_valid-stop_job id other p
is_job_valid-apply id stops_all p = refl

-- Whatever is done to a pool, the identifiers that are valid are those of the set.
pub is_job_valid-apply_all :
    (os : List Operation) (id : String) (p : JobPool)
    → is_job_valid id (apply_all os p) ≡ is_member os id (is_job_valid id p)
unfolding apply_all is_member
is_job_valid-apply_all [] id p = refl
is_job_valid-apply_all (o ∷ os) id p =
    is_job_valid-apply_all os id (apply o p) ∙ ap (is_member os id) (is_job_valid-apply id o p)
