-- ===== src/Worker/Lifecycle/Touches.antt =====
-- Which rows of the table the processing of one job touches.
use service_platform.Prelude.{
  update_rows, ℕ, Bool, any, String, ◌≡◌, refl, sym, ◌≢◌, ap, ◌∙◌, true, false, Option, none, some,
  List, [], ◌∷◌, ◌++◌, ◌+◌, ◌⊎◌, arith, All, inl, inr, Bool-cases, leb, eq_iff,
}
use service_platform.Prelude.Outcome.{Outcome, done, refused, lost}
use service_platform.Constant.{Status, pending, processing, completed, failed, retrying}
use service_platform.Entity.{Job}
use service_platform.JobRepository.{
  has_id, is_live_row, exec_update, update_job_to_completed, update_job_to_failed,
  update_job_to_retrying,
}
use service_platform.Worker.Pool.{
  World, ProcessCalls, handle_job_success, handle_job_failure, finish_job,
}

-- Two tables of as many rows, related row by row.
abbrev pub Pairs : (Job → Job → Type 0) → List Job → List Job → Type 0
Pairs R [] [] = Unit {0}
Pairs R [] (new ∷ news) = ⊥
Pairs R (old ∷ olds) [] = ⊥
Pairs R (old ∷ olds) (new ∷ news) = R old new × Pairs R olds news

-- No row changes its identifier, and only a row with the given one changes at all.
abbrev pub Only : String → Job → Job → Type 0
Only id old new = (new.id ≡ old.id) × (has_id id old ≡ false → new ≡ old)

Only-same : (id : String) (rows : List Job) → Pairs (Only id) rows rows
Only-same id [] = tt
Only-same id (j ∷ rows) = ((refl, λ other. refl), Only-same id rows)

Only-update_rows :
    (id : String) (f : Job → Job) (rows : List Job)
    → ((j : Job) → (f j).id ≡ j.id)
    → Pairs (Only id) rows (update_rows (is_live_row id) f rows)
unfolding update_rows
Only-update_rows id f [] same = tt
Only-update_rows id f (j ∷ rows) same = elim (Bool-cases (is_live_row id j)) [
  | inl hit ↦
      rw hit ((same j, λ other. absurd (cc (rw other at hit))), Only-update_rows id f rows same)
  | inr miss ↦ rw miss ((refl, λ other. refl), Only-update_rows id f rows same)
]

pub Only-exec_update :
    (o : Outcome) (id : String) (f : Job → Job) (rows : List Job)
    → ((j : Job) → (f j).id ≡ j.id)
    → Pairs (Only id) rows (exec_update o (is_live_row id) f rows).0
Only-exec_update done id f rows same = Only-update_rows id f rows same
Only-exec_update (refused e) id f rows same = Only-same id rows
Only-exec_update (lost e) id f rows same = Only-update_rows id f rows same

module _ {W : Type 0} (beyond : ℕ → ℕ) where
  pub Only-finish_job :
      (c : ProcessCalls) (j : Job) (o : Option String) (w : World W)
      → Pairs (Only j.id) w.jobs (finish_job beyond c j o w).jobs
  unfolding finish_job handle_job_success handle_job_failure update_job_to_completed
      update_job_to_failed update_job_to_retrying
  Only-finish_job c j none w = Only-exec_update c.finish.outcome j.id _ w.jobs (λ r. refl)
  Only-finish_job c j (some msg) w = elim (Bool-cases (leb j.max_attempts (j.attempts + 1))) [
    | inl last ↦ rw last (Only-exec_update c.finish.outcome j.id _ w.jobs (λ r. ground arith))
    | inr more ↦ rw more (Only-exec_update c.finish.outcome j.id _ w.jobs (λ r. ground arith))
  ]

-- A status that a job does not leave again.
abbrev pub has_ended : Status → Bool
has_ended completed = true
has_ended failed = true
has_ended retrying = true
has_ended pending = false
has_ended processing = false

-- No row of a job has ended.
abbrev pub IsOpen : List Job → String → Type 0
IsOpen rows id = All (λ r. has_id id r ≡ true → has_ended r.status ≡ false) rows

-- What happens to the rows of one job leaves those of another as they are.
pub IsOpen-other :
    (id other : String) (rows rows' : List Job)
    → Pairs (Only id) rows rows'
    → id ≢ other
    → IsOpen rows other
    → IsOpen rows' other
IsOpen-other id other [] [] k apart h = tt
IsOpen-other id other [] (new ∷ news) k apart h = absurd k
IsOpen-other id other (old ∷ olds) [] k apart h = absurd k
IsOpen-other id other (old ∷ olds) (new ∷ news) k apart h =
    (λ same. by_id same (Bool-cases (has_id id old)), IsOpen-other id other olds news k.1 apart h.1)
  where
    by_id :
        has_id other new ≡ true
        → (has_id id old ≡ true) ⊎ (has_id id old ≡ false)
        → has_ended new.status ≡ false
    by_id same (inl hit) =
        absurd (apart (sym ((eq_iff old.id id).0 hit) ∙ sym k.0.0 ∙ (eq_iff new.id other).0 same))
    by_id same (inr miss) = ap (λ r. has_ended r.status) (k.0.1 miss) ∙ h.0 (rw (sym k.0.0) same)

pub IsOpen-absent : (id : String) (rows : List Job) → any (has_id id) rows ≡ false → IsOpen rows id
IsOpen-absent id [] h = tt
IsOpen-absent id (r ∷ rows) h = elim (Bool-cases (has_id id r)) [
  | inl same ↦ absurd (cc (rw same at h))
  | inr other ↦ ((λ same. absurd (cc)), IsOpen-absent id rows (rw other at h))
]

-- A row that has ended stays as it is, and no row is lost; rows are only added behind the others.
abbrev pub EndedStays : List Job → List Job → Type 0
EndedStays [] rows' = Unit {0}
EndedStays (old ∷ olds) [] = ⊥
EndedStays (old ∷ olds) (new ∷ news) =
    (has_ended old.status ≡ true → new ≡ old) × EndedStays olds news

-- So it is if only the rows of a job change that is still open.
pub EndedStays-Only :
    (id : String) (rows rows' : List Job)
    → Pairs (Only id) rows rows'
    → IsOpen rows id
    → EndedStays rows rows'
EndedStays-Only id [] rows' k h = tt
EndedStays-Only id (old ∷ olds) [] k h = absurd k
EndedStays-Only id (old ∷ olds) (new ∷ news) k h =
    (λ over. by_id over (Bool-cases (has_id id old)), EndedStays-Only id olds news k.1 h.1)
  where
    by_id :
        has_ended old.status ≡ true → (has_id id old ≡ true) ⊎ (has_id id old ≡ false) → new ≡ old
    by_id over (inl hit) = absurd (cc (over, h.0 hit))
    by_id over (inr miss) = k.0.1 miss

pub EndedStays-same : (rows : List Job) → EndedStays rows rows
EndedStays-same [] = tt
EndedStays-same (j ∷ rows) = (λ over. refl, EndedStays-same rows)

pub EndedStays-append : (rows more : List Job) → EndedStays rows (rows ++ more)
EndedStays-append [] more = tt
EndedStays-append (j ∷ rows) more = (λ over. refl, EndedStays-append rows more)

pub EndedStays-chain : (a b c : List Job) → EndedStays a b → EndedStays b c → EndedStays a c
EndedStays-chain [] b c h k = tt
EndedStays-chain (x ∷ a) [] c h k = absurd h
EndedStays-chain (x ∷ a) (y ∷ b) [] h k = absurd k
EndedStays-chain (x ∷ a) (y ∷ b) (z ∷ c) h k =
    (λ over. k.0 (rw (h.0 over) over) ∙ h.0 over, EndedStays-chain a b c h.1 k.1)
