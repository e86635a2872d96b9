-- ===== src/Worker/Retry/Rows.antt =====
-- What the statements on the table `jobs` keep, row by row.
use service_platform.Prelude.{
  update_rows, ◌≤◌, String, ◌≡◌, refl, Bool, true, List, [], ◌∷◌, arith, any, All, inl, inr,
  Bool-cases,
}
use service_platform.Prelude.Outcome.{Outcome, done, refused, lost}
use service_platform.Entity.{Job}
use service_platform.JobRepository.{has_id, exec_update}

module _ (P : Job → Type 0) (p : Job → Bool) (f : Job → Job) where
  pub All-update_rows :
      (rows : List Job)
      → ((j : Job) → p j ≡ true → P j → P (f j))
      → All P rows
      → All P (update_rows p f rows)
  unfolding update_rows
  All-update_rows [] keep h = tt
  All-update_rows (j ∷ rows) keep h = elim (Bool-cases (p j)) [
    | inl hit ↦ rw hit (keep j hit h.0, All-update_rows rows keep h.1)
    | inr miss ↦ rw miss (h.0, All-update_rows rows keep h.1)
  ]

  -- A statement that keeps `P` at the rows that it changes keeps it everywhere, whatever the
  -- server's answer.
  pub All-exec_update :
      (o : Outcome) (rows : List Job)
      → ((j : Job) → p j ≡ true → P j → P (f j))
      → All P rows
      → All P (exec_update o p f rows).0
  All-exec_update done rows keep h = All-update_rows rows keep h
  All-exec_update (refused e) rows keep h = h
  All-exec_update (lost e) rows keep h = All-update_rows rows keep h

pub All-both :
    (P Q : Job → Type 0) (rows : List Job) → All P rows → All Q rows → All (λ j. P j × Q j) rows
All-both P Q [] h k = tt
All-both P Q (j ∷ rows) h k = ((h.0, k.0), All-both P Q rows h.1 k.1)

-- A change that a worker's copy of a job survives: no identity is lost, no count goes down.
pub record Grows (f : Job → Job) : Type 0 where
  pub same_id : (j : Job) → (f j).id ≡ j.id
  pub same_max : (j : Job) → (f j).max_attempts ≡ j.max_attempts
  pub more_attempts : (j : Job) → j.attempts ≤ (f j).attempts

-- A row of the same job, that has counted at least as many attempts as the copy.
abbrev pub Follows : Job → Job → Type 0
Follows copy r =
    has_id copy.id r ≡ true → (r.max_attempts ≡ copy.max_attempts) × (copy.attempts ≤ r.attempts)

-- A copy of a job is covered by the table: it has a row, and its rows follow it.
pub record Covers (rows : List Job) (copy : Job) : Type 0 where
  pub present : any (has_id copy.id) rows ≡ true
  pub followed : All (Follows copy) rows

any-update_rows :
    (id : String) (p : Job → Bool) (f : Job → Job) (rows : List Job)
    → Grows f
    → any (has_id id) (update_rows p f rows) ≡ any (has_id id) rows
unfolding update_rows
any-update_rows id p f [] g = refl
any-update_rows id p f (j ∷ rows) g = elim (Bool-cases (p j)) [
  | inl hit ↦ rw hit (rw (g.same_id j, any-update_rows id p f rows g) refl)
  | inr miss ↦ rw miss (rw (any-update_rows id p f rows g) refl)
]

Follows-grown :
    (copy : Job) (f : Job → Job) (j : Job) → Grows f → Follows copy j → Follows copy (f j)
Follows-grown copy f j g h = λ same. ground (arith, g.same_id j, g.same_max j, g.more_attempts j, h)

pub Covers-exec_update :
    (o : Outcome) (p : Job → Bool) (f : Job → Job) (rows : List Job) (copy : Job)
    → Grows f
    → Covers rows copy
    → Covers (exec_update o p f rows).0 copy
Covers-exec_update done p f rows copy g c = record {
  present = rw (any-update_rows copy.id p f rows g) c.present;
  followed =
      All-exec_update (Follows copy) p f done rows (λ j hit. Follows-grown copy f j g) c.followed;
}
Covers-exec_update (refused e) p f rows copy g c = c
Covers-exec_update (lost e) p f rows copy g c = record {
  present = rw (any-update_rows copy.id p f rows g) c.present;
  followed =
      All-exec_update (Follows copy) p f (lost e) rows (λ j hit. Follows-grown copy f j g)
        c.followed;
}
