-- ===== src/JobRepository/Sql.antt =====
-- How the SQL server answers a SELECT, which is not the program's: rows of the table that the
-- WHERE clause picks, no more than the limit, in the order asked for.
use service_platform.Prelude.{ℕ, ◌≤◌, ◌≡◌, Bool, true, List, All, length}
use service_platform.Entity.{Job}

-- A WHERE clause and an ORDER BY clause; `before a b` says that `a` may stand before `b`.
pub record Query : Type 0 where
  pub picks : Job → Bool
  pub before : Job → Job → Bool

pub record Engine : Type 1 where
  pub select : Query → ℕ → List Job → List Job
  -- What holds of every row of the table holds of every row returned, and the clause picked it.
  pub select_picked :
      (P : Job → Type 0) (q : Query) (limit : ℕ) (rows : List Job)
      → All P rows
      → All (λ j. P j × (q.picks j ≡ true)) (select q limit rows)
  pub select_limited :
      (q : Query) (limit : ℕ) (rows : List Job) → length (select q limit rows) ≤ limit
