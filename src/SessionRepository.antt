-- ===== src/SessionRepository.antt =====
-- app/database/repository/session_repository.go: the statements on the table `sessions`, as
-- functions on its rows. A SELECT reads the rows that the replica has. The column `updated_at`,
-- which a trigger of the database keeps, is left as it is.
pub mod Later
pub mod Rotation
pub mod Steps
use service_platform.Prelude.{
  ℕ, String, Bool, true, false, ◌&&◌, ◌||◌, Option, none, some, List, [], ◌∷◌, ◌++◌, any, find,
  update_rows, str_eq, if◌then◌else◌,
}
use service_platform.Prelude.Outcome.{
  Err, unique_violation, Outcome, done, refused, lost, effect, failure, Call, Result, ok, err, scan,
}
use service_platform.Entity.{Session}
use service_platform.JobRepository.{is_null}

abbrev pub has_session_id : String → Session → Bool
has_session_id id s = str_eq s.id id

abbrev pub has_token : String → Session → Bool
has_token token s = str_eq s.token token

-- `Where("token = ?", token).Where("deleted_at IS NULL")`
abbrev pub is_live_token : String → Session → Bool
is_live_token token s = has_token token s && is_null s.deleted_at

-- `Where("user_id = ?", userID).Where("deleted_at IS NULL")`
abbrev pub is_live_of : String → Session → Bool
is_live_of user s = str_eq s.user_id user && is_null s.deleted_at

abbrev pub revoke : ℕ → Session → Session
revoke t s = record s { revoked = true; deleted_at = some t }

unfoldable pub revoke_by_token : Call → String → List Session → List Session × Option Err
revoke_by_token c token rows =
    (effect c.outcome (update_rows (is_live_token token) (revoke c.at)) rows, failure c.outcome)

unfoldable pub revoke_by_user_id : Call → String → List Session → List Session × Option Err
revoke_by_user_id c user rows =
    (effect c.outcome (update_rows (is_live_of user) (revoke c.at)) rows, failure c.outcome)

unfoldable pub find_by_token : Outcome → String → List Session → Result Session
find_by_token o token replica = scan o (find (is_live_token token) replica)

-- `DeleteByUserID` deletes and does not revoke; the rows that it returns are left out.
unfoldable pub delete_by_user_id : Call → String → List Session → List Session × Option Err
delete_by_user_id c user rows = (
  effect c.outcome (update_rows (is_live_of user) (λ s. record s { deleted_at = some c.at })) rows,
  failure c.outcome,
)

-- The answers to the three statements of `Insert`, and the columns that the server fills in.
pub record InsertCalls : Type 0 where
  pub by_token : Call
  pub by_user : Call
  pub insert : Outcome
  pub id : String
  pub created_at : ℕ

unfoldable pub inserted : Outcome → Session → Result Session
inserted done s = ok s
inserted (refused e) s = err e
inserted (lost e) s = err e

-- A token, and an identifier, may stand in one row only, even if that row is deleted.
unfoldable pub insert_row : Outcome → Session → List Session → List Session × Result Session
unfolding inserted
insert_row o s rows =
    if any (has_token s.token) rows || any (has_session_id s.id) rows
    then (rows, err unique_violation)
    else (effect o (λ rs. rs ++ s ∷ []) rows, inserted o s)

abbrev pub filled : InsertCalls → Session → Session
filled c s = record s { id = c.id; created_at = c.created_at }

-- `Insert`: both revocations go before the row, and their errors are ignored.
unfoldable pub insert : InsertCalls → Session → List Session → List Session × Result Session
unfolding revoke_by_token revoke_by_user_id insert_row
insert c s rows =
    insert_row c.insert (filled c s)
      (revoke_by_user_id c.by_user s.user_id (revoke_by_token c.by_token s.token rows).0).0
