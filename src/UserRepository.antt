-- ===== src/UserRepository.antt =====
-- app/database/repository/user_repository.go: the statements on the table `users`, as functions on
-- its rows. A SELECT reads the rows that the replica has. The column `updated_at`, which a trigger
-- of the database keeps, is left as it is.
use service_platform.Prelude.{
  String, Bool, false, ◌&&◌, ◌||◌, Option, none, some, List, [], ◌∷◌, ◌++◌, any, find, update_rows,
  str_eq, if◌then◌else◌,
}
use service_platform.Prelude.Outcome.{
  Err, unique_violation, Outcome, effect, failure, Call, Result, scan,
}
use service_platform.Entity.{User}
use service_platform.Constant.Role.{verified}
use service_platform.JobRepository.{is_null}

-- Equality in SQL: NULL equals nothing.
abbrev pub column_eq : Option String → String → Bool
column_eq none s = false
column_eq (some t) s = str_eq t s

abbrev pub same_column : Option String → Option String → Bool
same_column a none = false
same_column a (some s) = column_eq a s

abbrev pub is_live_user : (User → Bool) → User → Bool
is_live_user p u = p u && is_null u.deleted_at

abbrev pub has_user_id : String → User → Bool
has_user_id id u = str_eq u.id id

-- The unique columns of the table.
abbrev pub collides : User → User → Bool
collides u v =
    str_eq v.id u.id
    || str_eq v.username u.username
    || same_column v.email u.email
    || same_column v.phone_number u.phone_number

unfoldable pub insert : Outcome → User → List User → List User × Option Err
insert o u rows =
    if any (collides u) rows
    then (rows, some unique_violation)
    else (effect o (λ us. us ++ u ∷ []) rows, failure o)

unfoldable pub find_by_id : Outcome → String → List User → Result User
find_by_id o id replica = scan o (find (is_live_user (has_user_id id)) replica)

unfoldable pub find_by_username : Outcome → String → List User → Result User
find_by_username o name replica = scan o (find (is_live_user (λ u. str_eq u.username name)) replica)

unfoldable pub find_by_email : Outcome → String → List User → Result User
find_by_email o email replica = scan o (find (is_live_user (λ u. column_eq u.email email)) replica)

unfoldable pub find_by_phone_number : Outcome → String → List User → Result User
find_by_phone_number o phone replica =
    scan o (find (is_live_user (λ u. column_eq u.phone_number phone)) replica)

unfoldable pub find_active_user_by_username : Outcome → String → List User → Result User
find_active_user_by_username o name replica =
    scan o (find (is_live_user (λ u. str_eq u.username name && str_eq u.status verified)) replica)

abbrev update_user : Outcome → String → (User → User) → List User → List User × Option Err
update_user o id f rows = (effect o (update_rows (is_live_user (has_user_id id)) f) rows, failure o)

unfoldable pub update_last_login_at : Call → String → List User → List User × Option Err
update_last_login_at c id = update_user c.outcome id (λ u. record u { last_login_at = some c.at })

unfoldable pub update_email_verified : Outcome → String → Bool → List User → List User × Option Err
update_email_verified o id verified' =
    update_user o id (λ u. record u { email_verified = verified' })

unfoldable pub update_phone_verified : Outcome → String → Bool → List User → List User × Option Err
update_phone_verified o id verified' =
    update_user o id (λ u. record u { phone_verified = verified' })
