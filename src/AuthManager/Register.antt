-- ===== src/AuthManager/Register.antt =====
-- `Register` of app/manager/auth_manager.go, over the table `users`.
use service_platform.Prelude.{ℕ, String, false, Option, none, some, List, if◌then◌else◌}
use service_platform.Prelude.Outcome.{Err, is_no_rows, Outcome, Result, ok, err}
use service_platform.Entity.{User}
use service_platform.Constant.Role.{role_user, unverified}
use service_platform.Bcrypt.{Library, hash_password}
use service_platform.UserRepository.{find_by_email, find_by_username}
use service_platform.AuthManager.{Read, email_already_exists, username_already_existed}

pub record RegisterCalls : Type 0 where
  pub by_email : Read User
  pub by_username : Read User
  pub insert : Outcome
  pub id : String
  pub created_at : ℕ

abbrev pub new_user : RegisterCalls → String → String → User
new_user c email hashed = record {
  id = c.id;
  username = email;
  email = some email;
  phone_number = none;
  password = hashed;
  status = unverified;
  role = role_user;
  email_verified = false;
  phone_verified = false;
  last_login_at = none;
  created_at = c.created_at;
  updated_at = none;
  deleted_at = none;
  deactivated_at = none;
}

unfoldable pub register_hashed :
    RegisterCalls → String → Result String → List User → List User × Option Err
register_hashed c email (err e) users = (users, some e)
register_hashed c email (ok hashed) users =
    service_platform.UserRepository.insert c.insert (new_user c email hashed) users

-- A row that is found ends the call, and so does an error other than that there is none.
unfoldable pub absent_or : Err → Result User → Option Err
absent_or taken (ok u) = some taken
absent_or taken (err e) = if is_no_rows e then none else some e

unfoldable pub register_checked :
    RegisterCalls
    → String
    → Result String
    → Option Err
    → Option Err
    → List User
    → List User × Option Err
unfolding register_hashed
register_checked c email hashed (some e) by_username users = (users, some e)
register_checked c email hashed none (some e) users = (users, some e)
register_checked c email hashed none none users = register_hashed c email hashed users

unfoldable pub register :
    Library → ℕ → RegisterCalls → String → String → List User → List User × Option Err
unfolding register_checked absent_or
register library cost c email password users =
    register_checked c email (hash_password library cost password)
      (absent_or email_already_exists (find_by_email c.by_email.outcome email c.by_email.replica))
      (absent_or username_already_existed
        (find_by_username c.by_username.outcome email c.by_username.replica))
      users
