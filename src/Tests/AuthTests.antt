-- ===== src/Tests/AuthTests.antt =====
-- Authentication at concrete inputs: a hash that marks its text, a signer that signs anything, and
-- passwords that are their own hashes.
use Prim.Native.String.{◌++◌ as append}
use service_platform.Prelude.{
  ℕ, ◌+◌, String, ◌≡◌, ◌≢◌, refl, arith, Bool, true, false, Option, none, some, List, [], ◌∷◌,
  filter, str_eq, if◌then◌else◌, inl, inr,
}
use service_platform.Prelude.Outcome.{
  Err, text, no_rows, unique_violation, Outcome, done, Result, ok, err,
}
use service_platform.Entity.{Session, User}
use service_platform.Bcrypt.{Library, matches, mismatched}
use service_platform.Jwt.{Signer, JwtConfig, Claims, RefreshToken}
use service_platform.SessionRepository.{InsertCalls, is_live_of, filled, insert, find_by_token}
use service_platform.SessionRepository.Rotation.{insert-OnlyLive}
use service_platform.SessionRepository.Steps.{start, next, inserts}
use service_platform.UserRepository.{find_by_email, find_by_username}
use service_platform.AuthManager.{
  Tables, Read, Presented, SessionCalls, AuthResponse, new_session, invalid_credentials,
  refresh_token_revoked, presented_token, logout, validate_session, create_session,
}
use service_platform.AuthManager.Login.{LoginCalls, login}
use service_platform.AuthManager.Refresh.{RefreshCalls, refresh_token}
use service_platform.AuthManager.Register.{RegisterCalls, register}
use service_platform.AuthManager.Rotates.{from_rows}
use service_platform.AuthManager.Refuses.{
  validate_session_never_revoked, IsAbsent, Registered, register-Registered,
}
use service_platform.Tests.Servers.{at_time}

abbrev pub hash : String → String
hash s = append "sha256:" s

abbrev pub no_claims : Option String → Claims
no_claims base64 = record {
  user_id = some "user-1";
  username = some "ann";
  email = none;
  phone_number = none;
  role = some "USER";
  email_verified = some false;
  phone_verified = some false;
  last_login_at = none;
  refresh_token_base64 = base64;
  registered = record { issuer = "platform"; issued_at = 0; expires_at = 100; not_before = 0 };
}

-- Each token reads as one with the refresh token that it spells.
abbrev pub signer : Signer
signer = record {
  numeric_date = λ t. t;
  sign = λ key claims. ok "signed";
  parse = λ key now token. ok (no_claims (some token), true);
}

abbrev pub config : JwtConfig
config = record {
  secret_key = "key";
  issuer = "platform";
  access_expiration = 10;
  refresh_expiration = 100;
}

abbrev pub library : Library
library = record {
  min_cost = 4;
  max_cost = 31;
  default_cost = 10;
  generate_from_password = λ password cost. ok password;
  compare_hash_and_password = λ h password. if str_eq h password then matches else mismatched;
}

abbrev pub ann : User
ann = record {
  id = "user-1";
  username = "ann";
  email = some "ann@example.org";
  phone_number = none;
  password = "secret";
  status = "VERIFIED";
  role = "USER";
  email_verified = true;
  phone_verified = false;
  last_login_at = none;
  created_at = 0;
  updated_at = none;
  deleted_at = none;
  deactivated_at = none;
}

abbrev insertion : InsertCalls
insertion = record {
  by_token = at_time 1;
  by_user = at_time 2;
  insert = done;
  id = "session-2";
  created_at = 3;
}

abbrev pub session_calls : SessionCalls
session_calls = record { random = ok "new"; generated_at = 1; now = 1; insert = insertion }

abbrev pub old_row : Session
old_row = record (new_session "user-1" (hash "old") 50) { id = "session-1" }

abbrev users_read : Read User
users_read = record { outcome = done; replica = ann ∷ [] }

abbrev presented : Presented
presented = record { now = 1; token = "old" }

abbrev pub refresh_calls : RefreshCalls
refresh_calls = record {
  find_session = from_rows (old_row ∷ []);
  now = 1;
  find_user = users_read;
  access_at = 1;
  session = session_calls;
  revoke = at_time 4;
}

abbrev refreshed : List Session × Result AuthResponse
refreshed = refresh_token hash signer config presented refresh_calls (old_row ∷ [])

abbrev tokens : AuthResponse
tokens = record {
  username = "ann";
  roles = "USER" ∷ [];
  access_token = "signed";
  expires_in = 0;
  token_type = "Bearer";
  refresh_token = "signed";
}

refreshed_tokens : refreshed.1 ≡ ok tokens
unfolding refresh_token presented_token service_platform.Jwt.validate_token validate_session
    find_by_token service_platform.UserRepository.find_by_id
    service_platform.AuthManager.generate_user_access_token
    service_platform.Jwt.generate_access_token create_session
    service_platform.Jwt.generate_refresh_token insert service_platform.Prelude.update_rows
    service_platform.Jwt.get_expiration_time
refreshed_tokens = refl

abbrev pub login_calls : LoginCalls
login_calls = record {
  find = users_read;
  update_login = at_time 1;
  now = 1;
  access_at = 1;
  session = session_calls;
}

abbrev pub tables : Tables
tables = record { users = ann ∷ []; sessions = old_row ∷ [] }

logged_in_tokens :
    (login hash signer config library login_calls "ann@example.org" "secret" tables).1 ≡ ok tokens
unfolding login find_by_email service_platform.Bcrypt.check_password
    service_platform.AuthManager.generate_user_access_token
    service_platform.Jwt.generate_access_token create_session
    service_platform.Jwt.generate_refresh_token insert service_platform.Prelude.update_rows
    service_platform.Jwt.get_expiration_time
logged_in_tokens = refl

validate_session_never_revoked_example :
    validate_session hash signer config (from_rows (insert insertion old_row []).0) 1 (hash "old")
      ≡ err refresh_token_revoked
    → ⊥
validate_session_never_revoked_example =
    validate_session_never_revoked hash signer config (from_rows (insert insertion old_row []).0) 1
      (hash "old") (next start (inserts insertion old_row refl))

abbrev registration : RegisterCalls
registration = record {
  by_email = users_read;
  by_username = users_read;
  insert = done;
  id = "user-2";
  created_at = 5;
}

registered_none :
    (register library 10 registration "bob@example.org" "password" (ann ∷ [])).1 ≡ none
unfolding register find_by_email service_platform.Prelude.Outcome.is_no_rows find_by_username
    service_platform.Bcrypt.hash_password service_platform.UserRepository.insert
registered_none = refl

register-Registered_example :
    IsAbsent (find_by_email done "bob@example.org" (ann ∷ []))
    × IsAbsent (find_by_username done "bob@example.org" (ann ∷ []))
    × Registered library 10 registration "bob@example.org" "password"
        (ann ∷ [])
        (register library 10 registration "bob@example.org" "password" (ann ∷ [])).0
register-Registered_example =
    register-Registered library 10 registration "bob@example.org" "password" (ann ∷ [])
      registered_none

inserted_row :
    (insert insertion (new_session "user-1" "t" 90) (old_row ∷ [])).1
    ≡ ok (filled insertion (new_session "user-1" "t" 90))
unfolding insert service_platform.Prelude.update_rows
inserted_row = refl

insert-OnlyLive_example :
    filter (is_live_of "user-1") (insert insertion (new_session "user-1" "t" 90) (old_row ∷ [])).0
    ≡ filled insertion (new_session "user-1" "t" 90) ∷ []
insert-OnlyLive_example =
    insert-OnlyLive insertion (new_session "user-1" "t" 90)
      (filled insertion (new_session "user-1" "t" 90)) (old_row ∷ []) refl refl inserted_row
