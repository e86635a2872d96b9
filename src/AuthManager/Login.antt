-- ===== src/AuthManager/Login.antt =====
-- `Login` of app/manager/auth_manager.go.
use service_platform.Prelude.{ℕ, String, Bool, true, false, some, List, if◌then◌else◌}
use service_platform.Prelude.Outcome.{wrap, is_no_rows, Call, Result, ok, err}
use service_platform.Entity.{Session, User}
use service_platform.Bcrypt.{Library, check_password}
use service_platform.Jwt.{Signer, JwtConfig}
use service_platform.UserRepository.{find_by_email, update_last_login_at}
use service_platform.AuthManager.{
  Read, SessionCalls, Tables, AuthResponse, invalid_credentials, issue_tokens,
  generate_user_access_token,
}

pub record LoginCalls : Type 0 where
  pub find : Read User
  pub update_login : Call
  pub now : ℕ
  pub access_at : ℕ
  pub session : SessionCalls

module _ (hash : String → String) (signer : Signer) (config : JwtConfig) where
  unfoldable pub logged_in :
      LoginCalls → User → List Session → List User → Tables × Result AuthResponse
  unfolding issue_tokens
  logged_in c u sessions users =
      let u' = record u { last_login_at = some c.now } in
      let (rows, result) =
        issue_tokens hash signer config c.session u'
          (generate_user_access_token hash signer config c.access_at u') sessions in
      (record { users = users; sessions = rows }, result)

  module _ (library : Library) where
    unfoldable pub password_checked :
        LoginCalls → User → Result Bool → Tables → Tables × Result AuthResponse
    unfolding logged_in
    password_checked c u (err e) t = (t, err (wrap "failed to check password: " e))
    password_checked c u (ok false) t = (t, err invalid_credentials)
    password_checked c u (ok true) t =
        logged_in c u t.sessions (update_last_login_at c.update_login u.id t.users).0

    unfoldable pub user_found :
        LoginCalls → String → Result User → Tables → Tables × Result AuthResponse
    unfolding password_checked
    user_found c password (err e) t =
        if is_no_rows e
        then (t, err invalid_credentials)
        else (t, err (wrap "failed to find user: " e))
    user_found c password (ok u) t =
        password_checked c u (check_password library password u.password) t

    unfoldable pub login : LoginCalls → String → String → Tables → Tables × Result AuthResponse
    unfolding user_found
    login c email password t =
        user_found c password (find_by_email c.find.outcome email c.find.replica) t
