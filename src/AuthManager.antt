-- ===== src/AuthManager.antt =====
-- app/manager/auth_manager.go over the tables `users` and `sessions`: what login and refresh share,
-- and logout; Login, Refresh and Register are child modules. The hash (SHA-256 in hexadecimal), golang-jwt and bcrypt are arguments; so are the
-- clock's readings, the answers of the servers and the rows that the replica has at each SELECT.
pub mod Login
pub mod Refresh
pub mod Rotates
pub mod Opens
pub mod Register
pub mod Refuses
use service_platform.Prelude.{
  ℕ, ◌+◌, String, Bool, true, false, ◌&&◌, ◌||◌, Option, none, some, List, [], ◌∷◌, ltb, str_eq,
  if◌then◌else◌,
}
use service_platform.Prelude.Outcome.{
  Err, sentinel, wrap, is_no_rows, Outcome, Call, Result, ok, err,
}
use service_platform.Entity.{Session, User}
use service_platform.Constant.Role.{role_user, unverified}
use service_platform.Bcrypt.{Library, hash_password, check_password}
use service_platform.Jwt.{
  Signer, JwtConfig, Claims, AccessToken, RefreshToken, token_type_bearer, validate_token,
  generate_access_token, generate_refresh_token, get_expiration_time,
}
use service_platform.SessionRepository.{InsertCalls, revoke_by_token, find_by_token}
use service_platform.UserRepository.{
  find_by_id, find_by_email, find_by_username, update_last_login_at,
}

abbrev pub username_already_existed : Err
username_already_existed = sentinel "username already exists"

abbrev pub email_already_exists : Err
email_already_exists = sentinel "email already exists"

abbrev pub invalid_credentials : Err
invalid_credentials = sentinel "invalid credentials"

abbrev pub invalid_refresh_token : Err
invalid_refresh_token = sentinel "invalid refresh token"

abbrev pub refresh_token_expired : Err
refresh_token_expired = sentinel "refresh token has expired"

abbrev pub refresh_token_revoked : Err
refresh_token_revoked = sentinel "refresh token has been revoked"

pub record Tables : Type 0 where
  pub users : List User
  pub sessions : List Session

pub record AuthResponse : Type 0 where
  pub username : String
  pub roles : List String
  pub access_token : String
  pub expires_in : ℕ
  pub token_type : String
  pub refresh_token : String

-- One SELECT: how it is answered, and the rows that the replica has then.
pub record Read (A : Type 0) : Type 0 where
  pub outcome : Outcome
  pub replica : List A

-- A token that is validated at a time.
pub record Presented : Type 0 where
  pub now : ℕ
  pub token : String

pub record SessionCalls : Type 0 where
  pub random : Result String
  pub generated_at : ℕ
  pub now : ℕ
  pub insert : InsertCalls

-- `claims.RefreshTokenBase64 == nil || *claims.RefreshTokenBase64 == ""`
abbrev pub given_token : Option String → Result String
given_token none = err invalid_refresh_token
given_token (some t) = if str_eq t "" then err invalid_refresh_token else ok t

-- The session as `createSession` builds it, before the server fills in its identifier.
abbrev pub new_session : String → String → ℕ → Session
new_session user token expires = record {
  id = "00000000-0000-0000-0000-000000000000";
  user_id = user;
  token = token;
  user_agent = none;
  ip_address = none;
  revoked = false;
  expires_at = some expires;
  created_at = 0;
  updated_at = none;
  deleted_at = none;
}

abbrev pub is_before : Option ℕ → ℕ → Bool
is_before none now = false
is_before (some t) now = ltb t now

module _ (hash : String → String) (signer : Signer) (config : JwtConfig) where
  claimed : Result Claims → Result String
  claimed (err e) = err invalid_refresh_token
  claimed (ok c) = given_token c.refresh_token_base64

  -- The refresh token that a presented token holds.
  unfoldable pub presented_token : Presented → Result String
  unfolding claimed
  presented_token p = claimed (validate_token signer config p.now p.token)

  unfoldable pub revoked_or : List Session × Option Err → List Session × Option Err
  revoked_or (rows, none) = (rows, none)
  revoked_or (rows, some e) = (rows, some (wrap "failed to revoke session: " e))

  logout_token : Call → Result String → List Session → List Session × Option Err
  unfolding revoked_or
  logout_token c (err e) rows = (rows, some e)
  logout_token c (ok t) rows = revoked_or (revoke_by_token c (hash t) rows)

  unfoldable pub logout : Presented → Call → List Session → List Session × Option Err
  unfolding logout_token
  logout p c rows = logout_token c (presented_token p) rows

  unfoldable pub session_checked : ℕ → Result Session → Result Session
  session_checked now (err e) =
      if is_no_rows e then err invalid_refresh_token else err (wrap "failed to find session: " e)
  session_checked now (ok s) =
      if s.revoked
      then err refresh_token_revoked
      else if is_before s.expires_at now
      then err refresh_token_expired
      else ok s

  unfoldable pub validate_session : Read Session → ℕ → String → Result Session
  unfolding session_checked
  validate_session r now token = session_checked now (find_by_token r.outcome token r.replica)

  unfoldable pub session_created :
      RefreshToken → List Session × Result Session → List Session × Result RefreshToken
  session_created t (rows, ok s) = (rows, ok t)
  session_created t (rows, err e) = (rows, err e)

  unfoldable pub session_generated :
      SessionCalls → User → Result RefreshToken → List Session → List Session × Result RefreshToken
  unfolding session_created
  session_generated c u (err e) rows = (rows, err e)
  session_generated c u (ok t) rows = session_created t (
      service_platform.SessionRepository.insert c.insert
        (new_session u.id (hash t.token_base64) (c.now + config.refresh_expiration)) rows)

  -- With the whole token in place of its text.
  unfoldable pub create_session :
      SessionCalls → User → List Session → List Session × Result RefreshToken
  unfolding session_generated
  create_session c u rows =
      session_generated c u (generate_refresh_token signer config c.random c.generated_at u) rows

  generated_or : Result AccessToken → Result AccessToken
  generated_or (ok t) = ok t
  generated_or (err e) = err (wrap "failed to generate access token: " e)

  unfoldable pub generate_user_access_token : ℕ → User → Result AccessToken
  unfolding generated_or
  generate_user_access_token now u = generated_or (generate_access_token signer config now u)

  unfoldable pub create_auth_response : User → AccessToken → RefreshToken → AuthResponse
  create_auth_response u access refresh = record {
    username = u.username;
    roles = u.role ∷ [];
    access_token = access.token;
    expires_in = get_expiration_time signer config;
    token_type = token_type_bearer;
    refresh_token = refresh.token;
  }

  unfoldable pub responded :
      User → AccessToken → List Session × Result RefreshToken → List Session × Result AuthResponse
  unfolding create_auth_response
  responded u access (rows, err e) = (rows, err e)
  responded u access (rows, ok refresh) = (rows, ok (create_auth_response u access refresh))

  -- An access token, then a session: what login and refresh share.
  unfoldable pub issue_tokens :
      SessionCalls → User → Result AccessToken → List Session → List Session × Result AuthResponse
  unfolding responded
  issue_tokens c u (err e) rows = (rows, err e)
  issue_tokens c u (ok access) rows = responded u access (create_session c u rows)
