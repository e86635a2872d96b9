-- ===== src/Api/AuthController.antt =====
-- app/api/controller/auth_controller.go: the handlers of registration, login, refresh, logout and of
-- the principal, and `GetClaims` of app/pkg/jwt/jwt.go. What echo makes of a body, whether it
-- can be bound and is valid, is an argument, and so is the cookie that it finds.
use service_platform.Prelude.{
  ℕ, String, Bool, false, ◌||◌, Option, none, some, List, str_eq, if◌then◌else◌,
}
use service_platform.Prelude.Outcome.{Err, text, is_sentinel, message, Call, Result, ok, err}
use service_platform.Prelude.Strings.{trim_space, remove_first}
use service_platform.Constant.Role.{role_user}
use service_platform.Entity.{Session, User}
use service_platform.Bcrypt.{Library}
use service_platform.Jwt.{Signer, JwtConfig, Claims, validate_token}
use service_platform.AuthManager.{Tables, AuthResponse, logout as manager_logout}
use service_platform.AuthManager.Login.{LoginCalls, login as manager_login}
use service_platform.AuthManager.Refresh.{RefreshCalls, refresh_token as manager_refresh}
use service_platform.AuthManager.Register.{RegisterCalls, register as manager_register}
use service_platform.Api.Response.{
  Payload, note, tokens, principal, GeneralResponse, to_success_response, to_error_response,
}
use service_platform.Api.Cookie.{Transport, Cookie, new_refresh_token_cookie, expire_cookie}

pub record HttpReply : Type 0 where
  pub status : ℕ
  pub body : GeneralResponse
  pub cookie : Option Cookie

-- `ec.JSON(status, ToErrorResponse(status, message))`
abbrev pub replied_error : ℕ → String → HttpReply
replied_error code msg = record { status = code; body = to_error_response code msg; cookie = none }

abbrev pub replied_success : Payload → Option Cookie → HttpReply
replied_success payload cookie = record {
  status = 200;
  body = to_success_response payload;
  cookie = cookie;
}

-- A request with an email and a password.
pub record Credentials : Type 0 where
  pub can_bind : Bool
  pub is_valid : Bool
  pub email : String
  pub password : String

-- What a reply with a new cookie reads from outside: how the request came, the environment, the clock.
pub record Surroundings : Type 0 where
  pub transport : Transport
  pub production : Bool
  pub now : ℕ

register_replied : Option Err → HttpReply
register_replied none = replied_success (note "registered") none
register_replied (some e) =
    if is_sentinel "email already exists" e || is_sentinel "username already exists" e
    then replied_error 409 (message e)
    else replied_error 500 "Internal server error"

unfoldable pub register :
    Library → ℕ → RegisterCalls → Credentials → List User → List User × HttpReply
unfolding register_replied
register library cost c req users =
    let (users', failed) = manager_register library cost c req.email req.password users in
    if req.can_bind
    then (if req.is_valid
        then (users', register_replied failed)
        else (users, replied_error 400 "Invalid data"))
    else (users, replied_error 400 "Invalid request")

-- The value of the cookie "refresh_token", if there is one and it is not empty.
abbrev pub cookie_token : Option String → Option String
cookie_token none = none
cookie_token (some t) = if str_eq t "" then none else some t

module _ (hash : String → String) (signer : Signer) (config : JwtConfig) where
  -- The refresh token goes into a cookie, and is taken out of the body.
  unfoldable pub tokens_replied : Surroundings → AuthResponse → HttpReply
  tokens_replied s response = replied_success (tokens (record response { refresh_token = "" })) (
      some (
        new_refresh_token_cookie s.production s.now s.transport response.refresh_token
          config.refresh_expiration))

  unfoldable pub login_replied : Surroundings → Result AuthResponse → HttpReply
  unfolding tokens_replied
  login_replied s (ok response) = tokens_replied s response
  login_replied s (err e) =
      if is_sentinel "invalid credentials" e
      then replied_error 401 "Invalid credentials"
      else replied_error 500 "Internal server error"

  unfoldable pub login :
      Library → Surroundings → LoginCalls → Credentials → Tables → Tables × HttpReply
  unfolding login_replied
  login library s c req t =
      let (t', result) = manager_login hash signer config library c req.email req.password t in
      if req.can_bind
      then (if req.is_valid
          then (t', login_replied s result)
          else (t, replied_error 400 "Invalid request data"))
      else (t, replied_error 400 "Invalid request format")

  unfoldable pub refresh_replied : Surroundings → Result AuthResponse → HttpReply
  unfolding tokens_replied
  refresh_replied s (ok response) = tokens_replied s response
  refresh_replied s (err e) =
      if is_sentinel "invalid refresh token" e
        || is_sentinel "refresh token has been revoked" e
        || is_sentinel "refresh token has expired" e
      then replied_error 401 (message e)
      else replied_error 500 "Internal server error"

  unfoldable pub refresh_given :
      Surroundings → ℕ → RefreshCalls → Option String → List Session → List Session × HttpReply
  unfolding refresh_replied
  refresh_given s at c none rows = (rows, replied_error 401 "Missing refresh token")
  refresh_given s at c (some t) rows =
      let (rows', result) =
        manager_refresh hash signer config (record { now = at; token = t }) c rows in
      (rows', refresh_replied s result)

  -- `RefreshToken`, whose token is validated at the given time.
  unfoldable pub refresh_token :
      Surroundings → ℕ → RefreshCalls → Option String → List Session → List Session × HttpReply
  unfolding refresh_given
  refresh_token s at c cookie rows = refresh_given s at c (cookie_token cookie) rows

  -- Any error of a logout is a 500.
  unfoldable pub logout_replied : Option Err → HttpReply
  logout_replied none =
      replied_success (note "Logged out successfully") (some (expire_cookie "refresh_token"))
  logout_replied (some e) = replied_error 500 "Internal server error"

  unfoldable pub logout_given : ℕ → Call → Option String → List Session → List Session × HttpReply
  unfolding logout_replied
  logout_given at c none rows = (rows, replied_error 401 "Missing refresh token")
  logout_given at c (some t) rows =
      let (rows', failed) =
        manager_logout hash signer config (record { now = at; token = t }) c rows in
      (rows', logout_replied failed)

  unfoldable pub logout : ℕ → Call → Option String → List Session → List Session × HttpReply
  unfolding logout_given
  logout at c cookie rows = logout_given at c (cookie_token cookie) rows

module _ (signer : Signer) (config : JwtConfig) where
  -- `GetClaims`, of the header "Authorization".
  unfoldable pub get_claims : ℕ → String → Result Claims
  get_claims now header =
      if str_eq (trim_space header) ""
      then err (text "missing authorization header")
      else validate_token signer config now (remove_first "Bearer " header)

  abbrev or_false : Option Bool → Bool
  or_false none = false
  or_false (some b) = b

  abbrev or_user : Option String → String
  or_user none = role_user
  or_user (some r) = r

  -- A token that lacks the identifier or the name of its user is not enough.
  unfoldable pub me_named : Claims → Option String → Option String → HttpReply
  me_named claims none name = replied_error 401 "Authentication required"
  me_named claims (some id) none = replied_error 401 "Authentication required"
  me_named claims (some id) (some name) =
      replied_success
        (principal (record {
          id = id;
          username = name;
          email = claims.email;
          phone_number = claims.phone_number;
          role = or_user claims.role;
          email_verified = or_false claims.email_verified;
          phone_verified = or_false claims.phone_verified;
          last_login_at = claims.last_login_at;
        }))
        none

  unfoldable pub me_replied : Result Claims → HttpReply
  unfolding me_named
  me_replied (err e) = replied_error 401 "Authentication required"
  me_replied (ok claims) = me_named claims claims.user_id claims.username

  unfoldable pub me : ℕ → String → HttpReply
  unfolding me_replied get_claims
  me now header = me_replied (get_claims now header)
