-- ===== src/Middleware/JwtAuthentication.antt =====
-- app/api/middleware/jwt_authentication.go, and middleware.go, whose functions are these.
use service_platform.Prelude.{
  ℕ, String, Bool, false, ◌||◌, Option, none, some, str_eq, if◌then◌else◌,
}
use service_platform.Prelude.Outcome.{text, Result, ok, err}
use service_platform.Prelude.Strings.{split_two, lower_eq, trim_space, cut_prefix}
use service_platform.Jwt.{Signer, JwtConfig, Claims, token_type_bearer, validate_token}
use service_platform.Middleware.{
  string, Context, Request, Reply, passes, rejected, AuthenticationResult, method_jwt,
  set_user_context, has_required_role,
}

abbrev pub is_bearer : String → Bool
is_bearer s = str_eq s token_type_bearer || lower_eq s "bearer"

unfoldable pub can_handle : String → Bool
can_handle header =
    if str_eq header ""
    then false
    else elim (split_two 32 header) [ none ↦ false | some (scheme, rest) ↦ is_bearer scheme ]

non_empty : String → Result String
non_empty s = if str_eq s "" then err (text "Invalid authorization header format") else ok s

unfoldable pub extract_token : String → Result String
unfolding non_empty
extract_token header =
    if str_eq header ""
    then err (text "Authorization header missing")
    else elim (split_two 32 header) [
      | none ↦ err (text "Invalid authorization header format")
      | some (scheme, rest) ↦
          if is_bearer scheme
          then non_empty (trim_space rest)
          else err (text "Invalid authorization header format")
    ]

unfoldable pub claims_result : Claims → AuthenticationResult
claims_result c = record {
  user_id = c.user_id;
  username = c.username;
  email = c.email;
  phone_number = c.phone_number;
  role = c.role;
  email_verified = c.email_verified;
  phone_verified = c.phone_verified;
  last_login_at = c.last_login_at;
  method = method_jwt;
  service_name = none;
}

module _ (signer : Signer) (config : JwtConfig) where
  authenticated : Result Claims → Result AuthenticationResult
  unfolding claims_result
  authenticated (ok c) = ok (claims_result c)
  authenticated (err e) = err (text "Invalid credentials")

  token_authenticated : ℕ → Result String → Result AuthenticationResult
  unfolding authenticated
  token_authenticated now (err e) = err e
  token_authenticated now (ok t) = authenticated (validate_token signer config now t)

  unfoldable pub authenticate : ℕ → String → Result AuthenticationResult
  unfolding token_authenticated
  authenticate now header = token_authenticated now (extract_token header)

  replied : Context → Result AuthenticationResult → Reply
  replied c (err e) = rejected 401 "Invalid credentials"
  replied c (ok r) = passes (set_user_context string r c)

  unfoldable pub require_auth : ℕ → Request → Reply
  unfolding replied
  require_auth now r =
      if can_handle r.authorization
      then replied r.context (authenticate now r.authorization)
      else rejected 401 "Authentication required"

  role_checked : String → Context → Option String → Reply
  role_checked required c none = rejected 401 "User role not found in token"
  role_checked required c (some role) =
      if str_eq role ""
      then rejected 401 "User role not found in token"
      else if has_required_role role required
      then passes c
      else rejected 403 "Access denied: insufficient permissions"

  claims_checked : String → Context → Result Claims → Reply
  unfolding role_checked
  claims_checked required c (err e) = rejected 401 "Invalid token"
  claims_checked required c (ok claims) = role_checked required c claims.role

  prefix_checked : ℕ → String → Context → Option String → Reply
  unfolding claims_checked
  prefix_checked now required c none = rejected 401 "Missing or invalid Authorization header"
  prefix_checked now required c (some token) =
      claims_checked required c (validate_token signer config now token)

  -- `RequireRole`
  unfoldable pub require_role : ℕ → String → Request → Reply
  unfolding prefix_checked
  require_role now required r =
      prefix_checked now required r.context (cut_prefix "Bearer " r.authorization)
