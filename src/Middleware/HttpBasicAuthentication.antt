-- ===== src/Middleware/HttpBasicAuthentication.antt =====
-- app/api/middleware/http_basic_authentication.go. The base64 decoder is an argument, and so is the
-- identifier that `uuid.New` makes.
use service_platform.Prelude.{
  String, Bool, false, Option, none, some, [], ◌∷◌, Assoc, lookup, str_eq, if◌then◌else◌,
}
use service_platform.Prelude.Outcome.{text, Result, ok, err}
use service_platform.Prelude.Strings.{split_two, lower_eq}
use service_platform.Middleware.{
  uuid, string, Context, Request, Reply, passes, rejected, AuthenticationResult, method_basic,
  set_user_context, has_required_role,
}

-- Each name with its password.
unfoldable pub valid_credentials : Assoc String
valid_credentials = ("admin", "admin-password") ∷ ("api", "api-password") ∷ []

unfoldable pub can_handle : String → Bool
can_handle header =
    if str_eq header ""
    then false
    else elim (split_two 32 header) [ none ↦ false | some (scheme, rest) ↦ lower_eq scheme "basic" ]

unfoldable pub basic_result : String → String → AuthenticationResult
basic_result id name = record {
  user_id = some id;
  username = some name;
  email = none;
  phone_number = none;
  role = some "ADMIN";
  email_verified = none;
  phone_verified = none;
  last_login_at = none;
  method = method_basic;
  service_name = none;
}

-- The password must be the one that is kept for the name, if one is.
unfoldable pub password_matches : String → Option String → Bool
password_matches password none = false
password_matches password (some valid) = str_eq password valid

module _ (decode_string : String → Result String) where
  -- The name and the password of a decoded payload.
  credentials : Result String → Result (String × String)
  credentials (err e) = err (text "Invalid basic authentication")
  credentials (ok payload) = elim (split_two 58 payload) [
    | none ↦ err (text "Invalid basic authentication")
    | some c ↦ ok c
  ]

  unfoldable pub extract_credentials : String → Result (String × String)
  unfolding credentials
  extract_credentials header =
      if str_eq header ""
      then err (text "Authorization header missing")
      else elim (split_two 32 header) [
        | none ↦ err (text "Invalid authorization header format")
        | some (scheme, payload) ↦
            if lower_eq scheme "basic"
            then credentials (decode_string payload)
            else err (text "Invalid authorization header format")
      ]

  checked : String → Result (String × String) → Result AuthenticationResult
  unfolding basic_result
  checked id (err e) = err e
  checked id (ok (name, password)) =
      if password_matches password (lookup name valid_credentials)
      then ok (basic_result id name)
      else err (text "Invalid basic authentication")

  unfoldable pub authenticate : String → String → Result AuthenticationResult
  unfolding checked
  authenticate id header = checked id (extract_credentials header)

  replied : Context → Result AuthenticationResult → Reply
  replied c (err e) = rejected 401 "Invalid basic authentication"
  replied c (ok r) = passes (set_user_context uuid r c)

  unfoldable pub require_auth : String → Request → Reply
  unfolding replied
  require_auth id r =
      if can_handle r.authorization
      then replied r.context (authenticate id r.authorization)
      else rejected 401 "Authentication required"

-- `RequireRole` looks at the context only.
unfoldable pub require_role : String → Request → Reply
require_role required r = elim (lookup "role" r.context) [
  | none ↦ rejected 403 "Access denied: no role found"
  | some (string role) ↦
      if has_required_role role required
      then passes r.context
      else rejected 403 "Access denied: insufficient permissions"
  | _ ↦ rejected 403 "Access denied: invalid role"
]
