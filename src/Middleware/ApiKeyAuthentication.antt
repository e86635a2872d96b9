-- ===== src/Middleware/ApiKeyAuthentication.antt =====
-- app/api/middleware/api_key_authentication.go
use service_platform.Prelude.{
  String, Bool, false, not, Option, none, some, [], ◌∷◌, Assoc, lookup, str_eq, if◌then◌else◌,
}
use service_platform.Prelude.Outcome.{text, Result, ok, err}
use service_platform.Middleware.{
  uuid, Context, Request, Reply, passes, rejected, AuthenticationResult, method_api_key,
  set_user_context, get_authentication_method,
}

-- Each key with the name of its service.
unfoldable pub valid_api_keys : Assoc String
valid_api_keys =
    ("service-key-1", "financial-service")
    ∷ ("service-key-2", "kyc-service")
    ∷ ("service-key-3", "notification-service")
    ∷ []

unfoldable pub can_handle : Request → Bool
can_handle r = not (str_eq r.api_key "")

unfoldable pub service_result : String → AuthenticationResult
service_result name = record {
  user_id = some "00000000-0000-0000-0000-000000000000";
  username = some "service";
  email = none;
  phone_number = none;
  role = some "SERVICE";
  email_verified = none;
  phone_verified = none;
  last_login_at = none;
  method = method_api_key;
  service_name = some name;
}

known_service : Option String → Result AuthenticationResult
unfolding service_result
known_service none = err (text "Invalid API key")
known_service (some name) = ok (service_result name)

unfoldable pub authenticate : Request → Result AuthenticationResult
unfolding known_service
authenticate r =
    if str_eq r.api_key ""
    then err (text "Invalid API key")
    else known_service (lookup r.api_key valid_api_keys)

replied : Context → Result AuthenticationResult → Reply
replied c (err e) = rejected 401 "Invalid API key"
replied c (ok r) = passes (set_user_context uuid r c)

unfoldable pub require_auth : Request → Reply
unfolding replied
require_auth r =
    if can_handle r
    then replied r.context (authenticate r)
    else rejected 401 "Authentication required"

unfoldable pub is_service_account : Context → Bool
is_service_account c = elim (get_authentication_method c) [
  | ok m ↦ str_eq m method_api_key
  | err e ↦ false
]

-- `RequireRole`: the call goes on in both cases.
unfoldable pub require_role : String → Request → Reply
require_role required r =
    if is_service_account r.context then passes r.context else passes r.context
