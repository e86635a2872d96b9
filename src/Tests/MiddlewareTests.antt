-- ===== src/Tests/MiddlewareTests.antt =====
-- Requests at concrete headers.
use service_platform.Prelude.{String, ◌≡◌, refl, none, some, [], str_eq, if◌then◌else◌}
use service_platform.Prelude.Outcome.{Result, ok}
use service_platform.Jwt.{Signer}
use service_platform.Middleware.{Context, Request, passes, rejected, set_user_context, string, uuid}
use service_platform.Middleware.JwtAuthentication as jwt
use service_platform.Middleware.HttpBasicAuthentication as basic
use service_platform.Middleware.Guards.{
  Authenticated, require_auth-Authenticated, HoldsRole, require_role-HoldsRole,
  require_role-require_auth,
}
use service_platform.Tests.AuthTests.{signer, config, no_claims}

abbrev with_header : String → Request
with_header h = record { authorization = h; api_key = ""; context = [] }

abbrev seen : Context
seen = set_user_context string (jwt.claims_result (no_claims (some "abc"))) []

passes_token : jwt.require_auth signer config 0 (with_header "bearer abc") ≡ passes seen
unfolding jwt.require_auth jwt.can_handle service_platform.Prelude.Strings.split_two
    service_platform.Prelude.Strings.lower_eq jwt.authenticate jwt.extract_token
    service_platform.Prelude.Strings.trim_space service_platform.Prelude.Strings.trim_left
    service_platform.Prelude.Strings.trim_right service_platform.Prelude.Strings.is_space
    service_platform.Jwt.validate_token
passes_token = refl

require_auth-Authenticated_example : Authenticated signer config 0 "bearer abc" [] seen
require_auth-Authenticated_example =
    require_auth-Authenticated signer config 0 (with_header "bearer abc") seen passes_token

passes_role : jwt.require_role signer config 0 "USER" (with_header "Bearer abc") ≡ passes []
unfolding jwt.require_role service_platform.Prelude.Strings.cut_prefix
    service_platform.Jwt.validate_token service_platform.Middleware.has_required_role
passes_role = refl

require_role-HoldsRole_example :
    HoldsRole signer config 0 "USER" "Bearer abc" × (◌≡◌ {A = Context} [] [])
require_role-HoldsRole_example =
    require_role-HoldsRole signer config 0 "USER" (with_header "Bearer abc") [] passes_role

-- A decoder of the one payload.
abbrev decoder : String → Result String
decoder payload = ok "api:api-password"

abbrev admitted : Context
admitted = set_user_context uuid (basic.basic_result "id-1" "api") []

passes_basic : basic.require_auth decoder "id-1" (with_header "Basic YXBp") ≡ passes admitted
unfolding basic.require_auth basic.can_handle service_platform.Prelude.Strings.split_two
    service_platform.Prelude.Strings.lower_eq basic.authenticate basic.extract_credentials
    basic.password_matches service_platform.Prelude.lookup basic.valid_credentials
passes_basic = refl

require_role-require_auth_example :
    basic.require_role "ADMIN" (record (with_header "Basic YXBp") { context = admitted })
    ≡ passes admitted
require_role-require_auth_example =
    require_role-require_auth decoder "id-1" "ADMIN" (with_header "Basic YXBp") admitted
      passes_basic
