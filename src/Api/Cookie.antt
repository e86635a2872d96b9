-- ===== src/Api/Cookie.antt =====
-- app/pkg/util/cookie/cookie.go: the cookie of the refresh token.
use service_platform.Prelude.{ℕ, ◌+◌, ◌/◌, String, Bool, true, ◌||◌, if◌then◌else◌}
use service_platform.Prelude.Outcome.{ℤ, pos, negsuc}
use service_platform.Prelude.Strings.{lower_prefix}

-- What `isHTTPS` reads of a request: whether it came over TLS, and two headers.
pub record Transport : Type 0 where
  pub tls : Bool
  pub forwarded_proto : String
  pub forwarded_protocol : String

-- `SameSite` is always strict.
pub record Cookie : Type 0 where
  pub name : String
  pub value : String
  pub path : String
  pub http_only : Bool
  pub secure : Bool
  pub expires : ℕ
  pub max_age : ℤ

unfoldable pub is_https : Transport → Bool
is_https t =
    if t.tls
    then true
    else lower_prefix "https" t.forwarded_proto || lower_prefix "https" t.forwarded_protocol

-- `production` says whether APP_ENV is "production". `int(expiry.Seconds())` goes through a float64,
-- which is exact for whole seconds, and for less than 2 ^ 23 of them.
unfoldable pub new_cookie : Bool → ℕ → String → String → ℕ → Transport → Cookie
unfolding is_https
new_cookie production now name value expiry t = record {
  name = name;
  value = value;
  path = "/";
  http_only = true;
  secure = is_https t || production;
  expires = now + expiry;
  max_age = pos (expiry / 1000000000);
}

unfoldable pub expire_cookie : String → Cookie
expire_cookie name = record {
  name = name;
  value = "";
  path = "/";
  http_only = true;
  secure = true;
  expires = 0;
  max_age = negsuc 0;
}

unfoldable pub new_refresh_token_cookie : Bool → ℕ → Transport → String → ℕ → Cookie
unfolding new_cookie
new_refresh_token_cookie production now t token expiry =
    new_cookie production now "refresh_token" token expiry t
