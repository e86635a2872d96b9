-- ===== src/Jwt.antt =====
-- app/pkg/jwt: the claims of a token, its generation and its validation. Signing, and parsing with
-- the check of the signature and of the times, is golang-jwt's, an argument.
use service_platform.Prelude.{ℕ, ◌+◌, ◌/◌, String, Bool, true, false, Option, none, some}
use service_platform.Prelude.Outcome.{text, Result, ok, err}
use service_platform.Entity.{User}

pub record RegisteredClaims : Type 0 where
  pub issuer : String
  pub issued_at : ℕ
  pub expires_at : ℕ
  pub not_before : ℕ

pub record Claims : Type 0 where
  pub user_id : Option String
  pub username : Option String
  pub email : Option String
  pub phone_number : Option String
  pub role : Option String
  pub email_verified : Option Bool
  pub phone_verified : Option Bool
  pub last_login_at : Option ℕ
  pub refresh_token_base64 : Option String
  pub registered : RegisteredClaims

pub record JwtConfig : Type 0 where
  pub secret_key : String
  pub issuer : String
  pub access_expiration : ℕ
  pub refresh_expiration : ℕ

-- `numeric_date` rounds a time as a token holds it; `parse` is given the key and the clock, and
-- says besides the claims whether the token is valid.
pub record Signer : Type 0 where
  pub numeric_date : ℕ → ℕ
  pub sign : String → Claims → Result String
  pub parse : String → ℕ → String → Result (Claims × Bool)

pub record AccessToken : Type 0 where
  pub token : String
  pub expired_at : ℕ

pub record RefreshToken : Type 0 where
  pub token : String
  pub token_base64 : String
  pub expired_at : ℕ

abbrev pub token_type_bearer : String
token_type_bearer = "Bearer"

module _ (signer : Signer) (config : JwtConfig) where
  -- In seconds.
  unfoldable pub get_expiration_time : ℕ
  get_expiration_time = config.access_expiration / 1000000000

  validated : Result (Claims × Bool) → Result Claims
  validated (err e) = err e
  validated (ok (claims, true)) = ok claims
  validated (ok (claims, false)) = err (text "invalid token")

  unfoldable pub validate_token : ℕ → String → Result Claims
  unfolding validated
  validate_token now token = validated (signer.parse config.secret_key now token)

  -- The claims of a user, with the refresh token if there is one. The arguments of both generators
  -- are the columns of a user, which is how they are called.
  unfoldable pub user_claims : ℕ → ℕ → Option String → User → Claims
  user_claims now expiration base64 u = record {
    user_id = some u.id;
    username = some u.username;
    email = u.email;
    phone_number = u.phone_number;
    role = some u.role;
    email_verified = some u.email_verified;
    phone_verified = some u.phone_verified;
    last_login_at = u.last_login_at;
    refresh_token_base64 = base64;
    registered = record {
      issuer = config.issuer;
      issued_at = signer.numeric_date now;
      expires_at = signer.numeric_date (now + expiration);
      not_before = signer.numeric_date now;
    };
  }

  access_signed : Claims → Result String → Result AccessToken
  access_signed claims (err e) = err e
  access_signed claims (ok t) = ok (record { token = t; expired_at = claims.registered.expires_at })

  unfoldable pub generate_access_token : ℕ → User → Result AccessToken
  unfolding access_signed user_claims
  generate_access_token now u =
      let claims = user_claims now config.access_expiration none u in
      access_signed claims (signer.sign config.secret_key claims)

  refresh_signed : String → Claims → Result String → Result RefreshToken
  refresh_signed base64 claims (err e) = err e
  refresh_signed base64 claims (ok t) =
      ok (record { token = t; token_base64 = base64; expired_at = claims.registered.expires_at })

  -- The first argument is what `GenerateRandomBase64(32)` returns.
  unfoldable pub generate_refresh_token : Result String → ℕ → User → Result RefreshToken
  unfolding refresh_signed user_claims
  generate_refresh_token (err e) now u = err e
  generate_refresh_token (ok base64) now u =
      let claims = user_claims now config.refresh_expiration (some base64) u in
      refresh_signed base64 claims (signer.sign config.secret_key claims)
