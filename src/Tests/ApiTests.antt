-- ===== src/Tests/ApiTests.antt =====
-- The HTTP API at concrete inputs.
use Prim.Native.String.{◌++◌ as append}
use service_platform.Prelude.{
  String, ◌+◌, ◌*◌, ◌≤◌, ◌<◌, ◌≡◌, refl, ap, Bool, arith, true, false, none, some, [], ◌∷◌,
}
use service_platform.Prelude.Outcome.{ok}
use service_platform.Jwt.{Signer, Claims, AccessToken, user_claims}
use service_platform.AuthManager.{presented_token}
use service_platform.Api.Response.{principal}
use service_platform.Api.AuthController.{
  Credentials, Surroundings, replied_success, refresh_token, logout, login, me,
}
use service_platform.Api.SignsOut.{
  Steady, IsSignedOut, logout-IsSignedOut, refresh_token-IsSignedOut,
}
use service_platform.Api.SignsIn.{SignedIn, login-SignedIn}
use service_platform.Api.Principal.{Verifies, principal_of, me-generate_access_token}
use service_platform.Tests.Servers.{at_time}
use service_platform.Tests.AuthTests.{
  hash, signer, config, library, ann, old_row, refresh_calls, login_calls, tables,
}

abbrev surroundings : Surroundings
surroundings = record {
  transport = record { tls = false; forwarded_proto = "HTTPS"; forwarded_protocol = "" };
  production = false;
  now = 7;
}

signer-Steady : Steady signer
signer-Steady = record { same_claims = λ key token now later c c' valid valid'. cc }

logout-IsSignedOut_example :
    (b : String) × (presented_token hash signer config (record { now = 1; token = "old" }) ≡ ok b)
    × IsSignedOut hash signer config "old" b
        (logout hash signer config 1 (at_time 2) (some "old") (old_row ∷ [])).0
unfolding logout service_platform.AuthManager.logout presented_token
    service_platform.Jwt.validate_token service_platform.SessionRepository.revoke_by_token
logout-IsSignedOut_example =
    logout-IsSignedOut hash signer config signer-Steady 1 (at_time 2) "old" (old_row ∷ []) refl

refresh_token-IsSignedOut_example :
    (b : String) × (presented_token hash signer config (record { now = 1; token = "old" }) ≡ ok b)
    × IsSignedOut hash signer config "old" b
        (refresh_token hash signer config surroundings 1 refresh_calls
          (some "old")
          (old_row ∷ [])).0
unfolding refresh_token service_platform.AuthManager.Refresh.refresh_token presented_token
    service_platform.Jwt.validate_token service_platform.AuthManager.validate_session
    service_platform.SessionRepository.find_by_token service_platform.UserRepository.find_by_id
    service_platform.AuthManager.generate_user_access_token
    service_platform.Jwt.generate_access_token service_platform.AuthManager.create_session
    service_platform.Jwt.generate_refresh_token service_platform.SessionRepository.insert
    service_platform.Prelude.update_rows
refresh_token-IsSignedOut_example =
    refresh_token-IsSignedOut hash signer config signer-Steady surroundings 1 refresh_calls "old"
      (old_row ∷ []) refl refl

abbrev ann_credentials : Credentials
ann_credentials = record {
  can_bind = true;
  is_valid = true;
  email = "ann@example.org";
  password = "secret";
}

login-SignedIn_example :
    let a = login hash signer config library surroundings login_calls ann_credentials tables in
    SignedIn hash signer config library login_calls ann_credentials a.0 a.1
unfolding login service_platform.AuthManager.Login.login
    service_platform.UserRepository.find_by_email service_platform.Bcrypt.check_password
    service_platform.AuthManager.generate_user_access_token
    service_platform.Jwt.generate_access_token service_platform.AuthManager.create_session
    service_platform.Jwt.generate_refresh_token service_platform.SessionRepository.insert
    service_platform.Prelude.update_rows
login-SignedIn_example =
    login-SignedIn hash signer config library surroundings login_calls ann_credentials tables refl
      refl

-- A signer that reads every text as the access token of one user.
abbrev ann_signer : Signer
ann_signer = record signer {
  parse = λ key now token. ok (user_claims signer config 3 10 none ann, true);
}

ann_signer-Verifies : Verifies ann_signer (user_claims ann_signer config 3 10 none ann)
unfolding user_claims
ann_signer-Verifies = record { reads_back = λ key token now signed started early. refl }

me-generate_access_token_example :
    me ann_signer config 5 (append "Bearer " "signed")
    ≡ replied_success (principal (principal_of ann_signer config ann)) none
unfolding service_platform.Jwt.generate_access_token
me-generate_access_token_example =
    me-generate_access_token ann_signer config 3 5 ann
      (record { token = "signed"; expired_at = 13 }) ann_signer-Verifies refl (omega arith)
      (omega arith)
