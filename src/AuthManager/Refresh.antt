-- ===== src/AuthManager/Refresh.antt =====
-- `RefreshToken` of app/manager/auth_manager.go.
use service_platform.Prelude.{ℕ, String, List}
use service_platform.Prelude.Outcome.{wrap, Call, Result, ok, err}
use service_platform.Entity.{Session, User}
use service_platform.Jwt.{Signer, JwtConfig}
use service_platform.SessionRepository.{revoke_by_token}
use service_platform.UserRepository.{find_by_id}
use service_platform.AuthManager.{
  Read, Presented, SessionCalls, AuthResponse, presented_token, validate_session, issue_tokens,
  generate_user_access_token,
}

pub record RefreshCalls : Type 0 where
  pub find_session : Read Session
  pub now : ℕ
  pub find_user : Read User
  pub access_at : ℕ
  pub session : SessionCalls
  pub revoke : Call

module _ (hash : String → String) (signer : Signer) (config : JwtConfig) where
  -- The new session comes first; the revocation of the old one may fail unseen.
  unfoldable pub revoke_old :
      Call → String → List Session × Result AuthResponse → List Session × Result AuthResponse
  revoke_old c token (rows, err e) = (rows, err e)
  revoke_old c token (rows, ok response) = ((revoke_by_token c (hash token) rows).0, ok response)

  refresh_user :
      RefreshCalls → String → Result User → List Session → List Session × Result AuthResponse
  unfolding revoke_old issue_tokens
  refresh_user c token (err e) rows = (rows, err (wrap "failed to find user: " e))
  refresh_user c token (ok u) rows = revoke_old c.revoke token (
      issue_tokens hash signer config c.session u
        (generate_user_access_token hash signer config c.access_at u) rows)

  refresh_session :
      RefreshCalls → String → Result Session → List Session → List Session × Result AuthResponse
  unfolding refresh_user
  refresh_session c token (err e) rows = (rows, err e)
  refresh_session c token (ok s) rows =
      refresh_user c token (find_by_id c.find_user.outcome s.user_id c.find_user.replica) rows

  refresh_presented :
      RefreshCalls → Result String → List Session → List Session × Result AuthResponse
  unfolding refresh_session
  refresh_presented c (err e) rows = (rows, err e)
  refresh_presented c (ok token) rows =
      refresh_session c token
        (validate_session hash signer config c.find_session c.now (hash token)) rows

  -- `RefreshToken`
  unfoldable pub refresh_token :
      Presented → RefreshCalls → List Session → List Session × Result AuthResponse
  unfolding refresh_presented
  refresh_token p c rows = refresh_presented c (presented_token hash signer config p) rows
