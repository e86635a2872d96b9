-- ===== src/AuthManager/Rotates.antt =====
-- The sessions that a call opens and those that it ends.
use service_platform.Prelude.{String, Option, none, some, List, ◌≡◌, refl, inl, inr}
use service_platform.Prelude.Outcome.{
  Err, no_rows, is_no_rows, Outcome, done, refused, lost, failure, Call, Result, ok, err,
  Result-cases,
}
use service_platform.Entity.{Session}
use service_platform.Jwt.{Signer, JwtConfig}
use service_platform.SessionRepository.{revoke_by_token, find_by_token}
use service_platform.SessionRepository.Later.{Later, Later-find_by_token, revoke_by_token-IsGone}
use service_platform.UserRepository.{find_by_id}
use service_platform.AuthManager.{
  Read, Presented, AuthResponse, invalid_refresh_token, presented_token, logout, validate_session,
  revoked_or,
}
use service_platform.AuthManager.Refresh.{RefreshCalls, revoke_old, refresh_token}

-- A SELECT that is answered from the given rows.
abbrev pub from_rows : List Session → Read Session
from_rows rows = record { outcome = done; replica = rows }

failure-none : (o : Outcome) → failure o ≡ none → o ≡ done
failure-none done h = refl
failure-none (refused e) h = absurd (cc h)
failure-none (lost e) h = absurd (cc h)

module _ (hash : String → String) (signer : Signer) (config : JwtConfig) where
  -- Each refresh with the refresh token, in any later table and answered from it, is refused as
  -- invalid and changes nothing.
  abbrev pub IsEnded : String → List Session → Type 0
  IsEnded t rows =
      (p : Presented) (c : RefreshCalls) (later : List Session)
      → presented_token hash signer config p ≡ ok t
      → Later (hash t) rows later
      → c.find_session ≡ from_rows later
      → refresh_token hash signer config p c later ≡ (later, err invalid_refresh_token)

  refused_without_row :
      (p : Presented) (c : RefreshCalls) (t : String) (later : List Session)
      → presented_token hash signer config p ≡ ok t
      → find_by_token c.find_session.outcome (hash t) c.find_session.replica ≡ err no_rows
      → refresh_token hash signer config p c later ≡ (later, err invalid_refresh_token)
  unfolding refresh_token validate_session is_no_rows
  refused_without_row p c t later held absent = rw (held, absent) refl

  IsEnded-revoke_by_token :
      (c : Call) (t : String) (rows : List Session)
      → c.outcome ≡ done
      → IsEnded t (revoke_by_token c (hash t) rows).0
  IsEnded-revoke_by_token c t rows answered p calls later held l from =
      refused_without_row p calls t later held (
        rw from (
          Later-find_by_token (hash t) _ later (revoke_by_token-IsGone c (hash t) rows answered) l))

  revoked_or-none :
      (rows : List Session) (o : Option Err)
      → (revoked_or hash signer config (rows, o)).1 ≡ none
      → (o ≡ none) × (revoked_or hash signer config (rows, o) ≡ (rows, none))
  unfolding revoked_or
  revoked_or-none rows none left = (refl, refl)
  revoked_or-none rows (some e) left = absurd (cc left)

  -- A logout that reports success ends the session of its refresh token.
  pub logout-IsEnded :
      (p : Presented) (c : Call) (t : String) (rows : List Session)
      → presented_token hash signer config p ≡ ok t
      → (logout hash signer config p c rows).1 ≡ none
      → IsEnded t (logout hash signer config p c rows).0
  unfolding logout revoke_by_token
  logout-IsEnded p c t rows held left =
      let revoked = revoked_or-none _ (failure c.outcome) (rw held at left) in
      rw (held, revoked.1) (IsEnded-revoke_by_token c t rows (failure-none c.outcome revoked.0))

  IsEnded-revoke_old :
      (c : Call) (t : String) (a : List Session × Result AuthResponse) (response : AuthResponse)
      → c.outcome ≡ done
      → (revoke_old hash signer config c t a).1 ≡ ok response
      → IsEnded t (revoke_old hash signer config c t a).0
  unfolding revoke_old
  IsEnded-revoke_old c t (rows, err e) response answered given = absurd (cc given)
  IsEnded-revoke_old c t (rows, ok r) response answered given =
      IsEnded-revoke_by_token c t rows answered

  -- A refresh that hands out new tokens, where the server has answered the revocation of the old
  -- session, ends it.
  pub refresh_token-IsEnded :
      (p : Presented) (c : RefreshCalls) (t : String) (rows : List Session)
      (response : AuthResponse)
      → presented_token hash signer config p ≡ ok t
      → c.revoke.outcome ≡ done
      → (refresh_token hash signer config p c rows).1 ≡ ok response
      → IsEnded t (refresh_token hash signer config p c rows).0
  unfolding refresh_token
  refresh_token-IsEnded p c t rows response held answered given =
      elim (Result-cases (validate_session hash signer config c.find_session c.now (hash t))) [
        | inl (e, no_session) ↦ absurd (cc (rw (held, no_session) at given))
        | inr (s, valid) ↦
            elim (Result-cases (find_by_id c.find_user.outcome s.user_id c.find_user.replica)) [
              | inl (e, no_user) ↦ absurd (cc (rw (held, valid, no_user) at given))
              | inr (u, found) ↦
                  rw (held, valid, found)
                    (IsEnded-revoke_old c.revoke t _ response answered
                      (rw (held, valid, found) at given))
            ]
      ]
