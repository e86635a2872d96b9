-- ===== src/Api/SignsOut.antt =====
-- Which refresh tokens the API no longer takes.
use service_platform.Prelude.{
  ℕ, String, ◌≡◌, refl, sym, ap, ◌⊎◌, inl, inr, arith, true, false, Option, none, some, List,
  str_eq, Bool-cases,
}
use mathlib.Core.Path.{subst}
use service_platform.Prelude.Outcome.{
  Option-cases, Err, text, done, is_sentinel, message, Call, ok, err, Result-cases,
}
use service_platform.Entity.{Session}
use service_platform.Jwt.{Signer, JwtConfig, Claims, validate_token}
use service_platform.AuthManager.{
  AuthResponse, Presented, invalid_refresh_token, presented_token, given_token,
  logout as manager_logout,
}
use service_platform.AuthManager.Refresh.{RefreshCalls, refresh_token as manager_refresh}
use service_platform.SessionRepository.Later.{Later}
use service_platform.AuthManager.Rotates.{from_rows, IsEnded, logout-IsEnded, refresh_token-IsEnded}
use service_platform.Api.AuthController.{
  replied_error, Surroundings, refresh_replied, refresh_given, refresh_token, logout_replied,
  logout_given, logout,
}

-- A token holds its claims: at whatever times it is read as valid, they are the same.
pub record Steady (signer : Signer) : Type 0 where
  pub same_claims :
      (key token : String) (now later : ℕ) (c c' : Claims)
      → signer.parse key now token ≡ ok (c, true)
      → signer.parse key later token ≡ ok (c', true)
      → c ≡ c'

given_token-cases :
    (o : Option String)
    → (given_token o ≡ err invalid_refresh_token) ⊎ ((b : String) × (given_token o ≡ ok b))
given_token-cases none = inl refl
given_token-cases (some b) = elim (Bool-cases (str_eq b "")) [
  | inl blank ↦ inl (rw blank refl)
  | inr given ↦ inr (b, rw given refl)
]

module _ (hash : String → String) (signer : Signer) (config : JwtConfig) where
  abbrev at_time : ℕ → String → Presented
  at_time t token = record { now = t; token = token }

  -- What a token holds is not told, or it is the same as at any other time.
  validate_token-cases :
      (now : ℕ) (token : String)
      → ((e : Err) × (validate_token signer config now token ≡ err e))
        ⊎ ((c : Claims) × (signer.parse config.secret_key now token ≡ ok (c, true))
            × (validate_token signer config now token ≡ ok c))
  unfolding validate_token
  validate_token-cases now token = elim (Result-cases (signer.parse config.secret_key now token)) [
    | inl (e, broken) ↦ inl (e, rw broken refl)
    | inr ((c, true), valid) ↦ inr (c, valid, rw valid refl)
    | inr ((c, false), stale) ↦ inl (text "invalid token", rw stale refl)
  ]

  -- The refresh token that a token holds is the same later on, unless the token is no longer valid.
  presented_token-later :
      (steady : Steady signer) (now later : ℕ) (token b : String)
      → presented_token hash signer config (at_time now token) ≡ ok b
      → let p = presented_token hash signer config (at_time later token) in
        (p ≡ err invalid_refresh_token) ⊎ (p ≡ ok b)
  unfolding presented_token
  presented_token-later steady now later token b held = elim (validate_token-cases later token) [
    | inl (e, broken) ↦ inl (rw broken refl)
    | inr (c', valid', claims') ↦ elim (validate_token-cases now token) [
      | inl (e, broken) ↦ absurd (cc (rw broken at held))
      | inr (c, valid, claims) ↦
          let same = steady.same_claims config.secret_key token now later c c' valid valid' in
          inr (
            rw claims'
              (subst (λ x. given_token x.refresh_token_base64 ≡ ok b) same (rw claims at held)))
    ]
  ]

  refresh_token-invalid :
      (p : Presented) (c : RefreshCalls) (rows : List Session)
      → presented_token hash signer config p ≡ err invalid_refresh_token
      → manager_refresh hash signer config p c rows ≡ (rows, err invalid_refresh_token)
  unfolding manager_refresh
  refresh_token-invalid p c rows bad = rw bad refl

  -- Each request for new tokens with a cookie that holds the refresh token, at any time, in any later
  -- table and answered from it, gets a 401 and changes nothing.
  abbrev pub IsSignedOut : String → String → List Session → Type 0
  IsSignedOut token b rows =
      (s : Surroundings) (now : ℕ) (c : RefreshCalls) (later : List Session)
      → Later (hash b) rows later
      → c.find_session ≡ from_rows later
      → refresh_token hash signer config s now c (some token) later
        ≡ (later, replied_error 401 "invalid refresh token")

  IsEnded-IsSignedOut :
      (steady : Steady signer) (now : ℕ) (token b : String) (rows : List Session)
      → str_eq token "" ≡ false
      → presented_token hash signer config (at_time now token) ≡ ok b
      → IsEnded hash signer config b rows
      → IsSignedOut token b rows
  unfolding refresh_token refresh_given refresh_replied is_sentinel message
  IsEnded-IsSignedOut steady now token b rows given held ended s later c table l from =
      elim (presented_token-later steady now later token b held) [
        | inl bad ↦ rw (given, refresh_token-invalid (at_time later token) c table bad) refl
        | inr same ↦ rw (given, ended (at_time later token) c table same l from) refl
      ]

  logout-held :
      (p : Presented) (c : Call) (rows : List Session)
      → (manager_logout hash signer config p c rows).1 ≡ none
      → (b : String) × (presented_token hash signer config p ≡ ok b)
  unfolding manager_logout
  logout-held p c rows left = elim (Result-cases (presented_token hash signer config p)) [
    | inl (e, broken) ↦ absurd (cc (rw broken at left))
    | inr held ↦ held
  ]

  refresh_token-held :
      (p : Presented) (c : RefreshCalls) (rows : List Session) (response : AuthResponse)
      → (manager_refresh hash signer config p c rows).1 ≡ ok response
      → (b : String) × (presented_token hash signer config p ≡ ok b)
  unfolding manager_refresh
  refresh_token-held p c rows response given =
      elim (Result-cases (presented_token hash signer config p)) [
        | inl (e, broken) ↦ absurd (cc (rw broken at given))
        | inr held ↦ held
      ]

  refresh_replied-error :
      (s : Surroundings) (e : Err) → (refresh_replied hash signer config s (err e)).status ≡ 200 → ⊥
  unfolding refresh_replied
  refresh_replied-error s e success = ground arith

  -- After a logout with status 200, the refresh token that its cookie held is signed out: in every
  -- later table that the program makes, where no session gets that token anew, a request for new
  -- tokens with the cookie, at any time and answered from that table, gets a 401 and changes nothing.
  -- A token that reads as valid has to hold the same claims at all times.
  pub logout-IsSignedOut :
      (steady : Steady signer) (now : ℕ) (c : Call) (token : String) (rows : List Session)
      → (logout hash signer config now c (some token) rows).1.status ≡ 200
      → (b : String) × (presented_token hash signer config (at_time now token) ≡ ok b)
        × IsSignedOut token b (logout hash signer config now c (some token) rows).0
  unfolding logout logout_given logout_replied
  logout-IsSignedOut steady now c token rows success = elim (Bool-cases (str_eq token "")) [
    | inl blank ↦ absurd (omega (arith, rw blank at success))
    | inr given ↦
        elim (Option-cases (manager_logout hash signer config (at_time now token) c rows).1) [
          | inr (e, failed) ↦ absurd (omega (arith, rw (given, failed) at success))
          | inl left ↦
              let (b, held) = logout-held (at_time now token) c rows left in
              (
                b,
                held,
                rw given (
                    IsEnded-IsSignedOut steady now token b _ given held
                      (logout-IsEnded hash signer config (at_time now token) c b rows held left)),
              )
        ]
  ]

  -- A cookie with a value goes to the manager.
  refresh_token-given :
      (s : Surroundings) (now : ℕ) (c : RefreshCalls) (token : String) (rows : List Session)
      → str_eq token "" ≡ false
      → let m = manager_refresh hash signer config (at_time now token) c rows in
        refresh_token hash signer config s now c (some token) rows
        ≡ (m.0, refresh_replied hash signer config s m.1)
  unfolding refresh_token refresh_given
  refresh_token-given s now c token rows given = rw given refl

  refresh_token-blank :
      (s : Surroundings) (now : ℕ) (c : RefreshCalls) (token : String) (rows : List Session)
      → str_eq token "" ≡ true
      → (refresh_token hash signer config s now c (some token) rows).1.status ≡ 200
      → ⊥
  unfolding refresh_token refresh_given
  refresh_token-blank s now c token rows blank success = omega (arith, rw blank at success)

  -- After a request for new tokens with status 200, where the server has answered the revocation of
  -- the old session, the refresh token that the old cookie held is signed out: in every later table
  -- that the program makes, where no session gets that token anew, a request with the old cookie, at
  -- any time and answered from that table, gets a 401 and changes nothing. A token that reads as
  -- valid has to hold the same claims at all times.
  pub refresh_token-IsSignedOut :
      (steady : Steady signer) (s : Surroundings) (now : ℕ) (c : RefreshCalls) (token : String)
      (rows : List Session)
      → c.revoke.outcome ≡ done
      → (refresh_token hash signer config s now c (some token) rows).1.status ≡ 200
      → (b : String) × (presented_token hash signer config (at_time now token) ≡ ok b)
        × IsSignedOut token b (refresh_token hash signer config s now c (some token) rows).0
  refresh_token-IsSignedOut steady s now c token rows answered success =
      elim (Bool-cases (str_eq token "")) [
        | inl blank ↦ absurd (refresh_token-blank s now c token rows blank success)
        | inr given ↦
            let p = at_time now token in
            let same = refresh_token-given s now c token rows given in
            elim (Result-cases (manager_refresh hash signer config p c rows).1) [
              | inl (e, failed) ↦ absurd (refresh_replied-error s e (rw (same, failed) at success))
              | inr (response, made) ↦
                  let (b, held) = refresh_token-held p c rows response made in
                  (
                    b,
                    held,
                    subst (IsSignedOut token b) (ap (λ a. a.0) (sym same)) (
                        IsEnded-IsSignedOut steady now token b _ given held (
                          refresh_token-IsEnded hash signer config p c b rows response held answered
                            made)),
                  )
            ]
      ]
