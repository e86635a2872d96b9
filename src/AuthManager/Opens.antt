-- ===== src/AuthManager/Opens.antt =====
-- What login and refresh open, and for whom.
use service_platform.Prelude.{
  ℕ, ◌+◌, ◌≤◌, ◌∙◌, String, true, false, Option, none, some, List, [], ◌∷◌, ◌≡◌, refl, sym, ap, ltb,
  filter, inl, inr, Bool-cases, arith,
}
use service_platform.Prelude.Outcome.{is_no_rows, done, Result, ok, err, Result-cases}
use mathlib.Core.Path.{subst}
use service_platform.Entity.{Session, User}
use service_platform.Bcrypt.{Library, check_password}
use service_platform.Jwt.{
  Signer, JwtConfig, AccessToken, RefreshToken, generate_access_token, user_claims,
  generate_refresh_token, token_type_bearer,
}
use service_platform.SessionRepository.{InsertCalls, insert, is_live_of, filled, find_by_token}
use service_platform.SessionRepository.Rotation.{
  find_by_token-insert, insert-OnlyLive, insert-filled,
}
use service_platform.UserRepository.{find_by_email}
use service_platform.AuthManager.{
  Tables, SessionCalls, AuthResponse, new_session, validate_session, create_session,
  session_created, session_generated, responded, issue_tokens, generate_user_access_token,
  create_auth_response,
}
use service_platform.AuthManager.Login.{LoginCalls, logged_in, user_found, password_checked, login}
use service_platform.AuthManager.Rotates.{from_rows}

ok-injective : {A : Type 0} {a b : A} → ◌≡◌ {A = Result A} (ok a) (ok b) → a ≡ b
ok-injective h = cc h

expires-late : (t now : ℕ) → now ≤ t → ltb t now ≡ false
expires-late t now h = ground arith

module _ (hash : String → String) (signer : Signer) (config : JwtConfig) where
  -- The table has a live session for the token, and no other live one of the same user; until it
  -- expires it is accepted for the token.
  pub record Opens (user base64 : String) (until : ℕ) (rows : List Session) : Type 0 where
    pub session : Session
    pub owner : session.user_id ≡ user
    pub only : filter (is_live_of user) rows ≡ session ∷ []
    pub accepted :
        (now : ℕ)
        → now ≤ until
        → validate_session hash signer config (from_rows rows) now (hash base64) ≡ ok session

  accepted-found :
      (s : Session) (until now : ℕ) (token : String) (rows : List Session)
      → find_by_token done token rows ≡ ok s
      → s.revoked ≡ false
      → s.expires_at ≡ some until
      → now ≤ until
      → validate_session hash signer config (from_rows rows) now token ≡ ok s
  unfolding validate_session
  accepted-found s until now token rows found open_row expires early =
      rw (found, open_row, expires, expires-late until now early) refl

  session_created-Opens :
      (c : InsertCalls) (user : String) (until : ℕ) (made t : RefreshToken) (rows : List Session)
      → c.by_user.outcome ≡ done
      → let a = insert c (new_session user (hash made.token_base64) until) rows in
        (session_created hash signer config made a).1 ≡ ok t
        → Opens user t.token_base64 until (session_created hash signer config made a).0
  unfolding session_created
  session_created-Opens c user until made t rows answered given =
      let s = new_session user (hash made.token_base64) until in
      elim (Result-cases (insert c s rows).1) [
        | inl (e, broken) ↦ absurd (cc (rw broken at given))
        | inr (s', stored) ↦
            let same : ok made ≡ ok t = rw stored at given in
            let token : made.token_base64 ≡ t.token_base64 = cc same in
            let row : s' ≡ filled c s = insert-filled c s s' rows stored in
            rw stored (record {
              session = s';
              owner = ap (λ r. r.user_id) row;
              only = insert-OnlyLive c s s' rows answered refl stored;
              accepted = λ now early. rw (sym token) (
                  accepted-found s' until now s.token (insert c s rows).0
                    (find_by_token-insert c s s' rows refl stored) (ap (λ r. r.revoked) row)
                    (ap (λ r. r.expires_at) row) early);
            })
      ]

  -- A session that is created opens the token of its user, where the server has answered the
  -- revocation of the user's sessions.
  pub create_session-Opens :
      (c : SessionCalls) (u : User) (rows : List Session) (t : RefreshToken)
      → c.insert.by_user.outcome ≡ done
      → (create_session hash signer config c u rows).1 ≡ ok t
      → Opens u.id t.token_base64
          (c.now + config.refresh_expiration)
          (create_session hash signer config c u rows).0
  unfolding create_session session_generated
  create_session-Opens c u rows t answered given =
      elim (Result-cases (generate_refresh_token signer config c.random c.generated_at u)) [
        | inl (e, broken) ↦ absurd (cc (rw broken at given))
        | inr (made, generated) ↦ rw generated (
            session_created-Opens c.insert u.id (c.now + config.refresh_expiration) made t rows
              answered (rw generated at given))
      ]

  -- The text is what the signer makes of the user's claims at a time.
  abbrev pub IsSigned : ℕ → ℕ → Option String → User → String → Type 0
  IsSigned at expiration base64 u token =
      signer.sign config.secret_key (user_claims signer config at expiration base64 u) ≡ ok token

  generate_user_access_token-IsSigned :
      (at : ℕ) (u : User) (access : AccessToken)
      → generate_user_access_token hash signer config at u ≡ ok access
      → IsSigned at config.access_expiration none u access.token
  unfolding generate_user_access_token generate_access_token
  generate_user_access_token-IsSigned at u access made =
      elim (Result-cases (
        signer.sign config.secret_key
          (user_claims signer config at config.access_expiration none u))) [
            | inl (e, broken) ↦ absurd (cc (rw broken at made))
            | inr (t, signed) ↦
                signed ∙ ap ok (ap (λ a. a.token) (ok-injective (rw signed at made)))
          ]

  generate_refresh_token-IsSigned :
      (random : Result String) (at : ℕ) (u : User) (t : RefreshToken)
      → generate_refresh_token signer config random at u ≡ ok t
      → IsSigned at config.refresh_expiration (some t.token_base64) u t.token
  unfolding generate_refresh_token
  generate_refresh_token-IsSigned (err e) at u t made = absurd (cc made)
  generate_refresh_token-IsSigned (ok base64) at u t made =
      elim (Result-cases (
        signer.sign config.secret_key
          (user_claims signer config at config.refresh_expiration (some base64) u))) [
            | inl (e, broken) ↦ absurd (cc (rw broken at made))
            | inr (text, signed) ↦
                subst (λ x. IsSigned at config.refresh_expiration (some x.token_base64) u x.token)
                  (ok-injective (rw signed at made)) signed
          ]

  session_created-same :
      (made t : RefreshToken) (a : List Session × Result Session)
      → (session_created hash signer config made a).1 ≡ ok t
      → made ≡ t
  unfolding session_created
  session_created-same made t (rows, err e) given = absurd (cc given)
  session_created-same made t (rows, ok s) given = ok-injective given

  create_session-IsSigned :
      (c : SessionCalls) (u : User) (rows : List Session) (t : RefreshToken)
      → (create_session hash signer config c u rows).1 ≡ ok t
      → IsSigned c.generated_at config.refresh_expiration (some t.token_base64) u t.token
  unfolding create_session session_generated
  create_session-IsSigned c u rows t given =
      elim (Result-cases (generate_refresh_token signer config c.random c.generated_at u)) [
        | inl (e, broken) ↦ absurd (cc (rw broken at given))
        | inr (made, generated) ↦
            generate_refresh_token-IsSigned c.random c.generated_at u t
              (generated ∙ ap ok (session_created-same made t _ (rw generated at given)))
      ]

  -- The response names the user and carries an access token and a refresh token with the user's
  -- claims; the session of the latter is open.
  pub record Granted (access_at refresh_at : ℕ) (u : User) (until : ℕ) (response : AuthResponse)
      (rows : List Session) : Type 0 where
    pub access : IsSigned access_at config.access_expiration none u response.access_token
    pub username : response.username ≡ u.username
    pub roles : response.roles ≡ u.role ∷ []
    pub type : response.token_type ≡ token_type_bearer
    pub token : RefreshToken
    pub carried : response.refresh_token ≡ token.token
    pub refresh :
        IsSigned refresh_at config.refresh_expiration (some token.token_base64) u token.token
    pub opens : Opens u.id token.token_base64 until rows

  responded-Granted :
      (c : SessionCalls) (at : ℕ) (u : User) (access : AccessToken) (rows : List Session)
      (response : AuthResponse)
      → c.insert.by_user.outcome ≡ done
      → IsSigned at config.access_expiration none u access.token
      → let a = create_session hash signer config c u rows in
        (responded hash signer config u access a).1 ≡ ok response
        → Granted at c.generated_at u
            (c.now + config.refresh_expiration)
            response
            (responded hash signer config u access a).0
  unfolding responded create_auth_response
  responded-Granted c at u access rows response answered signed given =
      elim (Result-cases (create_session hash signer config c u rows).1) [
        | inl (e, broken) ↦ absurd (cc (rw broken at given))
        | inr (t, created) ↦
            let same = rw created at given in
            rw created (record {
              access = signed ∙ ap ok (ap (λ r. r.access_token) (ok-injective same));
              username = ap (λ r. r.username) (ok-injective (sym same));
              roles = ap (λ r. r.roles) (ok-injective (sym same));
              type = ap (λ r. r.token_type) (ok-injective (sym same));
              token = t;
              carried = ap (λ r. r.refresh_token) (ok-injective (sym same));
              refresh = create_session-IsSigned c u rows t created;
              opens = create_session-Opens c u rows t answered created;
            })
      ]

  issue_tokens-Granted :
      (c : SessionCalls) (at : ℕ) (u : User) (access : Result AccessToken) (rows : List Session)
      (response : AuthResponse)
      → c.insert.by_user.outcome ≡ done
      → generate_user_access_token hash signer config at u ≡ access
      → (issue_tokens hash signer config c u access rows).1 ≡ ok response
      → Granted at c.generated_at u
          (c.now + config.refresh_expiration)
          response
          (issue_tokens hash signer config c u access rows).0
  unfolding issue_tokens
  issue_tokens-Granted c at u (err e) rows response answered made given = absurd (cc given)
  issue_tokens-Granted c at u (ok access) rows response answered made given =
      responded-Granted c at u access rows response answered
        (generate_user_access_token-IsSigned at u access made) given

  module _ (library : Library) where
    -- What a login that hands out tokens has checked and done.
    pub record LoggedIn (c : LoginCalls) (find : Result User) (password : String)
        (response : AuthResponse) (t : Tables) : Type 0 where
      pub user : User
      pub found : find ≡ ok user
      pub checked : check_password library password user.password ≡ ok true
      pub granted :
          Granted c.access_at c.session.generated_at
            (record user { last_login_at = some c.now })
            (c.session.now + config.refresh_expiration)
            response
            t.sessions

    -- Where the server has answered the revocation of the user's sessions, a login that hands out
    -- tokens has found the user and checked the password; both tokens are signed for that user's
    -- claims; and the session of the new refresh token is accepted until it expires, and is the
    -- only live one.
    pub login-LoggedIn :
        (c : LoginCalls) (email password : String) (t : Tables) (response : AuthResponse)
        → c.session.insert.by_user.outcome ≡ done
        → (login hash signer config library c email password t).1 ≡ ok response
        → LoggedIn c
            (find_by_email c.find.outcome email c.find.replica)
            password
            response
            (login hash signer config library c email password t).0
    unfolding login user_found password_checked logged_in is_no_rows
    login-LoggedIn c email password t response answered given =
        elim (Result-cases (find_by_email c.find.outcome email c.find.replica)) [
          | inl (e, missing) ↦ elim (Bool-cases (is_no_rows e)) [
            | inl none_found ↦ absurd (cc (rw (missing, none_found) at given))
            | inr failed ↦ absurd (cc (rw (missing, failed) at given))
          ]
          | inr (u, found) ↦ elim (Result-cases (check_password library password u.password)) [
            | inl (e, broken) ↦ absurd (cc (rw (found, broken) at given))
            | inr (false, wrong) ↦ absurd (cc (rw (found, wrong) at given))
            | inr (true, checked) ↦
                rw (found, checked)
                  (record {
                    user = u;
                    found = refl;
                    checked = checked;
                    granted =
                        issue_tokens-Granted c.session c.access_at
                          (record u { last_login_at = some c.now })
                          (generate_user_access_token hash signer config c.access_at
                            (record u { last_login_at = some c.now }))
                          t.sessions response answered refl (rw (found, checked) at given);
                  })
          ]
        ]
