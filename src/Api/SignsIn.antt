-- ===== src/Api/SignsIn.antt =====
-- What a client gets that logs in.
use service_platform.Prelude.{String, ◌≡◌, refl, arith, true, some, inl, inr, Bool-cases}
use service_platform.Prelude.Outcome.{done, Result, ok, err}
use service_platform.Bcrypt.{Library}
use service_platform.Jwt.{Signer, JwtConfig}
use service_platform.UserRepository.{find_by_email}
use service_platform.AuthManager.{Tables, AuthResponse}
use service_platform.AuthManager.Login.{LoginCalls, login as manager_login}
use service_platform.AuthManager.Opens.{LoggedIn, login-LoggedIn}
use service_platform.Api.Response.{tokens, to_success_response}
use service_platform.Api.Cookie.{Cookie, new_refresh_token_cookie}
use service_platform.Api.AuthController.{
  HttpReply, Credentials, Surroundings, tokens_replied, login_replied, login,
}

module _ (hash : String → String) (signer : Signer) (config : JwtConfig) where
  -- The tokens of a response reach the client, the refresh token only in a cookie that no script
  -- can read.
  pub record Hands (response : AuthResponse) (reply : HttpReply) : Type 0 where
    pub cookie : Cookie
    pub set : reply.cookie ≡ some cookie
    pub name : cookie.name ≡ "refresh_token"
    pub value : cookie.value ≡ response.refresh_token
    pub hidden : cookie.http_only ≡ true
    pub body : reply.body.payload ≡ tokens (record response { refresh_token = "" })

  tokens_replied-Hands :
      (s : Surroundings) (response : AuthResponse)
      → Hands response (tokens_replied hash signer config s response)
  unfolding tokens_replied new_refresh_token_cookie to_success_response
  tokens_replied-Hands s response = record {
    cookie =
        new_refresh_token_cookie s.production s.now s.transport response.refresh_token
          config.refresh_expiration;
    set = refl;
    name = refl;
    value = refl;
    hidden = refl;
    body = refl;
  }

  login_replied-success :
      (s : Surroundings) (r : Result AuthResponse)
      → (login_replied hash signer config s r).status ≡ 200
      → (response : AuthResponse) × (r ≡ ok response)
        × Hands response (login_replied hash signer config s r)
  unfolding login_replied
  login_replied-success s (ok response) success = (response, refl, tokens_replied-Hands s response)
  login_replied-success s (err e) success = absurd (ground arith)

  module _ (library : Library) where
    pub record SignedIn (c : LoginCalls) (req : Credentials) (t : Tables) (reply : HttpReply)
        : Type 0 where
      pub bound : req.can_bind ≡ true
      pub valid : req.is_valid ≡ true
      pub response : AuthResponse
      pub hands : Hands response reply
      pub logged_in :
          LoggedIn hash signer config library c
            (find_by_email c.find.outcome req.email c.find.replica)
            req.password
            response
            t

    -- Where the server has answered the revocation of the user's sessions, a login with status 200
    -- was a valid request with the right password of a user; the access token and the refresh token
    -- are signed for that user's claims, the refresh token in a cookie that no script can read, and
    -- not in the body; and its session is accepted until it expires and is the only live one.
    pub login-SignedIn :
        (s : Surroundings) (c : LoginCalls) (req : Credentials) (t : Tables)
        → c.session.insert.by_user.outcome ≡ done
        → let a = login hash signer config library s c req t in
          a.1.status ≡ 200 → SignedIn c req a.0 a.1
    unfolding login
    login-SignedIn s c req t answered success = elim (Bool-cases req.can_bind) [
      | inr unbound ↦ absurd (omega (arith, rw unbound at success))
      | inl bound ↦ elim (Bool-cases req.is_valid) [
        | inr invalid ↦ absurd (omega (arith, rw (bound, invalid) at success))
        | inl valid ↦
            let m = manager_login hash signer config library c req.email req.password t in
            let (response, made, hands) =
              login_replied-success s m.1 (rw (bound, valid) at success) in
            rw (bound, valid)
              (record {
                bound = refl;
                valid = refl;
                response = response;
                hands = hands;
                logged_in =
                    login-LoggedIn hash signer config library c req.email req.password t response
                      answered made;
              })
      ]
    ]
