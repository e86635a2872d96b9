-- ===== src/Api/Principal.antt =====
-- What the API says of the owner of an access token.
use Prim.Native.String.{◌++◌ as append}
use Prim.Native.Char.{Char, code}
use text.Mathlib.TextLemmas.{nil-append, cons-append, cons-ne-nil}
use service_platform.Prelude.{
  arith, Bool-cases, inl, inr, eq_iff, ℕ, ◌+◌, ◌≤◌, ◌<◌, String, ◌≡◌, refl, sym, ap, ◌∙◌, true,
  false, none, some, str_eq,
}
use mathlib.Core.Path.{subst}
use service_platform.Prelude.Outcome.{Result, ok, err, Result-cases}
use service_platform.Prelude.Strings.{
  trim_space, remove_first, trim_left, trim_right, cut_prefix, is_space, put_unless_blank,
}
use service_platform.Entity.{User}
use service_platform.Jwt.{
  Signer, JwtConfig, Claims, AccessToken, user_claims, validate_token, generate_access_token,
}
use service_platform.Api.Response.{MeResponse, principal}
use service_platform.Api.AuthController.{replied_success, get_claims, me_named, me_replied, me}

-- A signed text reads as the claims that it was made of, between the times that they name.
pub record Verifies (signer : Signer) (claims : Claims) : Type 0 where
  pub reads_back :
      (key token : String) (now : ℕ)
      → signer.sign key claims ≡ ok token
      → claims.registered.not_before ≤ now
      → now < claims.registered.expires_at
      → signer.parse key now token ≡ ok (claims, true)

cut_prefix-append : (p s : String) → cut_prefix p (append p s) ≡ some s
unfolding cut_prefix
cut_prefix-append String.[] s = rw (nil-append s) refl
cut_prefix-append (String.◌∷◌ c p) s = rw (cons-append c p s, cut_prefix-append p s) (ground arith)

remove_first-append :
    (c : Char) (p s : String) → remove_first (String.◌∷◌ c p) (append (String.◌∷◌ c p) s) ≡ s
unfolding remove_first
remove_first-append c p s = rw (cons-append c p s) (ground (arith, cut_prefix-append p s))

not_nil : (c : Char) (s : String) → str_eq (String.◌∷◌ c s) "" ≡ false
not_nil c s = elim (Bool-cases (str_eq (String.◌∷◌ c s) "")) [
  | inl same ↦ absurd (cons-ne-nil c s ((eq_iff (String.◌∷◌ c s) "").0 same))
  | inr other ↦ other
]

-- A text that begins with a character that is no blank is not blank.
trim_left-solid :
    (c : Char) (r : String)
    → is_space (code c) ≡ false
    → str_eq (trim_left (put_unless_blank c r)) "" ≡ false
unfolding trim_left
trim_left-solid c String.[] solid = rw (solid, solid) (not_nil c "")
trim_left-solid c (String.◌∷◌ d r) solid = rw solid (not_nil c (String.◌∷◌ d r))

trim_space-solid :
    (c : Char) (s : String)
    → is_space (code c) ≡ false
    → str_eq (trim_space (String.◌∷◌ c s)) "" ≡ false
unfolding trim_space trim_right
trim_space-solid c s solid = trim_left-solid c (trim_right s) solid

same_token :
    (t : String) (expires : ℕ) (a : AccessToken)
    → ◌≡◌ {A = Result AccessToken} (ok (record { token = t; expired_at = expires })) (ok a)
    → ◌≡◌ {A = Result String} (ok t) (ok a.token)
same_token t expires a same = cc (token_of_ok same)
  where
    token_of : Result AccessToken → String
    token_of (ok b) = b.token
    token_of (err e) = t

    token_of_ok :
        ◌≡◌ {A = Result AccessToken} (ok (record { token = t; expired_at = expires })) (ok a)
        → t ≡ a.token
    token_of_ok e = ap token_of e

module _ (signer : Signer) (config : JwtConfig) where
  get_claims-bearer :
      (now : ℕ) (token : String)
      → get_claims signer config now (append "Bearer " token)
        ≡ validate_token signer config now token
  unfolding get_claims is_space
  get_claims-bearer now token =
      let header : String = append "Bearer " token in
      let solid : str_eq (trim_space header) "" ≡ false =
        subst (λ h. str_eq (trim_space h) "" ≡ false) (sym (cons-append "B" "earer " token))
          (trim_space-solid "B" (append "earer " token) refl) in
      rw (solid, remove_first-append "B" "earer " token) refl

  -- What `Me` says of a user.
  abbrev pub principal_of : User → MeResponse
  principal_of u = record {
    id = u.id;
    username = u.username;
    email = u.email;
    phone_number = u.phone_number;
    role = u.role;
    email_verified = u.email_verified;
    phone_verified = u.phone_verified;
    last_login_at = u.last_login_at;
  }

  me_replied-user_claims :
      (issued : ℕ) (u : User)
      → me_replied signer config
          (ok (user_claims signer config issued config.access_expiration none u))
        ≡ replied_success (principal (principal_of u)) none
  unfolding me_replied me_named user_claims
  me_replied-user_claims issued u = refl

  access_signed-ok :
      (issued : ℕ) (u : User) (a : AccessToken)
      → generate_access_token signer config issued u ≡ ok a
      → signer.sign config.secret_key
          (user_claims signer config issued config.access_expiration none u)
        ≡ ok a.token
  unfolding generate_access_token
  access_signed-ok issued u a made =
      elim (Result-cases (
        signer.sign config.secret_key
          (user_claims signer config issued config.access_expiration none u))) [
            | inl (e, broken) ↦ absurd (cc (rw broken at made))
            | inr (t, signed) ↦ signed ∙ same_token t _ a (rw signed at made)
          ]

  -- The owner of an access token, who presents it under "Bearer" while it is valid, is told the
  -- columns of the user for whom it was generated.
  pub me-generate_access_token :
      (issued now : ℕ) (u : User) (a : AccessToken)
      → Verifies signer (user_claims signer config issued config.access_expiration none u)
      → generate_access_token signer config issued u ≡ ok a
      → signer.numeric_date issued ≤ now
      → now < signer.numeric_date (issued + config.access_expiration)
      → me signer config now (append "Bearer " a.token)
        ≡ replied_success (principal (principal_of u)) none
  unfolding me validate_token user_claims
  me-generate_access_token issued now u a verifies made started early =
      let read =
        verifies.reads_back config.secret_key a.token now (access_signed-ok issued u a made) started
          early in
      rw (get_claims-bearer now a.token, read) (me_replied-user_claims issued u)
