-- ===== src/Middleware/Guards.antt =====
-- What a request that passes has shown, and what the next handler sees.
use service_platform.Prelude.{
  ℕ, String, ◌≡◌, ◌≢◌, refl, sym, ap, ◌∙◌, some, lookup, str_eq, eq_iff, inl, inr, Bool-cases,
  if◌then◌else◌,
}
use service_platform.Prelude.Outcome.{Result, ok, Option-cases, Result-cases}
use service_platform.Prelude.Strings.{cut_prefix}
use service_platform.Jwt.{Signer, JwtConfig, Claims, validate_token}
use service_platform.Middleware.{
  uuid, string, Context, Request, passes, rejected, method_jwt, set_user_context,
  get_authentication_method, has_required_role,
}
use service_platform.Middleware.Sees.{method-set_user_context, role-set_user_context}
use service_platform.Middleware.JwtAuthentication as jwt
use service_platform.Middleware.HttpBasicAuthentication as basic

-- What a request with a token that passes has shown: its token is valid, and the next handler sees
-- the method, and the token's role if it has one.
pub record Authenticated (signer : Signer) (config : JwtConfig) (now : ℕ) (header : String)
    (before after : Context) : Type 0 where
  pub token : String
  pub extracted : jwt.extract_token header ≡ ok token
  pub claims : Claims
  pub valid : validate_token signer config now token ≡ ok claims
  pub context : after ≡ set_user_context string (jwt.claims_result claims) before
  pub method : get_authentication_method after ≡ ok method_jwt
  pub role : (role : String) → claims.role ≡ some role → lookup "role" after ≡ some (string role)

passes-injective : {a b : Context} → passes a ≡ passes b → a ≡ b
passes-injective h = cc h

-- A request passes the authentication by token only with a valid token, and the next handler sees
-- the method, and the role of the token if it has one.
pub require_auth-Authenticated :
    (signer : Signer) (config : JwtConfig) (now : ℕ) (r : Request) (after : Context)
    → jwt.require_auth signer config now r ≡ passes after
    → Authenticated signer config now r.authorization r.context after
unfolding jwt.require_auth jwt.authenticate
require_auth-Authenticated signer config now r after h =
    elim (Bool-cases (jwt.can_handle r.authorization)) [
      | inr other ↦ absurd (cc (rw other at h))
      | inl handled ↦ elim (Result-cases (jwt.extract_token r.authorization)) [
        | inl (e, none_given) ↦ absurd (cc (rw (handled, none_given) at h))
        | inr (t, extracted) ↦ elim (Result-cases (validate_token signer config now t)) [
          | inl (e, invalid) ↦ absurd (cc (rw (handled, extracted, invalid) at h))
          | inr (claims, valid) ↦
              let same : set_user_context string (jwt.claims_result claims) r.context ≡ after =
                passes-injective (rw (handled, extracted, valid) at h) in
              record {
                token = t;
                extracted = extracted;
                claims = claims;
                valid = valid;
                context = sym same;
                method =
                    rw (sym same)
                      (method-set_user_context string (jwt.claims_result claims) r.context);
                role = λ role given.
                    rw (sym same) (
                      role-set_user_context string (jwt.claims_result claims) role r.context given);
              }
        ]
      ]
    ]

-- What a request that passes the check of a role by token has shown.
pub record HoldsRole (signer : Signer) (config : JwtConfig) (now : ℕ) (required header : String)
    : Type 0 where
  pub token : String
  pub cut : cut_prefix "Bearer " header ≡ some token
  pub claims : Claims
  pub valid : validate_token signer config now token ≡ ok claims
  pub role : claims.role ≡ some required
  pub given : required ≢ ""

-- A request passes the check of a role by token only with a valid token of just that role, which
-- is not empty, and its context stays as it is.
pub require_role-HoldsRole :
    (signer : Signer) (config : JwtConfig) (now : ℕ) (required : String) (r : Request)
    (after : Context)
    → jwt.require_role signer config now required r ≡ passes after
    → HoldsRole signer config now required r.authorization × (after ≡ r.context)
unfolding jwt.require_role has_required_role
require_role-HoldsRole signer config now required r after h =
    elim (Option-cases (cut_prefix "Bearer " r.authorization)) [
      | inl missing ↦ absurd (cc (rw missing at h))
      | inr (t, cut) ↦ elim (Result-cases (validate_token signer config now t)) [
        | inl (e, invalid) ↦ absurd (cc (rw (cut, invalid) at h))
        | inr (claims, valid) ↦ elim (Option-cases claims.role) [
          | inl none_given ↦ absurd (cc (rw (cut, valid, none_given) at h))
          | inr (role, given) ↦ elim (Bool-cases (str_eq role "")) [
            | inl blank ↦ absurd (cc (rw (cut, valid, given, blank) at h))
            | inr full ↦ elim (Bool-cases (str_eq role required)) [
              | inr other ↦ absurd (cc (rw (cut, valid, given, full, other) at h))
              | inl equal ↦
                  let same : role ≡ required = (eq_iff role required).0 equal in
                  (
                    record {
                      token = t;
                      cut = cut;
                      claims = claims;
                      valid = valid;
                      role = given ∙ ap some same;
                      given = λ blank. absurd (cc (full, (eq_iff role "").1 (same ∙ blank)));
                    },
                    sym (passes-injective (rw (cut, valid, given, full, equal) at h)),
                  )
            ]
          ]
        ]
      ]
    ]

admin_checked :
    (id name required : String) (before after : Context) (r : Request)
    → set_user_context uuid (basic.basic_result id name) before ≡ after
    → basic.require_role required (record r { context = after }) ≡ (
        if str_eq "ADMIN" required
        then passes after
        else rejected 403 "Access denied: insufficient permissions")
unfolding basic.require_role has_required_role basic.basic_result
admin_checked id name required before after r same =
    let role =
      ap (lookup "role") (sym same)
      ∙ role-set_user_context uuid (basic.basic_result id name) "ADMIN" before refl in
    rw (role, basic.require_role) refl

-- A request that passes the authentication by name and password acts as an administrator: behind
-- it, the check of a role lets it pass just if that role is required, with the same context.
pub require_role-require_auth :
    (decode_string : String → Result String) (id required : String) (r : Request) (after : Context)
    → basic.require_auth decode_string id r ≡ passes after
    → basic.require_role required (record r { context = after }) ≡ (
        if str_eq "ADMIN" required
        then passes after
        else rejected 403 "Access denied: insufficient permissions")
unfolding basic.require_auth basic.authenticate
require_role-require_auth decode_string id required r after h =
    elim (Bool-cases (basic.can_handle r.authorization)) [
      | inr other ↦ absurd (cc (rw other at h))
      | inl handled ↦
          elim (Result-cases (basic.extract_credentials decode_string r.authorization)) [
            | inl (e, none_given) ↦ absurd (cc (rw (handled, none_given) at h))
            | inr ((name, password), given) ↦
                elim (Bool-cases
                  (basic.password_matches password (lookup name basic.valid_credentials))) [
                    | inr wrong ↦ absurd (cc (rw (handled, given, wrong) at h))
                    | inl right ↦
                        admin_checked id name required r.context after r
                          (passes-injective (rw (handled, given, right) at h))
                  ]
          ]
    ]
