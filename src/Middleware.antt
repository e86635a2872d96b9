-- ===== src/Middleware.antt =====
-- app/api/middleware: what the three authentications share (authentication.go). A request is its
-- headers and the values of its context; a middleware lets it pass, with the context that the next
-- handler sees, or rejects it with a status and a message.
pub mod JwtAuthentication
pub mod ApiKeyAuthentication
pub mod HttpBasicAuthentication
pub mod Sees
pub mod Guards
use service_platform.Prelude.{
  ℕ, String, Bool, true, false, Option, none, some, [], Assoc, lookup, insert, str_eq,
}
use service_platform.Prelude.Outcome.{Err, text, Result, ok, err}

-- A value of echo's context.
pub data Value : Type 0 where
  uuid : String → Value
  string : String → Value
  flag : Bool → Value
  time : ℕ → Value

abbrev pub Context : Type 0
Context = Assoc Value

-- `Header.Get` gives the empty text for a header that is missing.
pub record Request : Type 0 where
  pub authorization : String
  pub api_key : String
  pub context : Context

pub data Reply : Type 0 where
  passes : Context → Reply
  rejected : ℕ → String → Reply

pub record AuthenticationResult : Type 0 where
  pub user_id : Option String
  pub username : Option String
  pub email : Option String
  pub phone_number : Option String
  pub role : Option String
  pub email_verified : Option Bool
  pub phone_verified : Option Bool
  pub last_login_at : Option ℕ
  pub method : String
  pub service_name : Option String

abbrev pub method_jwt : String
method_jwt = "jwt"

abbrev pub method_api_key : String
method_api_key = "api_key"

abbrev pub method_basic : String
method_basic = "basic_auth"

-- `if p != nil { c.Set(key, *p) }`
unfoldable pub set_given : {A : Type 0} → (A → Value) → String → Option A → Context → Context
set_given f key none c = c
set_given f key (some a) c = insert key (f a) c

-- `SetUserContext`; `id` is how a handler keeps the identifier under "user_id".
unfoldable pub set_user_context : (String → Value) → AuthenticationResult → Context → Context
unfolding set_given
set_user_context id r c =
    let c1 = set_given uuid "user_uuid" r.user_id (set_given id "user_id" r.user_id c) in
    let c2 = set_given string "email" r.email (set_given string "username" r.username c1) in
    let c3 = set_given string "role" r.role (set_given string "phone_number" r.phone_number c2) in
    let c4 =
      set_given flag "phone_verified" r.phone_verified
        (set_given flag "email_verified" r.email_verified c3) in
    let c5 = set_given time "last_login_at" r.last_login_at c4 in
    set_given string "service_name" r.service_name (insert "auth_method" (string r.method) c5)

-- `GetAuthenticationMethod`
unfoldable pub get_authentication_method : Context → Result String
get_authentication_method c = elim (lookup "auth_method" c) [
  | none ↦ err (text "authentication method not found in context")
  | some (string m) ↦ ok m
  | _ ↦ err (text "invalid authentication method type in context")
]

unfoldable pub has_required_role : String → String → Bool
has_required_role user_role required_role = str_eq user_role required_role
