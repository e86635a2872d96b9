-- ===== src/Middleware/Sees.antt =====
-- What the next handler sees in the context.
use service_platform.Prelude.{
  String, ◌≡◌, refl, ◌∙◌, false, Option, none, some, lookup, lookup-insert, str_eq,
}
use service_platform.Prelude.Outcome.{ok}
use service_platform.Middleware.{
  Value, string, flag, time, Context, AuthenticationResult, set_given, set_user_context,
  get_authentication_method,
}

lookup-set_given_other :
    {A : Type 0} (f : A → Value) (key other : String) (o : Option A) (c : Context)
    → str_eq key other ≡ false
    → lookup other (set_given f key o c) ≡ lookup other c
unfolding set_given
lookup-set_given_other f key other none c differs = refl
lookup-set_given_other f key other (some a) c differs =
    lookup-insert key other (f a) c ∙ (rw differs refl)

lookup-method :
    (id : String → Value) (r : AuthenticationResult) (c : Context)
    → lookup "auth_method" (set_user_context id r c) ≡ some (string r.method)
unfolding set_user_context
lookup-method id r c =
    lookup-set_given_other string "service_name" "auth_method" r.service_name _ refl
    ∙ lookup-insert "auth_method" "auth_method" (string r.method) _

-- The method that the next handler sees is the one of the result.
pub method-set_user_context :
    (id : String → Value) (r : AuthenticationResult) (c : Context)
    → get_authentication_method (set_user_context id r c) ≡ ok r.method
unfolding get_authentication_method
method-set_user_context id r c = rw (lookup-method id r c, get_authentication_method) refl

-- The role that the next handler sees is the one of the result, if it has one.
pub role-set_user_context :
    (id : String → Value) (r : AuthenticationResult) (role : String) (c : Context)
    → r.role ≡ some role
    → lookup "role" (set_user_context id r c) ≡ some (string role)
unfolding set_user_context set_given
role-set_user_context id r role c given =
    lookup-set_given_other string "service_name" "role" r.service_name _ refl
    ∙ lookup-insert "auth_method" "role" (string r.method) _
    ∙ lookup-set_given_other time "last_login_at" "role" r.last_login_at _ refl
    ∙ lookup-set_given_other flag "phone_verified" "role" r.phone_verified _ refl
    ∙ lookup-set_given_other flag "email_verified" "role" r.email_verified _ refl
    ∙ (rw given (lookup-insert "role" "role" (string role) _))
