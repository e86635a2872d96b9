-- ===== src/Api/Exception.antt =====
-- app/api/client/exception: HTTP errors from other errors. An `echo.HTTPError` is shared by all who
-- hold its pointer, so the errors stand in a store, by their addresses; each holds a model of its
-- own. What `echo.NewHTTPError` makes, `http.StatusText`, and `%v` of the
-- values that a context is made of, are arguments.
use Prim.Native.String.{◌++◌ as append}
use service_platform.Prelude.{
  ℕ, ◌+◌, ◌≡◌, refl, zero, suc, String, true, Option, none, some, List, [], ◌∷◌, str_eq, ◌==◌,
  if◌then◌else◌, arith,
}
use service_platform.Prelude.Outcome.{Err, sentinel, wrap}
use service_platform.Validator.{join}

-- `D` is what a reply carries. The fields that are not set here are never set.
pub record ErrorModel (D : Type 0) : Type 0 where
  pub code : ℕ
  pub message : String
  pub payload : Option D

-- What echo has in `Message`: nothing, a text, a model, or a value of another type.
pub data Message (D : Type 0) : Type 0 where
  absent : Message D
  plain : String → Message D
  model : ErrorModel D → Message D
  other : Message D

pub record HttpError (D : Type 0) : Type 0 where
  pub code : ℕ
  pub message : Message D
  pub internal : Option Err

pub record Store (D : Type 0) : Type 0 where
  pub next : ℕ
  pub at : ℕ → HttpError D

-- An error as `errors.As` sees it: with an HTTP error in its chain, or with none.
pub data Cause : Type 0 where
  http : ℕ → Cause
  no_http : Err → Cause

module _ {D : Type 0} where
  abbrev pub empty_model : ErrorModel D
  empty_model = record { code = 0; message = ""; payload = none }

  unfoldable pub write : ℕ → HttpError D → Store D → Store D
  write a e s = record s { at = λ b. if b == a then e else s.at b }

  -- `&ErrorModel{...}` for what is in `Message`.
  abbrev model_of : Message D → ErrorModel D
  model_of absent = empty_model
  model_of (plain s) = record empty_model { message = s }
  model_of (model m) = m
  model_of other = empty_model

  abbrev with_data : Option D → ErrorModel D → ErrorModel D
  with_data none m = m
  with_data (some d) m = record m { payload = some d }

  module _ (new_http_error : ℕ → HttpError D) (status_text : ℕ → String) where
    -- `echo.NewHTTPError(http.StatusInternalServerError)`, with what it is made from, if anything.
    abbrev internal_error : Option Err → HttpError D
    internal_error none = new_http_error 500
    internal_error (some e) = record (new_http_error 500) { internal = some e }

    abbrev allocated : HttpError D → Store D → Store D × ℕ
    allocated e s = (record (write s.next e s) { next = s.next + 1 }, s.next)

    unfoldable pub found_or_made : Option Cause → Store D → Store D × ℕ
    unfolding write
    found_or_made none s = allocated (internal_error none) s
    found_or_made (some (http a)) s = (s, a)
    found_or_made (some (no_http e)) s = allocated (internal_error (some e)) s

    abbrev worded : String → ℕ → ErrorModel D → ErrorModel D
    worded message code m = record m {
      message = if str_eq message "" then status_text code else message;
    }

    abbrev rewritten : String → Option D → HttpError D → HttpError D
    rewritten message payload e = record e {
      message = model (worded message e.code (with_data payload (model_of e.message)));
    }

    unfoldable pub wrap_error : Option Cause → String → Option D → Store D → Store D × ℕ
    unfolding found_or_made write
    wrap_error cause message payload s =
        let (t, a) = found_or_made cause s in (write a (rewritten message payload (t.at a)) t, a)

    abbrev coded : ℕ → ℕ → String → HttpError D → HttpError D
    coded http_code app_code message e = record e {
      code = http_code;
      message = model (record (model_of e.message) {
        code = app_code;
        message = if str_eq message "" then (model_of e.message).message else message;
      });
    }

    unfoldable pub new_error : Option Cause → ℕ → ℕ → String → Option D → Store D → Store D × ℕ
    unfolding wrap_error write
    new_error cause http_code app_code message payload s =
        let (t, a) = wrap_error cause message payload s in
        (write a (coded http_code app_code message (t.at a)) t, a)

    unfoldable pub new_internal_server_error :
        Option Cause → ℕ → String → Option D → Store D → Store D × ℕ
    unfolding new_error
    new_internal_server_error cause = new_error cause 500

    unfoldable pub new_bad_request_error :
        Option Cause → ℕ → String → Option D → Store D → Store D × ℕ
    unfolding new_error
    new_bad_request_error cause = new_error cause 400

    unfoldable pub new_unauthorized_error :
        Option Cause → ℕ → String → Option D → Store D → Store D × ℕ
    unfolding new_error
    new_unauthorized_error cause = new_error cause 401

    unfoldable pub new_forbidden_error :
        Option Cause → ℕ → String → Option D → Store D → Store D × ℕ
    unfolding new_error
    new_forbidden_error cause = new_error cause 403

    unfoldable pub new_not_found_error :
        Option Cause → ℕ → String → Option D → Store D → Store D × ℕ
    unfolding new_error
    new_not_found_error cause = new_error cause 404

    unfoldable pub new_conflict_error : Option Cause → ℕ → String → Option D → Store D → Store D × ℕ
    unfolding new_error
    new_conflict_error cause = new_error cause 409

    unfoldable pub new_too_many_requests_error :
        Option Cause → ℕ → String → Option D → Store D → Store D × ℕ
    unfolding new_error
    new_too_many_requests_error cause = new_error cause 429

    unfoldable pub new_unavailable_for_legal_reasons_error :
        Option Cause → ℕ → String → Option D → Store D → Store D × ℕ
    unfolding new_error
    new_unavailable_for_legal_reasons_error cause = new_error cause 451

    unfoldable pub new_accepted_but_not_processed_error :
        Option Cause → ℕ → String → Option D → Store D → Store D × ℕ
    unfolding new_error
    new_accepted_but_not_processed_error cause = new_error cause 202

    unfoldable pub new_feature_is_unavailable_error : Store D → Store D × ℕ
    unfolding new_error
    new_feature_is_unavailable_error = new_error none 404 14 "feature is unavailable" none

    self : (a : ℕ) → (a == a) ≡ true
    self a = ground arith

    -- An HTTP error that is handed in is handed out, and is another one for all who hold it.
    new_error-shared :
        (a http_code app_code : ℕ) (message : String) (payload : Option D) (s : Store D)
        → ((new_error (some (http a)) http_code app_code message payload s).1 ≡ a)
          × (((new_error (some (http a)) http_code app_code message payload s).0.at a).code
              ≡ http_code)
    unfolding new_error
    new_error-shared a http_code app_code message payload s = (refl, rw (self a) refl)

-- The pairs of a context; the last key of an odd number has no value.
unfoldable pub pairs_of : {V : Type 0} → (V → String) → List V → List String
pairs_of show [] = []
pairs_of show (k ∷ []) = append (show k) " = missing ctx" ∷ []
pairs_of show (k ∷ v ∷ rest) = append (show k) (append " = " (show v)) ∷ pairs_of show rest

unfoldable pub format_key_value_pairs : {V : Type 0} → (V → String) → List V → String
unfolding pairs_of join
format_key_value_pairs show context = join " , " (pairs_of show context)

unfoldable pub error_with_context : {V : Type 0} → (V → String) → Err → List V → Err
unfolding format_key_value_pairs
error_with_context show e context =
    let ctx = format_key_value_pairs show context in
    if str_eq ctx "" then wrap "" e else wrap (append ctx ": ") e

-- The errors of the codes 1 to 13.
abbrev declared : List String
declared =
    "entity not found" ∷ "failed to bind data" ∷ "validation failed" ∷ "invalid OTP code"
    ∷ "request is unauthorized" ∷ "rate limit exceeded" ∷ "client error" ∷ "invalid parameter"
    ∷ "missing user context" ∷ "invalid onboarding status" ∷ "token expired" ∷ "invalid token"
    ∷ "internal server error" ∷ []

abbrev nth_error : ℕ → List String → Option Err
nth_error n [] = none
nth_error zero (s ∷ ss) = some (sentinel s)
nth_error (suc n) (s ∷ ss) = nth_error n ss

unfoldable pub get_error_by_code : ℕ → Option Err
get_error_by_code zero = none
get_error_by_code (suc n) = nth_error n declared
