-- ===== src/Api/Response.antt =====
-- app/api/client/response/general.go and app/api/client/response/auth.go: the bodies of the replies,
-- and what a handler gives to echo.
use service_platform.Prelude.{ℕ, ◌+◌, ◌-◌, ◌/◌, String, Bool, Option, List, ltb, if◌then◌else◌}
use service_platform.AuthManager.{AuthResponse}

pub record MeResponse : Type 0 where
  pub id : String
  pub username : String
  pub email : Option String
  pub phone_number : Option String
  pub role : String
  pub email_verified : Bool
  pub phone_verified : Bool
  pub last_login_at : Option ℕ

-- The types that a handler puts into `Data`.
pub data Payload : Type 0 where
  no_data : Payload
  note : String → Payload
  tokens : AuthResponse → Payload
  principal : MeResponse → Payload

-- `payload` is the field `Data`, `items` that of a page. The fields `Paging` and `ErrorDetails` are never set.
pub record GeneralResponse : Type 0 where
  pub code : ℕ
  pub message : String
  pub payload : Payload

unfoldable pub to_success_response : Payload → GeneralResponse
to_success_response payload = record { code = 0; message = "success"; payload = payload }

unfoldable pub to_error_response : ℕ → String → GeneralResponse
to_error_response code message = record { code = code; message = message; payload = no_data }

pub record Page : Type 0 where
  pub total : ℕ
  pub page : ℕ
  pub size : ℕ
  pub number_of_pages : ℕ

pub record PaginationResponse (A : Type 0) : Type 0 where
  pub code : ℕ
  pub message : String
  pub items : List A
  pub paging : Page

-- For a total and a size that are not negative and whose sum is less than 2 ^ 63.
unfoldable pub number_of_pages : ℕ → ℕ → ℕ
number_of_pages total size = if ltb 0 size then (total + size - 1) / size else 0

unfoldable pub to_pagination_response : {A : Type 0} → List A → ℕ → ℕ → ℕ → PaginationResponse A
unfolding number_of_pages
to_pagination_response items total page size = record {
  code = 0;
  message = "success";
  items = items;
  paging = record {
    total = total;
    page = page;
    size = size;
    number_of_pages = number_of_pages total size;
  };
}
