-- ===== src/Entity.antt =====
-- The entities of app/database/entity: the rows of the tables, and the values of a job's payload.
use service_platform.Prelude.Outcome.{ℤ}
use service_platform.Prelude.{ℕ, String, Bool, Option}
use service_platform.Constant.{Status}

-- A JSON value, as `encoding/json` decodes it; a number is kept as its text.
mutual
  pub data Json : Type 0 where
    null : Json
    bool : Bool → Json
    number : String → Json
    string : String → Json
    array : Items → Json
    object : Fields → Json

  pub data Items : Type 0 where
    nil : Items
    item : Json → Items → Items

  pub data Fields : Type 0 where
    end : Fields
    field : String → Json → Fields → Fields

-- A Go map that may be `nil` is an `Option`.
abbrev pub JobPayload : Type 0
JobPayload = Option Fields

-- Identifiers are the texts of their UUIDs, times are nanoseconds.
pub record Job : Type 0 where
  pub id : String
  pub type : String
  pub priority : ℤ
  pub payload : JobPayload
  pub attempts : ℕ
  pub max_attempts : ℕ
  pub created_at : ℕ
  pub updated_at : Option ℕ
  pub deleted_at : Option ℕ
  pub scheduled_at : Option ℕ
  pub started_at : Option ℕ
  pub completed_at : Option ℕ
  pub status : Status
  pub error : String

pub record Session : Type 0 where
  pub id : String
  pub user_id : String
  pub token : String
  pub user_agent : Option String
  pub ip_address : Option String
  pub revoked : Bool
  pub expires_at : Option ℕ
  pub created_at : ℕ
  pub updated_at : Option ℕ
  pub deleted_at : Option ℕ

pub record User : Type 0 where
  pub id : String
  pub username : String
  pub email : Option String
  pub phone_number : Option String
  pub password : String
  pub status : String
  pub role : String
  pub email_verified : Bool
  pub phone_verified : Bool
  pub last_login_at : Option ℕ
  pub created_at : ℕ
  pub updated_at : Option ℕ
  pub deleted_at : Option ℕ
  pub deactivated_at : Option ℕ
