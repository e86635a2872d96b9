-- ===== src/RedisClient.antt =====
-- app/pkg/redis: the clients of the Redis server. The commands of go-redis, and how the server
-- answers them, are an argument.
pub mod Cluster
pub mod Universal
pub mod Connect
pub mod Wrap
pub mod Lock
use service_platform.Prelude.{ℕ, String, Bool, Option, List}
use service_platform.Prelude.Outcome.{Err, Result, ℤ}

-- The commands on a server with states `S`. `Argument` is what go-redis takes as a value.
pub record Commands (S : Type 0) : Type 1 where
  pub Argument : Type 0
  pub of_bytes : String → Argument
  pub of_bool : Bool → Argument
  pub incr_by : String → ℤ → S → S × Option Err
  pub decr_by : String → ℤ → S → S × Option Err
  pub expire : String → ℕ → S → S × Option Err
  pub set : String → Argument → ℕ → S → S × Option Err
  pub set_nx : String → Argument → ℕ → S → S × Result Bool
  pub get : String → S → Result String
  pub del : String → S → S × Option Err
  pub exists : String → S → Result ℕ
  pub scan : ℕ → String → ℤ → S → Result (List String × ℕ)
  pub s_add : String → List Argument → S → S × Option Err
  pub s_rem : String → List Argument → S → S × Option Err
  pub s_members : String → S → Result (List String)
  pub s_card : String → S → Result ℤ
  pub h_set : String → List (String × Argument) → S → S × Option Err
  pub h_del : String → String → S → S × Option Err
  pub h_vals : String → S → Result (List String)
  pub h_get : String → String → S → Result String
  pub h_get_all : String → S → Result (List (String × String))
  pub h_exists : String → String → S → Result Bool
  pub h_len : String → S → Result ℤ
  pub flush_db : S → S × Option Err
  -- KEYS on the node of a client that is no cluster, and on each master of one that is.
  pub keys : String → S → Result (List String)
  -- What each master answers, in the order in which they have answered; and what is left in a slice
  -- to which a function for each master appends, when they all run at the same time.
  pub master_keys : String → S → List (Result (List String))
  pub appended : List (List String) → List String
  -- The commands that a transaction collects, and their execution.
  pub Pipeline : Type 0
  pub exec : Pipeline → S → S × Result (List String)

-- The interface `Redis` of both clients.
pub record Redis (S Argument Pipeline : Type 0) : Type 1 where
  pub increment : String → ℤ → S → S × Option Err
  pub decrement : String → ℤ → S → S × Option Err
  pub set_expire : String → ℕ → S → S × Option Err
  pub set_primitive : String → Argument → ℕ → S → S × Option Err
  pub get_primitive : {A : Type 0} → (String → Result A) → String → S → Result A
  pub set : Result String → String → ℕ → S → S × Option Err
  pub get : {A : Type 0} → (String → Result A) → String → S → Result A
  pub scan : ℕ → String → ℤ → S → Result (List String × ℕ)
  pub s_add : String → List Argument → S → S × Option Err
  pub s_rem : String → List Argument → S → S × Option Err
  pub s_members : String → S → Result (List String)
  pub s_card : String → S → Result ℤ
  pub acquire_lock : String → ℕ → S → S × Result Bool
  pub release_lock : String → S → S × Option Err
  pub delete : String → S → S × Option Err
  pub exists : String → S → Bool × Option Err
  pub h_set : String → List (String × Argument) → S → S × Option Err
  pub h_del : String → String → S → S × Option Err
  pub expire : String → ℕ → S → S × Option Err
  pub h_vals : String → S → Result (List String)
  pub h_get : String → String → S → Result String
  pub h_get_all : String → S → Result (List (String × String))
  pub h_exists : String → String → S → Result Bool
  pub h_len : String → S → Result ℤ
  pub reset : S → S × Option Err
  pub tx_pipeline : Result Pipeline → S → S × Result (List String)
  pub get_all_keys_with_pattern : String → S → Result (List String)
