-- ===== src/RedisClient/Universal.antt =====
-- app/pkg/redis/universal.go: the client of a single node, a cluster, or a server behind sentinels.
use Prim.Native.String.{◌++◌ as append}
use service_platform.Prelude.{ℕ, String, Bool, true, false, Option, none, some, List, [], leb}
use service_platform.Prelude.Outcome.{Err, wrap, Result, ok, err, ℤ}
use service_platform.RedisClient.{Commands, Redis}
use service_platform.RedisClient.Cluster.{skip_not_found, collect_keys}

module _ {S : Type 0} (server : Commands S) where
  unfoldable pub increment : String → ℤ → S → S × Option Err
  increment key val s = server.incr_by key val s

  unfoldable pub decrement : String → ℤ → S → S × Option Err
  decrement key val s = server.decr_by key val s

  unfoldable pub set_expire : String → ℕ → S → S × Option Err
  set_expire key dur s = server.expire key dur s

  unfoldable pub set_primitive : String → server.Argument → ℕ → S → S × Option Err
  set_primitive key value ttl s = server.set key value ttl s

  -- Into a value that a scan of go-redis fills.
  unfoldable pub get_primitive : {A : Type 0} → (String → Result A) → String → S → Result A
  get_primitive scan key s = elim (server.get key s) [ err e ↦ err e | ok b ↦ scan b ]

  -- The first argument is what `json.Marshal` makes of the value.
  unfoldable pub set : Result String → String → ℕ → S → S × Option Err
  set (ok b) key ttl s = server.set key (server.of_bytes b) ttl s
  set (err e) key ttl s = (s, some e)

  unfoldable pub get : {A : Type 0} → (String → Result A) → String → S → Result A
  get unmarshal key s = elim (server.get key s) [ err e ↦ err e | ok b ↦ unmarshal b ]

  unfoldable pub scan : ℕ → String → ℤ → S → Result (List String × ℕ)
  scan cursor match count s = elim (server.scan cursor match count s) [
    | err e ↦ err (wrap "failed to scan redis: " e)
    | ok found ↦ ok found
  ]

  unfoldable pub s_add : String → List server.Argument → S → S × Option Err
  s_add key members s = server.s_add key members s

  unfoldable pub s_rem : String → List server.Argument → S → S × Option Err
  s_rem key members s = server.s_rem key members s

  unfoldable pub s_members : String → S → Result (List String)
  s_members key s = elim (server.s_members key s) [
    | err e ↦ err (wrap "failed to get set members: " e)
    | ok members ↦ ok members
  ]

  unfoldable pub s_card : String → S → Result ℤ
  s_card key s = elim (server.s_card key s) [
    | err e ↦ err (wrap "failed to get set cardinality: " e)
    | ok n ↦ ok n
  ]

  unfoldable pub acquire_lock : String → ℕ → S → S × Result Bool
  acquire_lock key ttl s =
      let (s', answer) = server.set_nx key (server.of_bool true) ttl s in
      (s', elim answer [ err e ↦ err (wrap "failed to acquire lock: " e) | ok b ↦ ok b ])

  unfoldable pub delete : String → S → S × Option Err
  delete key s = server.del key s

  unfoldable pub release_lock : String → S → S × Option Err
  unfolding delete
  release_lock key s = delete key s

  -- With no error if the server only says that there is nothing.
  unfoldable pub exists : String → S → Bool × Option Err
  unfolding skip_not_found
  exists key s = elim (server.exists key s) [
    | err e ↦ (false, skip_not_found e)
    | ok n ↦ (leb 1 n, none)
  ]

  unfoldable pub h_set : String → List (String × server.Argument) → S → S × Option Err
  h_set key fields s = server.h_set key fields s

  unfoldable pub h_del : String → String → S → S × Option Err
  h_del key name s = server.h_del key name s

  unfoldable pub expire : String → ℕ → S → S × Option Err
  expire key ttl s = server.expire key ttl s

  unfoldable pub h_vals : String → S → Result (List String)
  h_vals key s = server.h_vals key s

  unfoldable pub h_get : String → String → S → Result String
  h_get key name s = server.h_get key name s

  unfoldable pub h_get_all : String → S → Result (List (String × String))
  h_get_all key s = server.h_get_all key s

  unfoldable pub h_exists : String → String → S → Result Bool
  h_exists key name s = server.h_exists key name s

  unfoldable pub h_len : String → S → Result ℤ
  h_len key s = server.h_len key s

  unfoldable pub reset : S → S × Option Err
  reset s = server.flush_db s

  pipeline_executed : S × Result (List String) → S × Result (List String)
  pipeline_executed (s, ok cmds) = (s, ok cmds)
  pipeline_executed (s, err e) = (s, err (wrap "failed to execute transaction commands: " e))

  -- The first argument is the pipeline that the callback has filled, or its error.
  unfoldable pub tx_pipeline : Result server.Pipeline → S → S × Result (List String)
  unfolding pipeline_executed
  tx_pipeline (err e) s = (s, err (wrap "failed to execute transaction: " e))
  tx_pipeline (ok pipe) s = pipeline_executed (server.exec pipe s)

  unfoldable pub get_all_keys_with_pattern : Bool → String → S → Result (List String)
  unfolding collect_keys
  get_all_keys_with_pattern true pattern s =
      collect_keys server [] (server.master_keys (append pattern "*") s)
  get_all_keys_with_pattern false pattern s = server.keys (append pattern "*") s

  -- `UniversalClient` as an implementation of the interface.
  abbrev pub universal_client : Bool → Redis S server.Argument server.Pipeline
  universal_client is_cluster = record {
    increment = increment;
    decrement = decrement;
    set_expire = set_expire;
    set_primitive = set_primitive;
    get_primitive = λ read. get_primitive read;
    set = set;
    get = λ read. get read;
    scan = scan;
    s_add = s_add;
    s_rem = s_rem;
    s_members = s_members;
    s_card = s_card;
    acquire_lock = acquire_lock;
    release_lock = release_lock;
    delete = delete;
    exists = exists;
    h_set = h_set;
    h_del = h_del;
    expire = expire;
    h_vals = h_vals;
    h_get = h_get;
    h_get_all = h_get_all;
    h_exists = h_exists;
    h_len = h_len;
    reset = reset;
    tx_pipeline = tx_pipeline;
    get_all_keys_with_pattern = get_all_keys_with_pattern is_cluster;
  }
