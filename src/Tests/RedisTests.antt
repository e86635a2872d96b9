-- ===== src/Tests/RedisTests.antt =====
-- The Redis clients at concrete inputs: a server that keeps texts by key, and knows no other values.
use service_platform.Prelude.{
  String, ◌≡◌, refl, Bool, true, false, Option, none, some, List, [], ◌∷◌, map, Assoc, lookup,
  insert, remove, lookup-insert, eq_refl, if◌then◌else◌,
}
use service_platform.Prelude.Outcome.{Err, sentinel, text, Result, ok, err, pos}
use service_platform.RedisClient.{Commands}
use service_platform.RedisClient.Cluster.{cluster_client}
use service_platform.RedisClient.Wrap.{Json, Keeps, wrap, wrap_twice}
use service_platform.RedisClient.Lock.{Shared}
use service_platform.RedisClient.Connect.{Kind, single, cluster, failover}

abbrev missing : Err
missing = sentinel "redis: nil"

abbrev found_or : Option String → Result String
found_or none = err missing
found_or (some t) = ok t

abbrev is_there : Option String → Bool
is_there none = false
is_there (some t) = true

abbrev set_once : String → String → Assoc String → Option String → Assoc String × Result Bool
set_once key v s none = (insert key v s, ok true)
set_once key v s (some t) = (s, ok false)

abbrev store : Commands (Assoc String)
store = record {
  Argument = String;
  of_bytes = λ b. b;
  of_bool = λ b. if b then "1" else "0";
  incr_by = λ key n s. (s, none);
  decr_by = λ key n s. (s, none);
  expire = λ key t s. (s, none);
  set = λ key v t s. (insert key v s, none);
  set_nx = λ key v t s. set_once key v s (lookup key s);
  get = λ key s. found_or (lookup key s);
  del = λ key s. (remove key s, none);
  exists = λ key s. if is_there (lookup key s) then ok 1 else ok 0;
  scan = λ cursor match count s. ok (map (λ e. e.0) s, 0);
  s_add = λ key members s. (s, none);
  s_rem = λ key members s. (s, none);
  s_members = λ key s. err (text "WRONGTYPE");
  s_card = λ key s. ok (pos 0);
  h_set = λ key fields s. (s, none);
  h_del = λ key name s. (s, none);
  h_vals = λ key s. ok [];
  h_get = λ key name s. err missing;
  h_get_all = λ key s. ok [];
  h_exists = λ key name s. ok false;
  h_len = λ key s. ok (pos 0);
  flush_db = λ s. ([], none);
  keys = λ pattern s. ok (map (λ e. e.0) s);
  master_keys = λ pattern s. ok (map (λ e. e.0) s) ∷ [];
  appended = λ found. [];
  Pipeline = List String;
  exec = λ pipe s. (s, ok pipe);
}

store-Keeps : Keeps store
store-Keeps = record {
  get-set = λ key b ttl s stored. rw (lookup-insert key key b s, eq_refl key) refl;
}

abbrev texts : Json String
texts = record { marshal = λ t. ok t; unmarshal = λ t. ok t }

wrap_twice_example :
    let first = wrap (cluster_client store) texts "k" 60 (ok "made") [] in
    wrap (cluster_client store) texts "k" 60 (err missing) first.0 ≡ first
unfolding wrap service_platform.RedisClient.Cluster.get lookup
    service_platform.RedisClient.Cluster.set
wrap_twice_example =
    wrap_twice store store-Keeps texts "k" 60 60 (ok "made") (err missing) []
      (λ a b written. rw written refl) refl

abbrev has : String → Assoc String → Bool
has key s = is_there (lookup key s)

abbrev start : Shared (Assoc String)
start = record { server = []; holders = [] }

-- No cluster answers, and the server behind the sentinels does.
abbrev pings : Kind → List String → Option Err
pings single hosts = some (text "refused")
pings cluster hosts = some (text "not a cluster")
pings failover hosts = none
