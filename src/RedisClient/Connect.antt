-- ===== src/RedisClient/Connect.antt =====
-- `NewRedisClusterClient` of app/pkg/redis/redis.go and `NewUniversalRedisClient` of
-- app/pkg/redis/universal.go: which client is used. How each client answers to a ping is an argument.
use service_platform.Prelude.{
  String, ◌≡◌, refl, Bool, true, false, Option, none, some, List, [], ◌∷◌, map,
}
use mathlib.Core.Path.{subst}
use service_platform.Prelude.Outcome.{Err, wrap, Result, ok, err}
use service_platform.Prelude.Strings.{split_on, trim_space}

-- `single` is a `redis.Client`, and so is `failover`, behind sentinels.
pub data Kind : Type 0 where
  single cluster failover : Kind

pub record UniversalClient : Type 0 where
  pub client : Kind
  pub is_cluster : Bool

unfoldable pub get_client_type : Kind → String
get_client_type single = "single-node"
get_client_type cluster = "cluster"
get_client_type failover = "single-node"

-- Hosts are separated by commas.
unfoldable pub host_list : String → List String
host_list hosts = map trim_space (split_on 44 hosts)

-- One host is a single node.
unfoldable pub first_kind : List String → Kind
first_kind (host ∷ []) = single
first_kind hosts = cluster

unfoldable pub pinged_failover : Option Err → Result UniversalClient
pinged_failover none = ok (record { client = failover; is_cluster = false })
pinged_failover (some e) = err (wrap "failed to ping redis with cluster or failover: " e)

abbrev pub is_cluster_client : Kind → Bool
is_cluster_client single = false
is_cluster_client cluster = true
is_cluster_client failover = false

ok-injective : {A : Type 0} {a b : A} → ◌≡◌ {A = Result A} (ok a) (ok b) → a ≡ b
ok-injective h = cc h

module _ (ping : Kind → List String → Option Err) where
  unfoldable pub pinged : Kind → List String → Option Err → Result UniversalClient
  unfolding pinged_failover
  pinged single hosts none = ok (record { client = single; is_cluster = false })
  pinged single hosts (some e) = err (wrap "failed to ping redis: " e)
  pinged cluster hosts none = ok (record { client = cluster; is_cluster = true })
  pinged cluster hosts (some e) = pinged_failover (ping failover hosts)
  pinged failover hosts o = pinged_failover o

  unfoldable pub new_universal_redis_client : String → Result UniversalClient
  unfolding host_list first_kind pinged
  new_universal_redis_client hosts =
      let kind = first_kind (host_list hosts) in
      pinged kind (host_list hosts) (ping kind (host_list hosts))

  -- The hosts are not trimmed here.
  unfoldable pub new_redis_cluster_client : String → Result Kind
  new_redis_cluster_client hosts = elim (ping cluster (split_on 44 hosts)) [
    | none ↦ ok cluster
    | some e ↦ err (wrap "failed to ping redis: " e)
  ]

  -- The client has answered, and it is taken for a cluster just if it is one.
  pub record Connected (hosts : List String) (c : UniversalClient) : Type 0 where
    pub answered : ping c.client hosts ≡ none
    pub told : c.is_cluster ≡ is_cluster_client c.client

  pinged_failover-Connected :
      (hosts : List String) (o : Option Err) (c : UniversalClient)
      → ping failover hosts ≡ o
      → pinged_failover o ≡ ok c
      → Connected hosts c
  unfolding pinged_failover
  pinged_failover-Connected hosts none c answered h =
      let same : record { client = failover; is_cluster = false } ≡ c = ok-injective h in
      subst (Connected hosts) same (record { answered = answered; told = refl })
  pinged_failover-Connected hosts (some e) c answered h = absurd (cc (h))

  pinged-Connected :
      (kind : Kind) (hosts : List String) (o : Option Err) (c : UniversalClient)
      → ping kind hosts ≡ o
      → pinged kind hosts o ≡ ok c
      → Connected hosts c
  unfolding pinged
  pinged-Connected single hosts none c answered h =
      subst (Connected hosts) (ok-injective h) (record { answered = answered; told = refl })
  pinged-Connected single hosts (some e) c answered h = absurd (cc (h))
  pinged-Connected cluster hosts none c answered h =
      subst (Connected hosts) (ok-injective h) (record { answered = answered; told = refl })
  pinged-Connected cluster hosts (some e) c answered h =
      pinged_failover-Connected hosts (ping failover hosts) c refl h
  pinged-Connected failover hosts o c answered h = pinged_failover-Connected hosts o c answered h

  -- A client that is handed out has answered a ping, and its calls over all masters are used just
  -- if it is the client of a cluster.
  pub new_universal_redis_client-Connected :
      (hosts : String) (c : UniversalClient)
      → new_universal_redis_client hosts ≡ ok c
      → Connected (host_list hosts) c
  unfolding new_universal_redis_client
  new_universal_redis_client-Connected hosts c h =
      pinged-Connected (first_kind (host_list hosts)) (host_list hosts) _ c refl h
