-- ===== src/RedisClient/Lock.antt =====
-- `AcquireLock` and `ReleaseLock` of app/pkg/redis/redis.go, by several clients of one server.
use service_platform.Prelude.{
  ℕ, String, ◌≤◌, ◌≡◌, any, Bool, true, false, not, List, ◌∷◌, filter, length, ◌==◌,
}
use service_platform.Prelude.Outcome.{Result, ok, err}
use service_platform.RedisClient.{Commands}
use service_platform.RedisClient.Cluster.{acquire_lock, release_lock}

-- SETNX: a key that the server has is left alone, and one that it does not have is set.
pub record SetsOnce {S : Type 0} (server : Commands S) (has : String → S → Bool) : Type 0 where
  pub taken :
      (key : String) (v : server.Argument) (ttl : ℕ) (s : S)
      → has key s ≡ true
      → ((server.set_nx key v ttl s).0 ≡ s) × ((server.set_nx key v ttl s).1 ≡ ok false)
  pub set :
      (key : String) (v : server.Argument) (ttl : ℕ) (s : S)
      → (server.set_nx key v ttl s).1 ≡ ok true
      → has key (server.set_nx key v ttl s).0 ≡ true

-- The server, and the clients that have been told that they hold the lock.
pub record Shared (S : Type 0) : Type 0 where
  pub server : S
  pub holders : List ℕ

abbrev pub is_told : Result Bool → Bool
is_told (ok told) = told
is_told (err e) = false

module _ {S : Type 0} (server : Commands S) (key : String) where
  -- A client asks for the lock; a holder, and nobody else, gives it up. No lock expires.
  pub data Step (w : Shared S) : Shared S → Type 0 where
    told :
        (i ttl : ℕ)
        → (acquire_lock server key ttl w.server).1 ≡ ok true
        → Step w
            (record { server = (acquire_lock server key ttl w.server).0; holders = i ∷ w.holders })
    denied :
        (ttl : ℕ)
        → is_told (acquire_lock server key ttl w.server).1 ≡ false
        → Step w (record w { server = (acquire_lock server key ttl w.server).0 })
    released :
        (i : ℕ)
        → any (λ j. j == i) w.holders ≡ true
        → Step w (record {
          server = (release_lock server key w.server).0;
          holders = filter (λ j. not (j == i)) w.holders;
        })

  pub data Reach (s : Shared S) : Shared S → Type 0 where
    here : Reach s s
    next : {t u : Shared S} → Reach s t → Step t u → Reach s u

  module _ (has : String → S → Bool) (once : SetsOnce server has) where
    -- No holder, or one whose key the server has.
    pub record LockInv (w : Shared S) : Type 0 where
      pub few : length w.holders ≤ 1
      pub kept : (i : ℕ) (rest : List ℕ) → w.holders ≡ i ∷ rest → has key w.server ≡ true
