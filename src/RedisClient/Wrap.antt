-- ===== src/RedisClient/Wrap.antt =====
-- `Wrap` of app/pkg/redis/redis.go: a value that is kept in Redis, and made anew if it is not there.
use service_platform.Prelude.{ℕ, String, ◌≡◌, refl, sym, ap, ◌∙◌, Option, none, some, inl, inr}
use service_platform.Prelude.Outcome.{Err, Result, ok, err, Result-cases}
use service_platform.RedisClient.{Commands, Redis}
use service_platform.RedisClient.Cluster
use service_platform.RedisClient.Cluster.{cluster_client}

-- What `json.Marshal` and `json.Unmarshal` make of the values of a type.
pub record Json (A : Type 0) : Type 0 where
  pub marshal : A → Result String
  pub unmarshal : String → Result A

module _ {S Argument Pipeline : Type 0} (r : Redis S Argument Pipeline) where
  -- What is in the caller's variable, if the call has set it, and the error.
  unfoldable pub wrap_made :
      {A : Type 0} → Json A → String → ℕ → Result A → S → S × Option A × Option Err
  wrap_made json key ttl (err e) s = (s, none, some e)
  wrap_made json key ttl (ok made) s =
      let (s', failed) = r.set (json.marshal made) key ttl s in (s', some made, failed)

  -- Any error of the reading is taken for a value that is missing. `callback` is the result that the
  -- callback would have.
  unfoldable pub wrap :
      {A : Type 0} → Json A → String → ℕ → Result A → S → S × Option A × Option Err
  unfolding wrap_made
  wrap json key ttl callback s = elim (r.get json.unmarshal key s) [
    | ok found ↦ (s, some found, none)
    | err e ↦ wrap_made json key ttl callback s
  ]

  module _ {A : Type 0} (json : Json A) (key : String) (ttl : ℕ) (callback : Result A) (s : S) where
    wrap_hit :
        (found : A)
        → r.get json.unmarshal key s ≡ ok found
        → wrap json key ttl callback s ≡ (s, some found, none)
    unfolding wrap
    wrap_hit found hit = rw (hit, wrap) refl

    wrap_miss :
        (e : Err)
        → r.get json.unmarshal key s ≡ err e
        → wrap json key ttl callback s ≡ wrap_made json key ttl callback s
    unfolding wrap
    wrap_miss e miss = rw (miss, wrap) refl

-- What is set can be read.
pub record Keeps {S : Type 0} (server : Commands S) : Type 0 where
  pub get-set :
      (key b : String) (ttl : ℕ) (s : S)
      → (server.set key (server.of_bytes b) ttl s).1 ≡ none
      → server.get key (server.set key (server.of_bytes b) ttl s).0 ≡ ok b

module _ {S : Type 0} (server : Commands S) (keeps : Keeps server) {A : Type 0}
    (json : Json A) where
  -- What is written reads back as it was.
  abbrev pub ReadsBack : Type 0
  ReadsBack = (a : A) (b : String) → json.marshal a ≡ ok b → json.unmarshal b ≡ ok a

  get-set_written :
      (key : String) (ttl : ℕ) (made : A) (m : Result String) (s : S)
      → ReadsBack
      → json.marshal made ≡ m
      → (Cluster.set server m key ttl s).1 ≡ none
      → Cluster.get server json.unmarshal key (Cluster.set server m key ttl s).0 ≡ ok made
  unfolding Cluster.set Cluster.get
  get-set_written key ttl made (err e) s back written stored = absurd (cc (stored))
  get-set_written key ttl made (ok b) s back written stored =
      rw (keeps.get-set key b ttl s stored, Cluster.get) (back made b written)

  made_twice :
      (key : String) (ttl later : ℕ) (callback other : Result A) (s : S)
      → ReadsBack
      → let first = wrap_made (cluster_client server) json key ttl callback s in
        first.2 ≡ none → wrap (cluster_client server) json key later other first.0 ≡ first
  unfolding wrap_made
  made_twice key ttl later (err e) other s back fine = absurd (cc (fine))
  made_twice key ttl later (ok made) other s back fine =
      wrap_hit (cluster_client server) json key later other
        (Cluster.set server (json.marshal made) key ttl s).0 made
        (get-set_written key ttl made (json.marshal made) s back refl fine)
      ∙ ap (λ failed. ((Cluster.set server (json.marshal made) key ttl s).0, some made, failed))
          (sym fine)

  -- Once a call has succeeded, another one with the same key gives the same value, whatever its own
  -- callback would make, and leaves the server as it is.
  pub wrap_twice :
      (key : String) (ttl later : ℕ) (callback other : Result A) (s : S)
      → ReadsBack
      → let first = wrap (cluster_client server) json key ttl callback s in
        first.2 ≡ none → wrap (cluster_client server) json key later other first.0 ≡ first
  wrap_twice key ttl later callback other s back fine =
      let c = cluster_client server in
      elim (Result-cases (Cluster.get server json.unmarshal key s)) [
        | inr (found, hit) ↦
            rw (wrap_hit c json key ttl callback s found hit)
              (wrap_hit c json key later other s found hit)
        | inl (e, miss) ↦
            let made = wrap_miss c json key ttl callback s e miss in
            rw made
              (made_twice key ttl later callback other s back (ap (λ a. a.2) (sym made) ∙ fine))
      ]
