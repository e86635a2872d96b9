-- ===== src/RedisQueue/Server.antt =====
-- The commands of the Redis server that the queue sends, on lists (pushed at the head, popped at
-- the end) and on sorted sets (a score for each member), and the texts of jobs.
use service_platform.Prelude.{
  ℕ, String, ◌≡◌, Option, none, some, List, [], ◌∷◌, Assoc, insert, remove, update,
}
use service_platform.Prelude.Outcome.{Result, ok}
use service_platform.Entity.{Job}

-- `json.Marshal` and `json.Unmarshal` on jobs.
pub record Codec : Type 1 where
  pub Wire : Type 0
  pub marshal : Job → Result Wire
  pub unmarshal : Wire → Result Job
  pub uuid_bytes : String → String  -- what go-redis writes for an identifier that is no text

-- What is written reads back as it was.
pub record RoundTrips (c : Codec) : Type 0 where
  pub reads_back : (j : Job) (w : c.Wire) → c.marshal j ≡ ok w → c.unmarshal w ≡ ok j

-- A missing key is an empty list or set.
pub record Redis (W : Type 0) : Type 0 where
  pub lists : String → List W
  pub zsets : String → Assoc ℕ

module _ {W : Type 0} where
  unfoldable pub lpush : String → W → Redis W → Redis W
  lpush k w r = record r { lists = update r.lists k (w ∷ r.lists k) }

  unfoldable pub zadd : String → String → ℕ → Redis W → Redis W
  zadd k member score r = record r { zsets = update r.zsets k (insert member score (r.zsets k)) }

  unfoldable pub zrem : String → String → Redis W → Redis W
  zrem k member r = record r { zsets = update r.zsets k (remove member (r.zsets k)) }

  -- The last element of a list, and what stands before it.
  unfoldable pub split_last : List W → Option (W × List W)
  split_last [] = none
  split_last (x ∷ xs) = elim (split_last xs) [
    | none ↦ some (x, [])
    | some (y, ys) ↦ some (y, x ∷ ys)
  ]

  -- The pop of one list, if it is not empty.
  abbrev pub pop_or :
      String → Redis W → Option (W × Redis W) → Option (W × List W) → Option (W × Redis W)
  pop_or k r rest none = rest
  pop_or k r rest (some (w, ws)) = some (w, record r { lists = update r.lists k ws })

  -- BRPOP: the end of the first list that is not empty.
  unfoldable pub brpop : List String → Redis W → Option (W × Redis W)
  brpop [] r = none
  brpop (k ∷ ks) r = pop_or k r (brpop ks r) (split_last (r.lists k))
