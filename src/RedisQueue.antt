-- ===== src/RedisQueue.antt =====
-- app/pkg/queue/queue.go: the job queue on a Redis server. The server's lists and sorted sets are
-- the state; the server's answer to each command or transaction is an argument. The text that
-- `encoding/json` makes of a job is an argument too, `Codec`.
pub mod Server
pub mod Fifo
use service_platform.Prelude.{
  ℕ, ◌+◌, ◌/◌, ◌^◌, String, Bool, true, false, Option, none, some, List, [], ◌∷◌, length, map, ltb,
  if◌then◌else◌,
}
use service_platform.Prelude.Outcome.{
  ℤ, Err, wrap, Outcome, done, refused, lost, effect, failure, Call, Result, ok, err, reading,
}
use service_platform.Entity.{Job}
use Server.{Codec, Redis, lpush, zadd, zrem, brpop}

abbrev pub queue_key : String
queue_key = "{jobs}:queue"

abbrev pub queue_key_retry : String
queue_key_retry = "{jobs}:retry"

abbrev pub processing_set_key : String
processing_set_key = "{jobs}:processing"

abbrev pub retry_set_key : String
retry_set_key = "{jobs}:retry_schedule"

-- All jobs go to the same list, whatever their priority.
unfoldable pub get_queue_key : ℤ → String
get_queue_key priority = queue_key

unfoldable pub get_priority_queues : List String
get_priority_queues = queue_key ∷ []

-- `t.Unix()` of a time in nanoseconds.
abbrev pub unix : ℕ → ℕ
unix t = t / 1000000000

-- The error of a call under a prefix, as `fmt.Errorf("…: %w", err)`.
abbrev pub wrapped : String → Option Err → Option Err
wrapped s none = none
wrapped s (some e) = some (wrap s e)

-- A delay is an `int64`, given by its 64 bits: it is positive below 2 ^ 63.
abbrev pub is_positive : ℕ → Bool
is_positive d = if ltb 0 d then ltb d (2 ^ 63) else false

module _ {W : Type 0} where
  -- The `ZAdd` of `Enqueue`, for a job that is scheduled for later. The member is the identifier
  -- itself, not its text, and go-redis writes its bytes.
  abbrev pub schedule_at : String → ℕ → Option ℕ → Redis W → Redis W
  schedule_at member now none r = r
  schedule_at member now (some t) r = if ltb now t then zadd retry_set_key member (unix t) r else r

module _ (codec : Codec) where
  open codec use {Wire, marshal, unmarshal, uuid_bytes}

  -- The transaction that `Enqueue` hands to the server.
  unfoldable pub enqueue_commands : ℕ → Job → Wire → Redis Wire → Redis Wire
  unfolding get_queue_key
  enqueue_commands now j w r =
      schedule_at (uuid_bytes j.id) now j.scheduled_at (lpush (get_queue_key j.priority) w r)

  unfoldable pub enqueue_wire : Call → Job → Result Wire → Redis Wire → Redis Wire × Option Err
  unfolding enqueue_commands
  enqueue_wire c j (err e) r = (r, some (wrap "failed to marshal job: " e))
  enqueue_wire c j (ok w) r = (
    effect c.outcome (enqueue_commands c.at j w) r,
    wrapped "failed to enqueue job: " (failure c.outcome),
  )

  unfoldable pub enqueue : Call → Job → Redis Wire → Redis Wire × Option Err
  unfolding enqueue_wire
  enqueue c j r = enqueue_wire c j (marshal j) r

  -- What the program makes of the text that it received.
  unfoldable pub decode : Wire → Result (Option Job)
  decode w = elim (unmarshal w) [
    | ok j ↦ ok (some j)
    | err e ↦ err (wrap "failed to unmarshal job: " e)
  ]

  abbrev pub popped : Option (Wire × Redis Wire) → Redis Wire → Redis Wire
  popped none r = r
  popped (some (w, r')) r = r'

  abbrev pub answer : Option (Wire × Redis Wire) → Result (Option Job)
  answer none = ok none
  answer (some (w, r')) = decode w

  -- `none` is the timeout of BRPOP, `redis.Nil`. A reply that is lost takes its job with it.
  unfoldable pub dequeue : Outcome → List String → Redis Wire → Redis Wire × Result (Option Job)
  unfolding decode
  dequeue done queues r = (popped (brpop queues r) r, answer (brpop queues r))
  dequeue (refused e) queues r = (r, err (wrap "failed to dequeue job: " e))
  dequeue (lost e) queues r = (popped (brpop queues r) r, err (wrap "failed to dequeue job: " e))

module _ {W : Type 0} where
  unfoldable pub mark_processing : Call → String → Redis W → Redis W × Option Err
  mark_processing c id r = (
    effect c.outcome (zadd processing_set_key id (unix c.at)) r,
    wrapped "failed to mark job as processing: " (failure c.outcome),
  )

  unfoldable pub mark_completed : Outcome → String → Redis W → Redis W × Option Err
  mark_completed o id r = (
    effect o (zrem processing_set_key id) r,
    wrapped "failed to mark job as completed: " (failure o),
  )

  -- The transaction of `MarkFailed`: out of the processing set, and into the retry set if there is
  -- a delay.
  unfoldable pub mark_failed_commands : ℕ → String → ℕ → Redis W → Redis W
  mark_failed_commands now id delay r =
      let removed = zrem processing_set_key id r in
      if is_positive delay then zadd retry_set_key id (unix (now + delay)) removed else removed

  unfoldable pub mark_failed : Call → String → ℕ → Redis W → Redis W × Option Err
  unfolding mark_failed_commands
  mark_failed c id delay r = (
    effect c.outcome (mark_failed_commands c.at id delay) r,
    wrapped "failed to mark job as failed: " (failure c.outcome),
  )

  unfoldable pub get_queue_depth : Outcome → String → Redis W → Result ℕ
  get_queue_depth o queue r = reading o (length (r.lists queue))

  unfoldable pub get_processing_jobs : Outcome → Redis W → Result (List String)
  get_processing_jobs o r = reading o (map (λ e. e.0) (r.zsets processing_set_key))
