-- ===== src/Sqs/Queue/Delivery.antt =====
-- The other half of app/pkg/sqs/queue.go: taking a message out of a queue, and deleting it or
-- sending it anew by the receipt that is kept in the job's payload.
use Prim.Native.String.{◌++◌ as append}
use service_platform.Prelude.{
  ℕ, ◌+◌, ◌/◌, String, ◌&&◌, Option, none, some, List, [], ◌∷◌, ltb, str_eq, if◌then◌else◌,
}
use service_platform.Prelude.Outcome.{Err, text, wrap, Outcome, Result, ok, err, ℤ}
use service_platform.Constant.{retrying}
use service_platform.Entity.{string, object, Fields, end, field, JobPayload, Job}
use service_platform.RedisQueue.{is_positive, wrapped}
use service_platform.RedisQueue.Server.{Codec}
use service_platform.Sqs.Config.{Config}
use service_platform.Sqs.Listener.{Attempt, returns, panics}
use service_platform.Sqs.Message.{set_field, get_field}
use service_platform.Sqs.Queue.{
  Log, Received, attributes_of, cap_seconds, to_int32, send_message, delete_message,
  get_queue_urls_from_names,
}

-- The metadata that `Dequeue` puts into the payload.
unfoldable pub sqs_metadata : String → String → Fields
sqs_metadata receipt url =
    field "sqs_receipt_handle" (string receipt) (field "sqs_queue_url" (string url) end)

-- A write into a payload that is `nil` panics.
unfoldable pub with_metadata : Job → JobPayload → String → String → Attempt (Option Job)
unfolding sqs_metadata
with_metadata j none receipt url = panics
with_metadata j (some fs) receipt url = returns (
    some (record j {
      payload = some (set_field "_sqs_metadata" (object (sqs_metadata receipt url)) fs);
    }))

-- `m[k].(string)`
unfoldable pub text_at : String → Fields → Option String
text_at k fs = elim (get_field k fs) [ some (string s) ↦ some s | _ ↦ none ]

-- The job as it is sent anew.
abbrev pub retried : Job → Job
retried j = record j { attempts = j.attempts + 1; status = retrying }

-- Without a receipt or a URL in the metadata the call ends with an error.
unfoldable pub at_receipt :
    {W : Type 0}
    → String
    → Option String
    → Option String
    → (String → String → Log W → Log W × Option Err)
    → Log W
    → Log W × Option Err
at_receipt id none url act l = (l, some (text (append "missing SQS receipt handle for job " id)))
at_receipt id (some receipt) none act l =
    (l, some (text (append "missing SQS queue URL for job " id)))
at_receipt id (some receipt) (some url) act l = act url receipt l

-- What the server delivers for a queue, and how it answers the deletion of a message.
pub record Delivery (W : Type 0) : Type 0 where
  pub receive : String → Result (List (Received W))
  pub delete : Outcome

module _ (codec : Codec) (config : Config) where
  open codec use {Wire, marshal, unmarshal}

  -- `Dequeue` over the URLs: the first message of the first queue that has one. A message that
  -- cannot be read is deleted, and the next queue is asked.
  unfoldable pub dequeue_urls :
      Delivery Wire → List String → Log Wire → Log Wire × Attempt (Option Job)
  unfolding with_metadata delete_message
  dequeue_urls d [] l = (l, returns none)
  dequeue_urls d (url ∷ urls) l =
      let next = dequeue_urls d urls l in
      let after = λ (m : Received Wire).
        dequeue_urls d urls (delete_message d.delete url m.receipt_handle l).0 in
      if str_eq url "" then next else elim (d.receive url) [
        | err e ↦ next
        | ok [] ↦ next
        | ok (m ∷ ms) ↦ elim (unmarshal m.body) [
          | err e ↦ after m
          | ok j ↦ (l, with_metadata j j.payload m.receipt_handle url)
        ]
      ]

  unfoldable pub dequeue : Delivery Wire → List String → Log Wire → Log Wire × Attempt (Option Job)
  unfolding dequeue_urls
  dequeue d queues l = dequeue_urls d (get_queue_urls_from_names config queues) l

  -- `MarkCompletedWithMetadata`
  unfoldable pub mark_completed_with_metadata :
      Outcome → String → Fields → Log Wire → Log Wire × Option Err
  unfolding delete_message text_at at_receipt
  mark_completed_with_metadata o id metadata l =
      at_receipt id (text_at "sqs_receipt_handle" metadata) (text_at "sqs_queue_url" metadata)
        (λ url receipt k.
          let (k', failed) = delete_message o url receipt k in
          (k', wrapped "failed to mark job as completed: " failed))
        l

  -- The retry of `MarkFailedWithMetadata`, behind the deletion.
  unfoldable pub resend_wire :
      (ℕ → ℤ) → Outcome → String → ℕ → Job → Result Wire → Log Wire → Log Wire × Option Err
  unfolding send_message to_int32 cap_seconds
  resend_wire narrow o url delay again (err e) l =
      (l, some (wrap "failed to marshal retry job: " e))
  resend_wire narrow o url delay again (ok w) l =
      let (l', failed) =
        send_message o
          (record {
            queue_url = url;
            body = w;
            delay_seconds = some (cap_seconds (to_int32 narrow (delay / 1000000000)));
            attributes = attributes_of again (("IsRetry", "true") ∷ []);
          })
          l in
      (l', wrapped "failed to re-queue job for retry: " failed)

  -- A failed deletion ends the call; otherwise the job is sent anew if there is a delay and
  -- attempts are left.
  unfoldable pub retry_deleted :
      (ℕ → ℤ) → Outcome → String → ℕ → Job → Log Wire × Option Err → Log Wire × Option Err
  unfolding resend_wire
  retry_deleted narrow o url delay j (l, some e) =
      (l, some (wrap "failed to delete failed message: " e))
  retry_deleted narrow o url delay j (l, none) =
      if is_positive delay && ltb j.attempts j.max_attempts
      then resend_wire narrow o url delay (retried j) (marshal (retried j)) l
      else (l, none)

  unfoldable pub mark_failed_with_metadata :
      (ℕ → ℤ) → Outcome → Outcome → String → ℕ → Job → Fields → Log Wire → Log Wire × Option Err
  unfolding retry_deleted delete_message text_at at_receipt
  mark_failed_with_metadata narrow deletion sending id delay j metadata l =
      at_receipt id (text_at "sqs_receipt_handle" metadata) (text_at "sqs_queue_url" metadata)
        (λ url receipt k.
          retry_deleted narrow sending url delay j (delete_message deletion url receipt k))
        l
