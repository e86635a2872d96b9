-- ===== src/Sqs/Listener.antt =====
-- The message loop of app/pkg/sqs/listener.go. The SQS queue is the list of its messages, of which
-- the program deletes some by their receipts; a handler is a function on a state of its own. What
-- the server delivers, how it answers and how `encoding/json` reads a body are arguments.
pub mod Deletes
pub mod Drops
pub mod Polls
pub mod Running
pub mod OneStart
use service_platform.Prelude.{
  ℕ, String, Bool, true, false, not, Option, none, some, List, [], ◌∷◌, filter, leb, str_eq, ◌||◌,
  if◌then◌else◌,
}
use service_platform.Prelude.Outcome.{
  Err, text, wrap, Outcome, effect, failure, Result, ok, err, message,
}
use service_platform.Constant.{priority_low, pending}
use service_platform.Entity.{Json, string, object, Fields, end, field, JobPayload, Job}
use service_platform.Sqs.Message.{SqsMessage, set_field, convert_payload_to_map, validate_message}

pub record Message : Type 0 where
  pub message_id : Option String
  pub receipt_handle : String
  pub body : String

-- `getMessageID`
unfoldable pub get_message_id : Message → String
get_message_id m = elim m.message_id [ none ↦ "unknown" | some id ↦ id ]

-- A call that returns a value or an error, or that panics.
pub data Attempt {ℓ} (A : Type ℓ) : Type ℓ where
  returns : A → Attempt A
  fails : Err → Attempt A
  panics : Attempt A

abbrev pub nil_uuid : String
nil_uuid = "00000000-0000-0000-0000-000000000000"

-- The event with a type and a payload; all other fields have Go's zero values.
unfoldable pub event_job : String → JobPayload → Job
event_job type payload = record {
  id = nil_uuid;
  type = type;
  priority = priority_low;
  payload = payload;
  attempts = 0;
  max_attempts = 0;
  created_at = 0;
  updated_at = none;
  deleted_at = none;
  scheduled_at = none;
  started_at = none;
  completed_at = none;
  status = pending;
  error = "";
}

sqs_metadata : String → String → Json
sqs_metadata id url =
    object (field "sqs_message_id" (string id) (field "sqs_queue_url" (string url) end))

-- `addSQSMetadata`: a write into a map that is `nil` panics.
unfoldable pub add_sqs_metadata : String → JobPayload → String → String → Attempt Job
unfolding event_job sqs_metadata
add_sqs_metadata type none id url = panics
add_sqs_metadata type (some fs) id url =
    returns (event_job type (some (set_field "_sqs_metadata" (sqs_metadata id url) fs)))

with_payload : String → Result JobPayload → String → String → Attempt Job
unfolding add_sqs_metadata
with_payload type (err e) id url = fails e
with_payload type (ok p) id url = add_sqs_metadata type p id url

unfoldable pub create_job_from_message : SqsMessage → String → String → Attempt Job
unfolding with_payload
create_job_from_message m id url = with_payload m.type (convert_payload_to_map m.payload) id url

-- `shouldRetry`, on the error's text.
unfoldable pub should_retry : Job → Err → Bool
should_retry j e =
    if leb j.max_attempts j.attempts
    then false
    else not (
        str_eq (message e) "invalid_payload"
        || str_eq (message e) "malformed_data"
        || str_eq (message e) "authentication_failed")

-- The SQS queue, and the state on which the handler works.
pub record Inbox (S : Type 0) : Type 0 where
  pub messages : List Message
  pub handled : S

abbrev pub has_receipt : String → Message → Bool
has_receipt r m = str_eq m.receipt_handle r

module _ {S : Type 0} where
  unfoldable pub delete_message : Outcome → String → Inbox S → Inbox S × Option Err
  delete_message o receipt s = (
    effect o (λ i. record i { messages = filter (λ m. not (has_receipt receipt m)) i.messages }) s,
    failure o,
  )

-- `MessageHandler`: the error of `HandleMessage`, if there is one.
abbrev pub MessageHandler : Type 0 → Type 0
MessageHandler S = Job → S → S × Option Err

-- What `processMessage` leaves: the inbox, and the error that it returns, or a panic.
pub data Processed (S : Type 0) : Type 0 where
  processed : Inbox S → Option Err → Processed S
  crashed : Inbox S → Processed S

module _ {S : Type 0} (handler : MessageHandler S) where
  delete_wrapped : Option Err → Option Err
  delete_wrapped none = none
  delete_wrapped (some e) = some (wrap "failed to delete processed message: " e)

  -- Behind the handler: a message whose job failed stays if it is to be retried, and is deleted
  -- otherwise; a message whose job succeeded is deleted.
  unfoldable pub clean_up : Outcome → String → Job → Option Err → Inbox S → Processed S
  unfolding delete_wrapped
  clean_up o receipt event (some e) s =
      if should_retry event e
      then processed s none
      else processed (delete_message o receipt s).0 (some e)
  clean_up o receipt event none s =
      let (s', failed) = delete_message o receipt s in processed s' (delete_wrapped failed)

  unfoldable pub handle_job_and_cleanup : Outcome → String → Job → Inbox S → Processed S
  unfolding clean_up
  handle_job_and_cleanup o receipt event s =
      let (handled', failed) = handler event s.handled in
      clean_up o receipt event failed (record s { handled = handled' })

  unfoldable pub handle_attempt : Outcome → String → Attempt Job → Inbox S → Processed S
  handle_attempt o receipt (fails e) s = processed (delete_message o receipt s).0 (some e)
  handle_attempt o receipt panics s = crashed s
  handle_attempt o receipt (returns event) s = handle_job_and_cleanup o receipt event s

  -- `parseMessage`, and what follows it.
  unfoldable pub handle_valid :
      Outcome → String → Message → SqsMessage → Option Err → Inbox S → Processed S
  handle_valid o url m msg (some e) s = processed (delete_message o m.receipt_handle s).0 (some e)
  handle_valid o url m msg none s =
      handle_attempt o m.receipt_handle (create_job_from_message msg (get_message_id m) url) s

  unfoldable pub handle_parsed :
      Outcome → String → Message → Result SqsMessage → Inbox S → Processed S
  handle_parsed o url m (err e) s =
      processed (delete_message o m.receipt_handle s).0
        (some (wrap "failed to unmarshal SQS message: " e))
  handle_parsed o url m (ok msg) s = handle_valid o url m msg (validate_message msg) s

  -- `processMessage`, with the reading of the body and the answer to its one deletion.
  unfoldable pub process_message :
      (String → Result SqsMessage) → Outcome → String → Message → Inbox S → Processed S
  unfolding handle_parsed handle_valid handle_attempt handle_job_and_cleanup
  process_message parse o url m s = handle_parsed o url m (parse m.body) s

  -- The loop of `pollMessages` over the delivered messages; an error of one is only logged, and a
  -- panic ends the loop.
  unfoldable pub process_all :
      (String → Result SqsMessage)
      → (Message → Outcome)
      → String
      → List Message
      → Inbox S
      → Processed S
  process_all parse answers url [] s = processed s none
  process_all parse answers url (m ∷ ms) s = elim (process_message parse (answers m) url m s) [
    | crashed s' ↦ crashed s'
    | processed s' e ↦ process_all parse answers url ms s'
  ]

  unfoldable pub poll_messages :
      (String → Result SqsMessage)
      → (Message → Outcome)
      → String
      → Result (List Message)
      → Inbox S
      → Processed S
  poll_messages parse answers url (err e) s =
      processed s (some (wrap "failed to receive messages: " e))
  poll_messages parse answers url (ok ms) s = process_all parse answers url ms s
