-- ===== src/Sqs/Listener/Drops.antt =====
-- What becomes of an event whose job cannot be created.
use mathlib.Core.Path.{subst}
use service_platform.Prelude.{
  String, ◌≡◌, refl, arith, Option, none, some, any, str_eq, inl, inr, Bool-cases,
}
use service_platform.Prelude.Outcome.{Err, Outcome, done, refused, Result, ok, err}
use service_platform.Entity.{Job}
use service_platform.JobRepository.{has_id, create}
use service_platform.JobManager.{CreateCalls, Backend, new_job, enqueue_created, create_job}
use service_platform.RedisQueue.Server.{Codec}
use service_platform.Sqs.Message.{SqsMessage, validate_message}
use service_platform.Sqs.Bridge.{bridge_request, handle_message}
use service_platform.Sqs.Listener.{
  Message, Attempt, returns, fails, panics, Inbox, delete_message, MessageHandler, Processed,
  processed, crashed, clean_up, handle_attempt, handle_job_and_cleanup, handle_valid, handle_parsed,
  process_message, should_retry,
}
use service_platform.Sqs.Listener.Deletes.{IsGone, process_message-IsGone}

module _ {S : Type 0} where
  -- The state of the handler is the given one, and the call has returned an error, or none.
  abbrev pub LeavesHandled : S → Processed S → Type 0
  LeavesHandled h (processed s e) = s.handled ≡ h
  LeavesHandled h (crashed s) = s.handled ≡ h

  handled-delete_message :
      (o : Outcome) (r : String) (s : Inbox S) → (delete_message o r s).0.handled ≡ s.handled
  unfolding delete_message
  handled-delete_message o r s = ground arith

  module _ (handler : MessageHandler S) where
    clean_up-LeavesHandled :
        (o : Outcome) (r : String) (event : Job) (failed : Option Err) (s : Inbox S)
        → LeavesHandled s.handled (clean_up handler o r event failed s)
    unfolding clean_up
    clean_up-LeavesHandled o r event none s = handled-delete_message o r s
    clean_up-LeavesHandled o r event (some e) s = elim (Bool-cases (should_retry event e)) [
      | inl again ↦ rw again refl
      | inr never ↦ rw never (handled-delete_message o r s)
    ]

    -- A handler that leaves its state as it is makes every call leave it so.
    module _ (idle : (event : Job) (h : S) → (handler event h).0 ≡ h) where
      handle_attempt-LeavesHandled :
          (o : Outcome) (r : String) (a : Attempt Job) (s : Inbox S)
          → LeavesHandled s.handled (handle_attempt handler o r a s)
      unfolding handle_attempt handle_job_and_cleanup
      handle_attempt-LeavesHandled o r (returns event) s =
          let (handled', failed) = handler event s.handled in
          subst
            (λ h.
              LeavesHandled h (clean_up handler o r event failed (record s { handled = handled' })))
            (idle event s.handled)
            (clean_up-LeavesHandled o r event failed (record s { handled = handled' }))
      handle_attempt-LeavesHandled o r (fails e) s = handled-delete_message o r s
      handle_attempt-LeavesHandled o r panics s = refl

      handle_valid-LeavesHandled :
          (o : Outcome) (url : String) (m : Message) (msg : SqsMessage) (v : Option Err)
          (s : Inbox S)
          → LeavesHandled s.handled (handle_valid handler o url m msg v s)
      unfolding handle_valid
      handle_valid-LeavesHandled o url m msg (some e) s =
          handled-delete_message o m.receipt_handle s
      handle_valid-LeavesHandled o url m msg none s =
          handle_attempt-LeavesHandled o m.receipt_handle _ s

      handle_parsed-LeavesHandled :
          (o : Outcome) (url : String) (m : Message) (r : Result SqsMessage) (s : Inbox S)
          → LeavesHandled s.handled (handle_parsed handler o url m r s)
      unfolding handle_parsed
      handle_parsed-LeavesHandled o url m (err e) s = handled-delete_message o m.receipt_handle s
      handle_parsed-LeavesHandled o url m (ok msg) s =
          handle_valid-LeavesHandled o url m msg (validate_message msg) s

module _ (codec : Codec) where
  -- Where the database refuses the row, the bridge leaves the table and the queue as they are.
  handle_message_refused :
      (c : CreateCalls) (e : Err) (event : Job) (b : Backend codec.Wire)
      → c.insert ≡ refused e
      → (handle_message codec c event b).0 ≡ b
  unfolding handle_message create_job create enqueue_created
  handle_message_refused c e event b down =
      elim (Bool-cases (str_eq (bridge_request event).type "")) [
        | inl missing ↦ rw missing refl
        | inr given ↦
            elim (Bool-cases (any (has_id (new_job c (bridge_request event)).id) b.jobs)) [
              | inl taken ↦ rw (given, taken) refl
              | inr fresh ↦ rw (given, fresh, down) refl
            ]
      ]

  -- An event whose job the database refuses is lost: its message is deleted all the same, and
  -- neither the table nor the queue has a job for it.
  pub refused_event_lost :
      (c : CreateCalls) (e : Err) (parse : String → Result SqsMessage) (url : String) (m : Message)
      (s : Inbox (Backend codec.Wire))
      → c.insert ≡ refused e
      → let p = process_message (handle_message codec c) parse done url m s in
        IsGone m.receipt_handle p × LeavesHandled s.handled p
  unfolding process_message
  refused_event_lost c e parse url m s down = (
    process_message-IsGone (handle_message codec c) parse url m s,
    handle_parsed-LeavesHandled (handle_message codec c)
        (λ event b. handle_message_refused c e event b down) done url m (parse m.body) s,
  )
