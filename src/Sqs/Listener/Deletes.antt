-- ===== src/Sqs/Listener/Deletes.antt =====
-- What becomes of a message, whatever its body and whatever the handler does with its event.
use service_platform.Prelude.{
  String, ◌≡◌, refl, arith, false, not, Option, none, some, List, [], ◌∷◌, any, filter, inl, inr,
  Bool-cases,
}
use service_platform.Prelude.Outcome.{Err, done, Result, ok, err}
use service_platform.Entity.{Json, null, bool, number, string, array, object, Job}
use service_platform.Sqs.Message.{SqsMessage, convert_payload_to_map, validate_message}
use service_platform.Sqs.Listener.{
  Message, Attempt, returns, fails, panics, get_message_id, create_job_from_message, get_message_id,
  should_retry, Inbox, has_receipt, delete_message, MessageHandler, Processed, processed, crashed,
  clean_up, handle_job_and_cleanup, handle_attempt, handle_valid, handle_parsed, process_message,
}

any-filter-not :
    (r : String) (ms : List Message)
    → any (has_receipt r) (filter (λ m. not (has_receipt r m)) ms) ≡ false
any-filter-not r [] = refl
any-filter-not r (m ∷ ms) = elim (Bool-cases (has_receipt r m)) [
  | inl hit ↦ rw hit (any-filter-not r ms)
  | inr miss ↦ rw (miss, miss) (any-filter-not r ms)
]

module _ {S : Type 0} where
  -- The message is gone, and the call has not panicked.
  abbrev pub IsGone : String → Processed S → Type 0
  IsGone r (processed s e) = any (has_receipt r) s.messages ≡ false
  IsGone r (crashed s) = ⊥

  delete_message-IsGone :
      (r : String) (s : Inbox S) → any (has_receipt r) (delete_message done r s).0.messages ≡ false
  unfolding delete_message
  delete_message-IsGone r s = any-filter-not r s.messages

-- An event that the listener makes has no attempts at all, so that no error of it is retried.
abbrev HasNoAttempts : Attempt Job → Type 0
HasNoAttempts (returns j) = (e : Err) → should_retry j e ≡ false
HasNoAttempts (fails e) = Unit {0}
HasNoAttempts panics = ⊥

valid-NotNull : (t : String) → validate_message (record { type = t; payload = null }) ≡ none → ⊥
unfolding validate_message
valid-NotNull t valid = ground arith

created-HasNoAttempts :
    (type : String) (payload : Json) (id url : String)
    → validate_message (record { type = type; payload = payload }) ≡ none
    → HasNoAttempts (create_job_from_message (record { type = type; payload = payload }) id url)
unfolding create_job_from_message convert_payload_to_map should_retry
created-HasNoAttempts type null id url valid = valid-NotNull type valid
created-HasNoAttempts type (object fs) id url valid = λ e. refl
created-HasNoAttempts type (bool b) id url valid = tt
created-HasNoAttempts type (number n) id url valid = tt
created-HasNoAttempts type (string t) id url valid = tt
created-HasNoAttempts type (array xs) id url valid = tt

module _ {S : Type 0} (handler : MessageHandler S) where
  clean_up-IsGone :
      (r : String) (event : Job) (failed : Option Err) (s : Inbox S)
      → ((e : Err) → should_retry event e ≡ false)
      → IsGone r (clean_up handler done r event failed s)
  unfolding clean_up
  clean_up-IsGone r event (some e) s never = rw (never e) (delete_message-IsGone r s)
  clean_up-IsGone r event none s never = delete_message-IsGone r s

  handle_attempt-IsGone :
      (r : String) (a : Attempt Job) (s : Inbox S)
      → HasNoAttempts a
      → IsGone r (handle_attempt handler done r a s)
  unfolding handle_attempt handle_job_and_cleanup
  handle_attempt-IsGone r (returns event) s never =
      let (handled', failed) = handler event s.handled in
      clean_up-IsGone r event failed (record s { handled = handled' }) never
  handle_attempt-IsGone r (fails e) s never = delete_message-IsGone r s
  handle_attempt-IsGone r panics s never = absurd never

  handle_valid-IsGone :
      (url : String) (m : Message) (msg : SqsMessage) (o : Option Err) (s : Inbox S)
      → validate_message msg ≡ o
      → IsGone m.receipt_handle (handle_valid handler done url m msg o s)
  unfolding handle_valid
  handle_valid-IsGone url m msg (some e) s valid = delete_message-IsGone m.receipt_handle s
  handle_valid-IsGone url m msg none s valid =
      handle_attempt-IsGone m.receipt_handle _ s
        (created-HasNoAttempts msg.type msg.payload (get_message_id m) url valid)

  handle_parsed-IsGone :
      (url : String) (m : Message) (r : Result SqsMessage) (s : Inbox S)
      → IsGone m.receipt_handle (handle_parsed handler done url m r s)
  unfolding handle_parsed
  handle_parsed-IsGone url m (err e) s = delete_message-IsGone m.receipt_handle s
  handle_parsed-IsGone url m (ok msg) s =
      handle_valid-IsGone url m msg (validate_message msg) s refl

  -- Where the server answers the deletion, no call for a message panics, and each one deletes its
  -- message: if its body cannot be read, if it is not valid, if its payload is no object, if the
  -- handler has failed, whatever the error, and if it has succeeded.
  pub process_message-IsGone :
      (parse : String → Result SqsMessage) (url : String) (m : Message) (s : Inbox S)
      → IsGone m.receipt_handle (process_message handler parse done url m s)
  unfolding process_message
  process_message-IsGone parse url m s = handle_parsed-IsGone url m (parse m.body) s
