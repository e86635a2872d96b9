-- ===== src/Sqs/Listener/Polls.antt =====
-- What becomes of all the messages that one poll delivers.
use service_platform.Prelude.{
  String, ◌≡◌, refl, false, not, Option, none, some, List, [], ◌∷◌, any, filter, All, inl, inr,
  Bool-cases,
}
use service_platform.Prelude.Outcome.{Err, done, Result, ok, err}
use service_platform.Entity.{Job}
use service_platform.Sqs.Message.{SqsMessage, validate_message}
use service_platform.Sqs.Listener.{
  Message, Attempt, returns, fails, panics, Inbox, has_receipt, delete_message, MessageHandler,
  Processed, processed, crashed, should_retry, clean_up, handle_attempt, handle_job_and_cleanup,
  handle_valid, handle_parsed, process_message, process_all, poll_messages,
}
use service_platform.Sqs.Listener.Deletes.{IsGone, process_message-IsGone}

filter_absent :
    (r other : String) (ms : List Message)
    → any (has_receipt r) ms ≡ false
    → any (has_receipt r) (filter (λ m. not (has_receipt other m)) ms) ≡ false
filter_absent r other [] absent = refl
filter_absent r other (m ∷ ms) absent = elim (Bool-cases (has_receipt r m)) [
  | inl hit ↦ absurd (cc (rw hit at absent))
  | inr miss ↦ elim (Bool-cases (has_receipt other m)) [
    | inl deleted ↦ rw deleted (filter_absent r other ms (rw miss at absent))
    | inr kept ↦ rw (kept, miss) (filter_absent r other ms (rw miss at absent))
  ]
]

module _ {S : Type 0} where
  abbrev left : Processed S → List Message
  left (processed s e) = s.messages
  left (crashed s) = s.messages

  -- What is gone stays gone.
  abbrev Shrinks : List Message → Processed S → Type 0
  Shrinks ms p =
      (r : String) → any (has_receipt r) ms ≡ false → any (has_receipt r) (left p) ≡ false

  delete_message-Shrinks :
      (other : String) (s : Inbox S) (e : Option Err)
      → Shrinks s.messages (processed (delete_message done other s).0 e)
  unfolding delete_message
  delete_message-Shrinks other s e r absent = filter_absent r other s.messages absent

  -- All the given messages are gone, and nothing has panicked.
  abbrev pub AreGone : List Message → Processed S → Type 0
  AreGone ms p = All (λ (m : Message). IsGone m.receipt_handle p) ms

  abbrev IsSafe : Processed S → Type 0
  IsSafe (processed s e) = Unit {0}
  IsSafe (crashed s) = ⊥

  -- The given messages are gone, and those that were gone before are.
  abbrev Swept : List Message → List Message → Processed S → Type 0
  Swept ms before p = IsSafe p × AreGone ms p × Shrinks before p

  IsGone-left :
      (r : String) (p : Processed S) → IsSafe p → any (has_receipt r) (left p) ≡ false → IsGone r p
  IsGone-left r (processed s e) safe absent = absent
  IsGone-left r (crashed s) safe absent = absurd safe

  -- The loop goes on behind a message unless that has panicked.
  abbrev continue : Processed S → (Inbox S → Processed S) → Processed S
  continue p after = elim p [ crashed s ↦ crashed s | processed s e ↦ after s ]

  module _ (handler : MessageHandler S) where
    clean_up-Shrinks :
        (other : String) (event : Job) (failed : Option Err) (s : Inbox S)
        → Shrinks s.messages (clean_up handler done other event failed s)
    unfolding clean_up
    clean_up-Shrinks other event none s = delete_message-Shrinks other s none
    clean_up-Shrinks other event (some e) s = elim (Bool-cases (should_retry event e)) [
      | inl again ↦ rw again (λ r absent. absent)
      | inr never ↦ rw never (delete_message-Shrinks other s (some e))
    ]

    handle_attempt-Shrinks :
        (other : String) (a : Attempt Job) (s : Inbox S)
        → Shrinks s.messages (handle_attempt handler done other a s)
    unfolding handle_attempt handle_job_and_cleanup
    handle_attempt-Shrinks other (returns event) s =
        clean_up-Shrinks other event (handler event s.handled).1
          (record s { handled = (handler event s.handled).0 })
    handle_attempt-Shrinks other (fails e) s = delete_message-Shrinks other s (some e)
    handle_attempt-Shrinks other panics s = λ r absent. absent

    handle_valid-Shrinks :
        (url : String) (m : Message) (msg : SqsMessage) (o : Option Err) (s : Inbox S)
        → Shrinks s.messages (handle_valid handler done url m msg o s)
    unfolding handle_valid
    handle_valid-Shrinks url m msg (some e) s = delete_message-Shrinks m.receipt_handle s (some e)
    handle_valid-Shrinks url m msg none s = handle_attempt-Shrinks m.receipt_handle _ s

    handle_parsed-Shrinks :
        (url : String) (m : Message) (r : Result SqsMessage) (s : Inbox S)
        → Shrinks s.messages (handle_parsed handler done url m r s)
    unfolding handle_parsed
    handle_parsed-Shrinks url m (err e) s = delete_message-Shrinks m.receipt_handle s none
    handle_parsed-Shrinks url m (ok msg) s = handle_valid-Shrinks url m msg (validate_message msg) s

    Swept-continue :
        (r : String) (before : List Message) (ms : List Message) (p : Processed S)
        (after : Inbox S → Processed S)
        → ((s : Inbox S) → Swept ms s.messages (after s))
        → IsGone r p
        → Shrinks before p
        → IsGone r (continue p after) × Swept ms before (continue p after)
    Swept-continue r before ms (crashed s) after each gone shrinks = absurd gone
    Swept-continue r before ms (processed s e) after each gone shrinks =
        let swept = each s in
        (
          IsGone-left r (after s) swept.0 (swept.2 r gone),
          (swept.0, swept.1, λ other absent. swept.2 other (shrinks other absent)),
        )

    process_all-Swept :
        (parse : String → Result SqsMessage) (url : String) (ms : List Message) (s : Inbox S)
        → Swept ms s.messages (process_all handler parse (λ m. done) url ms s)
    unfolding process_all process_message
    process_all-Swept parse url [] s = (tt, tt, λ r absent. absent)
    process_all-Swept parse url (m ∷ ms) s =
        let (gone, swept) =
          Swept-continue m.receipt_handle s.messages ms (process_message handler parse done url m s)
            (process_all handler parse (λ m'. done) url ms) (process_all-Swept parse url ms)
            (process_message-IsGone handler parse url m s)
            (handle_parsed-Shrinks url m (parse m.body) s) in
        (swept.0, (gone, swept.1), swept.2)

    -- Where the server answers the deletions, a poll that receives messages ends without a panic
    -- and with each of them deleted, whatever their bodies and whatever the handler does.
    pub poll_messages-AreGone :
        (parse : String → Result SqsMessage) (url : String) (ms : List Message) (s : Inbox S)
        → AreGone ms (poll_messages handler parse (λ m. done) url (ok ms) s)
    unfolding poll_messages process_message
    poll_messages-AreGone parse url ms s = (process_all-Swept parse url ms s).1
