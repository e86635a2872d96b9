-- ===== src/Sqs/Queue/Delays.antt =====
-- The delays of the messages that app/pkg/sqs/queue.go sends.
use service_platform.Prelude.{
  ltb, zero, suc, ℕ, ◌-◌, ◌/◌, ◌≤◌, String, arith, ◌&&◌, Option, none, some, List, All, inl, inr,
  Bool-cases, str_eq,
}
use service_platform.Prelude.Outcome.{
  Err, Outcome, done, refused, lost, Result, ok, err, ℤ, pos, negsuc,
}
use service_platform.Entity.{Job, Fields}
use service_platform.RedisQueue.{is_positive}
use service_platform.RedisQueue.Server.{Codec}
use service_platform.Sqs.Config.{Config}
use service_platform.Sqs.Queue.{
  negated, get_queue_url_by_job_type, Sent, Log, SendCalls, cap_seconds, to_int32, delay_until,
  schedule_delay, send_message, delete_message, send_job, enqueue, enqueue_raw,
}
use service_platform.Sqs.Queue.Delivery.{
  text_at, at_receipt, retried, resend_wire, retry_deleted, mark_failed_with_metadata,
}

-- No delay, a delay that is over, or one of at most 15 minutes.
abbrev pub IsCapped : Option ℤ → Type 0
IsCapped none = Unit
IsCapped (some (pos n)) = n ≤ 900
IsCapped (some (negsuc n)) = Unit

cap_seconds-IsCapped : (z : ℤ) → IsCapped (some (cap_seconds z))
unfolding cap_seconds
cap_seconds-IsCapped (pos n) = ground arith
cap_seconds-IsCapped (negsuc n) = tt

negated-IsCapped : (n : ℕ) → IsCapped (some (negated n))
negated-IsCapped zero = omega arith
negated-IsCapped (suc n) = tt

delay_until-IsCapped : (narrow : ℕ → ℤ) (t now : ℕ) → IsCapped (some (delay_until narrow t now))
unfolding delay_until
delay_until-IsCapped narrow t now = elim (Bool-cases (ltb t now)) [
  | inl over ↦ rw over (negated-IsCapped _)
  | inr ahead ↦ rw ahead (cap_seconds-IsCapped (to_int32 narrow ((t - now) / 1000000000)))
]

schedule_delay-IsCapped :
    (narrow : ℕ → ℤ) (c : SendCalls) (t : Option ℕ) → IsCapped (schedule_delay narrow c t)
unfolding schedule_delay
schedule_delay-IsCapped narrow c none = tt
schedule_delay-IsCapped narrow c (some t) = elim (Bool-cases (ltb c.now t)) [
  | inl later ↦ rw later (delay_until-IsCapped narrow t c.until)
  | inr at_once ↦ rw at_once tt
]

module _ {W : Type 0} where
  -- All delays that were sent are capped.
  abbrev pub AllCapped : Log W → Type 0
  AllCapped l = All (λ (m : Sent W). IsCapped m.delay_seconds) l.sent

  send_message-AllCapped :
      (o : Outcome) (m : Sent W) (l : Log W)
      → IsCapped m.delay_seconds
      → AllCapped l
      → AllCapped (send_message o m l).0
  unfolding send_message
  send_message-AllCapped done m l fits h = (fits, h)
  send_message-AllCapped (refused e) m l fits h = h
  send_message-AllCapped (lost e) m l fits h = (fits, h)

  delete_message-AllCapped :
      (o : Outcome) (url receipt : String) (l : Log W)
      → AllCapped l
      → AllCapped (delete_message o url receipt l).0
  unfolding delete_message
  delete_message-AllCapped done url receipt l h = h
  delete_message-AllCapped (refused e) url receipt l h = h
  delete_message-AllCapped (lost e) url receipt l h = h

module _ (narrow : ℕ → ℤ) (codec : Codec) (config : Config) where
  open codec use {Wire, marshal}

  send_job-AllCapped :
      (c : SendCalls) (prefix url : String) (extra : List (String × String)) (j : Job)
      (w : Result Wire) (l : Log Wire)
      → AllCapped l
      → AllCapped (send_job narrow codec config c prefix url extra j w l).0
  unfolding send_job
  send_job-AllCapped c prefix url extra j (err e) l h = h
  send_job-AllCapped c prefix url extra j (ok w) l h =
      send_message-AllCapped c.send _ l (schedule_delay-IsCapped narrow c j.scheduled_at) h

  enqueue-AllCapped :
      (c : SendCalls) (j : Job) (l : Log Wire)
      → AllCapped l
      → AllCapped (enqueue narrow codec config c j l).0
  unfolding enqueue
  enqueue-AllCapped c j l h =
      elim (Bool-cases (str_eq (get_queue_url_by_job_type config j.type) "")) [
        | inl missing ↦ rw missing h
        | inr there ↦ rw there (send_job-AllCapped c _ _ _ j (marshal j) l h)
      ]

  enqueue_raw-AllCapped :
      (c : SendCalls) (j : Job) (l : Log Wire)
      → AllCapped l
      → AllCapped (enqueue_raw narrow codec config c j l).0
  unfolding enqueue_raw
  enqueue_raw-AllCapped c j l h =
      elim (Bool-cases (str_eq (get_queue_url_by_job_type config j.type) "")) [
        | inl missing ↦ rw missing h
        | inr there ↦ rw there (send_job-AllCapped c _ _ _ j (marshal j) l h)
      ]

  resend_wire-AllCapped :
      (o : Outcome) (url : String) (delay : ℕ) (j : Job) (w : Result Wire) (l : Log Wire)
      → AllCapped l
      → AllCapped (resend_wire codec config narrow o url delay j w l).0
  unfolding resend_wire
  resend_wire-AllCapped o url delay j (err e) l h = h
  resend_wire-AllCapped o url delay j (ok w) l h =
      send_message-AllCapped o _ l (cap_seconds-IsCapped (to_int32 narrow (delay / 1000000000))) h

  retry_deleted-AllCapped :
      (o : Outcome) (url : String) (delay : ℕ) (j : Job) (r : Log Wire × Option Err)
      → AllCapped r.0
      → AllCapped (retry_deleted codec config narrow o url delay j r).0
  unfolding retry_deleted
  retry_deleted-AllCapped o url delay j (l, some e) h = h
  retry_deleted-AllCapped o url delay j (l, none) h =
      elim (Bool-cases (is_positive delay && ltb j.attempts j.max_attempts)) [
        | inl again ↦
            rw again (resend_wire-AllCapped o url delay (retried j) (marshal (retried j)) l h)
        | inr never ↦ rw never h
      ]

  at_receipt-AllCapped :
      (id : String) (receipt url : Option String)
      (act : String → String → Log Wire → Log Wire × Option Err) (l : Log Wire)
      → ((u r : String) → AllCapped (act u r l).0)
      → AllCapped l
      → AllCapped (at_receipt id receipt url act l).0
  unfolding at_receipt
  at_receipt-AllCapped id none url act l each h = h
  at_receipt-AllCapped id (some r) none act l each h = h
  at_receipt-AllCapped id (some r) (some u) act l each h = each u r

  mark_failed-AllCapped :
      (deletion sending : Outcome) (id : String) (delay : ℕ) (j : Job) (metadata : Fields)
      (l : Log Wire)
      → AllCapped l
      → AllCapped
          (mark_failed_with_metadata codec config narrow deletion sending id delay j metadata l).0
  unfolding mark_failed_with_metadata
  mark_failed-AllCapped deletion sending id delay j metadata l h =
      at_receipt-AllCapped id (text_at "sqs_receipt_handle" metadata)
        (text_at "sqs_queue_url" metadata) _ l
        (λ u r.
          retry_deleted-AllCapped sending u delay j (delete_message deletion u r l)
            (delete_message-AllCapped deletion u r l h))
        h

  -- Where all delays sent so far are at most 15 minutes, so are those that `Enqueue`, `EnqueueRaw`
  -- and `MarkFailedWithMetadata` send, for any schedule of the job and any delay asked for.
  pub sends-AllCapped :
      (c : SendCalls) (deletion sending : Outcome) (id : String) (delay : ℕ) (j : Job)
      (metadata : Fields) (l : Log Wire)
      → AllCapped l
      → AllCapped (enqueue narrow codec config c j l).0
        × AllCapped (enqueue_raw narrow codec config c j l).0
        × AllCapped
            (mark_failed_with_metadata codec config narrow deletion sending id delay j metadata l).0
  sends-AllCapped c deletion sending id delay j metadata l h = (
    enqueue-AllCapped c j l h,
    enqueue_raw-AllCapped c j l h,
    mark_failed-AllCapped deletion sending id delay j metadata l h,
  )
