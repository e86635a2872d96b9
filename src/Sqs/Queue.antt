-- ===== src/Sqs/Queue.antt =====
-- app/pkg/sqs/queue.go: SQS as a job queue. What the program has sent and deleted is the state; what
-- the server delivers and answers are arguments. The decimal texts among a message's attributes
-- are kept as the numbers.
pub mod Delivery
pub mod Depth
pub mod Delays
pub mod Receipts
use Prim.Native.String.{◌++◌ as append}
use service_platform.Prelude.{
  ℕ, zero, suc, ◌+◌, ◌-◌, ◌/◌, ◌^◌, String, Bool, true, false, ◌&&◌, ◌||◌, Option, none, some, List,
  [], ◌∷◌, ltb, str_eq, if◌then◌else◌, map, Assoc,
}
use service_platform.Prelude.Outcome.{
  Err, text, wrap, Outcome, effect, failure, Result, ok, err, ℤ, pos, negsuc,
}
use service_platform.Constant.{init_claim, complete_claim, priority_text, retrying}
use service_platform.Entity.{Json, string, object, Fields, end, field, JobPayload, Job}
use service_platform.RedisQueue.{is_positive}
use service_platform.RedisQueue.Server.{Codec}
use service_platform.Sqs.Config.{Config}
use service_platform.Sqs.Listener.{Attempt, returns, fails, panics}
use service_platform.Sqs.Message.{set_field, get_field}

pub record Attributes : Type 0 where
  pub job_id : String
  pub job_type : String
  pub priority : String
  pub attempts : ℕ
  pub max_attempts : ℕ
  pub extra : List (String × String)

pub record Sent (W : Type 0) : Type 0 where
  pub queue_url : String
  pub body : W
  pub delay_seconds : Option ℤ
  pub attributes : Attributes

-- The newest message sent, and the newest deletion (of a receipt in a queue), come first.
pub record Log (W : Type 0) : Type 0 where
  pub sent : List (Sent W)
  pub deleted : List (String × String)

pub record Received (W : Type 0) : Type 0 where
  pub body : W
  pub receipt_handle : String

-- `getQueueURLByJobType`; the empty text says that there is no queue.
unfoldable pub get_queue_url_by_job_type : Config → String → String
get_queue_url_by_job_type c type =
    if str_eq type init_claim || str_eq type complete_claim then c.sqs_scheduled_job_queue else ""

unfoldable pub get_queue_url_from_name : Config → String → String
get_queue_url_from_name c name = if str_eq name "claim" then c.sqs_scheduled_job_queue else ""

unfoldable pub get_queue_urls_from_names : Config → List String → List String
unfolding get_queue_url_from_name
get_queue_urls_from_names c names = map (get_queue_url_from_name c) names

abbrev pub attributes_of : Job → List (String × String) → Attributes
attributes_of j extra = record {
  job_id = j.id;
  job_type = j.type;
  priority = priority_text j.priority;
  attempts = j.attempts;
  max_attempts = j.max_attempts;
  extra = extra;
}

-- `if delaySeconds > 900 { delaySeconds = 900 }`
unfoldable pub cap_seconds : ℤ → ℤ
cap_seconds (pos n) = if ltb 900 n then pos 900 else pos n
cap_seconds (negsuc n) = negsuc n

abbrev pub negated : ℕ → ℤ
negated zero = pos 0
negated (suc n) = negsuc n

-- The two readings of the clock and the server's answer while a job is sent.
pub record SendCalls : Type 0 where
  pub now : ℕ
  pub until : ℕ
  pub send : Outcome

module _ {W : Type 0} where
  unfoldable pub send_message : Outcome → Sent W → Log W → Log W × Option Err
  send_message o m l = (effect o (λ k. record k { sent = m ∷ k.sent }) l, failure o)

  unfoldable pub delete_message : Outcome → String → String → Log W → Log W × Option Err
  delete_message o url receipt l =
      (effect o (λ k. record k { deleted = (url, receipt) ∷ k.deleted }) l, failure o)

-- `narrow` is what a conversion to `int32` gives for seconds from 2 ^ 31 on.
module _ (narrow : ℕ → ℤ) where
  unfoldable pub to_int32 : ℕ → ℤ
  to_int32 n = if ltb n (2 ^ 31) then pos n else narrow n

  -- `int32(time.Until(t).Seconds())`, with the cap: the seconds until `t`, rounded towards zero.
  unfoldable pub delay_until : ℕ → ℕ → ℤ
  unfolding to_int32 cap_seconds
  delay_until t now =
      if ltb t now
      then negated ((now - t) / 1000000000)
      else cap_seconds (to_int32 ((t - now) / 1000000000))

  -- The delay of a job that is scheduled for later.
  unfoldable pub schedule_delay : SendCalls → Option ℕ → Option ℤ
  unfolding delay_until
  schedule_delay c none = none
  schedule_delay c (some t) = if ltb c.now t then some (delay_until t c.until) else none

  module _ (codec : Codec) (config : Config) where
    open codec use {Wire, marshal, unmarshal}

    unfoldable pub send_job :
        SendCalls
        → String
        → String
        → List (String × String)
        → Job
        → Result Wire
        → Log Wire
        → Log Wire × Option Err
    unfolding schedule_delay send_message
    send_job c prefix url extra j (err e) l = (l, some (wrap "failed to marshal job: " e))
    send_job c prefix url extra j (ok w) l =
        let (l', failed) =
          send_message c.send
            (record {
              queue_url = url;
              body = w;
              delay_seconds = schedule_delay c j.scheduled_at;
              attributes = attributes_of j extra;
            })
            l in
        (l', elim failed [ none ↦ none | some e ↦ some (wrap prefix e) ])

    unfoldable pub enqueue : SendCalls → Job → Log Wire → Log Wire × Option Err
    unfolding send_job get_queue_url_by_job_type
    enqueue c j l =
        let url = get_queue_url_by_job_type config j.type in
        if str_eq url ""
        then (l, some (text (append "no queue URL configured for job type " j.type)))
        else send_job c "failed to enqueue job: " url [] j (marshal j) l

    unfoldable pub enqueue_raw : SendCalls → Job → Log Wire → Log Wire × Option Err
    unfolding send_job get_queue_url_by_job_type
    enqueue_raw c j l =
        let url = get_queue_url_by_job_type config j.type in
        if str_eq url ""
        then (l, some (text (append "no SQS queue configured for job type: " j.type)))
        else send_job c "failed to send raw message to SQS: " url (("Source", "external") ∷ []) j
            (marshal j) l
