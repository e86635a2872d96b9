-- ===== src/Tests/SqsTests.antt =====
-- Creation of jobs, and the two SQS components, at concrete inputs.
use service_platform.Prelude.{inl, ℕ, String, refl, none, some, [], ◌∷◌}
use service_platform.Prelude.Outcome.{text, done, refused, Result, ok, ℤ, pos}
use service_platform.Entity.{object, end, Job}
use service_platform.JobManager.{CreateJobRequest, CreateCalls, Backend, new_job, create_job}
use service_platform.JobManager.Create.{Created, create_job-Created}
use service_platform.Sqs.Message.{SqsMessage}
use service_platform.Sqs.Bridge.{handle_message}
use service_platform.Sqs.Config.{Config, default_config}
use service_platform.Sqs.Listener.{poll_messages, Message, Inbox, process_message}
use service_platform.Sqs.Listener.Deletes.{IsGone, process_message-IsGone}
use service_platform.Sqs.Listener.Polls.{AreGone, poll_messages-AreGone}
use service_platform.Sqs.Listener.Drops.{LeavesHandled, refused_event_lost}
use service_platform.Sqs.Queue.{SendCalls, Log, enqueue, enqueue_raw}
use service_platform.Sqs.Queue.Delays.{AllCapped, sends-AllCapped}
use service_platform.Sqs.Queue.Delivery.{
  Delivery, dequeue_urls, sqs_metadata, mark_failed_with_metadata,
}
use service_platform.Sqs.Queue.Receipts.{CarriesReceipt, dequeue_urls-CarriesReceipt}
use service_platform.Tests.Servers.{plain, at_time, empty_redis, claim}

abbrev claim_request : CreateJobRequest
claim_request = record {
  type = "init_claim";
  priority = pos 2;
  payload = some end;
  max_attempts = pos 0;
  scheduled_at = none;
}

abbrev accepted : CreateCalls
accepted = record { new_id = "job-7"; now = 1; insert = done; enqueue = at_time 2 }

abbrev queue_down : CreateCalls
queue_down = record accepted { enqueue = record { outcome = refused (text "EOF"); at = 2 } }

abbrev database_down : CreateCalls
database_down = record accepted { insert = refused (text "EOF") }

abbrev no_jobs : Backend Job
no_jobs = record { jobs = []; redis = empty_redis }

create_job-Created_example :
    Created plain accepted claim_request no_jobs
      (create_job plain accepted claim_request no_jobs).0
      (new_job accepted claim_request)
unfolding create_job service_platform.JobRepository.create service_platform.RedisQueue.enqueue
create_job-Created_example = create_job-Created plain accepted claim_request no_jobs refl

abbrev event : Message
event = record { message_id = some "m-1"; receipt_handle = "r-1"; body = "{}" }

abbrev inbox : Inbox (Backend Job)
inbox = record { messages = event ∷ []; handled = no_jobs }

abbrev reads_claim : String → Result SqsMessage
reads_claim body = ok (record { type = "claim"; payload = object end })

process_message-IsGone_example :
    IsGone "r-1"
      (process_message (handle_message plain database_down) reads_claim done "url" event inbox)
process_message-IsGone_example =
    process_message-IsGone (handle_message plain database_down) reads_claim "url" event inbox

refused_event_lost_example :
    IsGone "r-1"
      (process_message (handle_message plain database_down) reads_claim done "url" event inbox)
    × LeavesHandled no_jobs
        (process_message (handle_message plain database_down) reads_claim done "url" event inbox)
refused_event_lost_example =
    refused_event_lost plain database_down (text "EOF") reads_claim "url" event inbox refl

abbrev config : Config
config = record default_config { sqs_scheduled_job_queue = "https://sqs/claims" }

abbrev narrow : ℕ → ℤ
narrow n = pos 0

abbrev sending : SendCalls
sending = record { now = 0; until = 1; send = done }

abbrev empty_log : Log Job
empty_log = record { sent = []; deleted = [] }

-- A claim that is scheduled for an hour from the start of the clock.
abbrev late_claim : Job
late_claim = record claim { type = "init_claim"; scheduled_at = some 3600000000000 }

sends-AllCapped_example :
    AllCapped (enqueue narrow plain config sending late_claim empty_log).0
    × AllCapped (enqueue_raw narrow plain config sending late_claim empty_log).0
    × AllCapped
        (mark_failed_with_metadata plain config narrow done done "job-1" 1200000000000 late_claim
          (sqs_metadata "r-1" "https://sqs/claims")
          empty_log).0
sends-AllCapped_example =
    sends-AllCapped narrow plain config sending done done "job-1" 1200000000000 late_claim
      (sqs_metadata "r-1" "https://sqs/claims") empty_log tt

-- A server that delivers the given job from each queue.
abbrev delivers : Job → Delivery Job
delivers j = record {
  receive = λ url. ok (record { body = j; receipt_handle = "r-1" } ∷ []);
  delete = done;
}

dequeue_urls-CarriesReceipt_example :
    CarriesReceipt plain config "https://sqs/claims" "r-1" claim end
      (dequeue_urls plain config (delivers claim) ("" ∷ "https://sqs/claims" ∷ []) empty_log).1
dequeue_urls-CarriesReceipt_example =
    dequeue_urls-CarriesReceipt plain config (delivers claim) ("" ∷ []) "https://sqs/claims" []
      (record { body = claim; receipt_handle = "r-1" }) [] claim end empty_log (inl refl, tt) refl
      refl refl refl

poll_messages-AreGone_example : AreGone (event ∷ event ∷ []) (
    poll_messages
      (handle_message plain accepted)
      reads_claim
      (λ m. done)
      "url"
      (ok (event ∷ event ∷ []))
      inbox)
poll_messages-AreGone_example =
    poll_messages-AreGone (handle_message plain accepted) reads_claim "url" (event ∷ event ∷ [])
      inbox
