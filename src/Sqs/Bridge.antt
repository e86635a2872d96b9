-- ===== src/Sqs/Bridge.antt =====
-- `JobManagerBridge` of app/pkg/sqs/listener.go: an event becomes a job of the job manager. The
-- call by reflection is the call of `CreateJob` that it makes.
use service_platform.Prelude.{String, Option, none, some, str_eq, if◌then◌else◌}
use service_platform.Prelude.Outcome.{Err, wrap, Result, ok, err, pos}
use service_platform.Constant.{init_claim, kyc_verification as kyc_verification_type}
use service_platform.Entity.{string, object, Fields, end, field, JobPayload, Job}
use service_platform.JobManager.{CreateJobRequest, CreateCalls, Backend, create_job}
use service_platform.RedisQueue.Server.{Codec}
use service_platform.Sqs.Message.{claim, kyc_verification, set_field}

-- An event type that has no job type passes through as it is.
unfoldable pub convert_event_type_to_job_type : String → String
convert_event_type_to_job_type e =
    if str_eq e claim
    then init_claim
    else if str_eq e kyc_verification
    then kyc_verification_type
    else e

abbrev copied : JobPayload → Fields
copied none = end
copied (some fs) = fs

-- The request that `HandleMessage` makes of an event.
unfoldable pub bridge_request : Job → CreateJobRequest
unfolding convert_event_type_to_job_type
bridge_request event = record {
  type = convert_event_type_to_job_type event.type;
  priority = event.priority;
  payload = some (
      set_field "_sqs_source"
        (object (
          field "original_event_type" (string event.type)
            (field "sqs_event_id" (string event.id) end)))
        (copied event.payload));
  max_attempts = pos event.max_attempts;
  scheduled_at = none;
}

abbrev pub bridge_error : Result Job → Option Err
bridge_error (ok j) = none
bridge_error (err e) = some (wrap "failed to create job via job manager: " e)

module _ (codec : Codec) where
  unfoldable pub handle_message :
      CreateCalls → Job → Backend codec.Wire → Backend codec.Wire × Option Err
  handle_message c event b =
      let (b', result) = create_job codec c (bridge_request event) b in (b', bridge_error result)
