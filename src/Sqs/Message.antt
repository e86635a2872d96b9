-- ===== src/Sqs/Message.antt =====
-- app/pkg/sqs/event_types.go and message.go: the types of events, and the message that carries one.
-- The payload is kept as the JSON value that was received; `null` is Go's `nil`.
use service_platform.Prelude.{
  String, Bool, true, false, ◌||◌, Option, none, some, List, [], ◌∷◌, str_eq, if◌then◌else◌,
}
use service_platform.Prelude.Outcome.{Err, text, wrap, Result, ok, err}
use service_platform.Entity.{
  Json, null, bool, number, string, array, object, Fields, end, field, JobPayload,
}

abbrev pub claim : String
claim = "claim"

abbrev pub kyc_verification : String
kyc_verification = "kyc.verification"

-- `EventType.IsValid`
unfoldable pub is_valid : String → Bool
is_valid e = str_eq e claim || str_eq e kyc_verification

unfoldable pub get_all_event_types : List String
get_all_event_types = claim ∷ kyc_verification ∷ []

pub record SqsMessage : Type 0 where
  pub type : String
  pub payload : Json

-- `m[k] = v` on a map that is not `nil`.
unfoldable pub set_field : String → Json → Fields → Fields
set_field k v end = field k v end
set_field k v (field j w fs) =
    let rest = set_field k v fs in if str_eq j k then field k v fs else field j w rest

unfoldable pub get_field : String → Fields → Option Json
get_field k end = none
get_field k (field j w fs) = if str_eq j k then some w else get_field k fs

cannot_unmarshal : String → Result JobPayload
cannot_unmarshal kind = err (wrap "failed to unmarshal payload: " (text kind))

-- `convertPayloadToMap`: only an object, or null, decodes into a map.
unfoldable pub convert_payload_to_map : Json → Result JobPayload
unfolding cannot_unmarshal
convert_payload_to_map null = ok none
convert_payload_to_map (object fs) = ok (some fs)
convert_payload_to_map (bool b) =
    cannot_unmarshal "json: cannot unmarshal bool into Go value of type map[string]interface {}"
convert_payload_to_map (number n) =
    cannot_unmarshal "json: cannot unmarshal number into Go value of type map[string]interface {}"
convert_payload_to_map (string s) =
    cannot_unmarshal "json: cannot unmarshal string into Go value of type map[string]interface {}"
convert_payload_to_map (array xs) =
    cannot_unmarshal "json: cannot unmarshal array into Go value of type map[string]interface {}"

abbrev is_nil : Json → Bool
is_nil null = true
is_nil _ = false

-- `validateMessage`
unfoldable pub validate_message : SqsMessage → Option Err
validate_message m =
    if str_eq m.type ""
    then some (text "message missing required 'type' field")
    else if is_nil m.payload
    then some (text "message missing required 'payload' field")
    else none
