-- ===== src/Sqs/Client.antt =====
-- app/pkg/sqs/client.go: the requests that the program makes of SQS. The AWS client is an argument:
-- what it does to a state of the server, and what it answers, on a request. Texts and fields that a
-- request does not set are none; `DelaySeconds`, which is a number there, is 0 then.
use Prim.Native.String.{String}
use service_platform.Prelude.{ℕ, Option, none, some, List, [], ◌∷◌, map, Assoc}
use service_platform.Prelude.Outcome.{Err, Result, ℤ, pos}
use service_platform.Sqs.Config.{Config}
use service_platform.Sqs.Queue.{to_int32}

pub record MessageAttributeValue : Type 0 where
  pub data_type : String
  pub string_value : String

pub record SendMessageInput : Type 0 where
  pub queue_url : String
  pub message_body : String
  pub delay_seconds : ℤ
  pub message_attributes : Option (Assoc MessageAttributeValue)

pub record ReceiveMessageInput : Type 0 where
  pub queue_url : String
  pub max_number_of_messages : ℤ
  pub wait_time_seconds : ℤ
  pub visibility_timeout : ℤ
  pub message_attribute_names : List String

pub record DeleteMessageInput : Type 0 where
  pub queue_url : String
  pub receipt_handle : String

pub record ChangeMessageVisibilityInput : Type 0 where
  pub queue_url : String
  pub receipt_handle : String
  pub visibility_timeout : ℤ

pub record GetQueueAttributesInput : Type 0 where
  pub queue_url : String
  pub attribute_names : List String

pub record CreateQueueInput : Type 0 where
  pub queue_name : String
  pub attributes : Option (Assoc String)

-- The operations of the AWS client. Of a message that was sent, and of a queue that was made, the
-- program keeps what the server answers as it is.
pub record Api (S : Type 0) : Type 1 where
  pub SendMessageOutput : Type 0
  pub ReceiveMessageOutput : Type 0
  pub CreateQueueOutput : Type 0
  pub send_message : SendMessageInput → S → S × Result SendMessageOutput
  pub receive_message : ReceiveMessageInput → S → S × Result ReceiveMessageOutput
  pub delete_message : DeleteMessageInput → S → S × Option Err
  pub change_message_visibility : ChangeMessageVisibilityInput → S → S × Option Err
  pub get_queue_attributes : GetQueueAttributesInput → S → Result (Assoc String)
  pub create_queue : CreateQueueInput → S → S × Result CreateQueueOutput
  pub delete_queue : String → S → S × Option Err

abbrev attribute_value : String × String → String × MessageAttributeValue
attribute_value e = (e.0, record { data_type = "String"; string_value = e.1 })

-- Attributes are set if there are any.
unfoldable pub message_attributes : Assoc String → Option (Assoc MessageAttributeValue)
message_attributes [] = none
message_attributes (e ∷ es) = some (map attribute_value (e ∷ es))

unfoldable pub queue_attributes : Assoc String → Option (Assoc String)
queue_attributes [] = none
queue_attributes (e ∷ es) = some (e ∷ es)

module _ {S : Type 0} (api : Api S) where
  open api use {SendMessageOutput, ReceiveMessageOutput, CreateQueueOutput}

  unfoldable pub send_message : String → String → Assoc String → S → S × Result SendMessageOutput
  unfolding message_attributes
  send_message url body attributes = api.send_message (record {
    queue_url = url;
    message_body = body;
    delay_seconds = pos 0;
    message_attributes = message_attributes attributes;
  })

  unfoldable pub send_delayed_message :
      String → String → ℤ → Assoc String → S → S × Result SendMessageOutput
  unfolding message_attributes
  send_delayed_message url body delay attributes = api.send_message (record {
    queue_url = url;
    message_body = body;
    delay_seconds = delay;
    message_attributes = message_attributes attributes;
  })

  -- `narrow` is what a conversion to `int32` gives for a number from 2 ^ 31 on.
  unfoldable pub receive_messages : (ℕ → ℤ) → Config → String → S → S × Result ReceiveMessageOutput
  unfolding to_int32
  receive_messages narrow config url = api.receive_message (record {
    queue_url = url;
    max_number_of_messages = to_int32 narrow config.polling.max_messages;
    wait_time_seconds = to_int32 narrow config.polling.wait_time_seconds;
    visibility_timeout = to_int32 narrow config.polling.visibility_timeout_seconds;
    message_attribute_names = "All" ∷ [];
  })

  unfoldable pub delete_message : String → String → S → S × Option Err
  delete_message url receipt =
      api.delete_message (record { queue_url = url; receipt_handle = receipt })

  unfoldable pub change_message_visibility : String → String → ℤ → S → S × Option Err
  change_message_visibility url receipt timeout =
      api.change_message_visibility
        (record { queue_url = url; receipt_handle = receipt; visibility_timeout = timeout })

  unfoldable pub get_queue_attributes : String → List String → S → Result (Assoc String)
  get_queue_attributes url names =
      api.get_queue_attributes (record { queue_url = url; attribute_names = names })

  unfoldable pub create_queue : String → Assoc String → S → S × Result CreateQueueOutput
  unfolding queue_attributes
  create_queue name attributes =
      api.create_queue (record { queue_name = name; attributes = queue_attributes attributes })

  unfoldable pub delete_queue : String → S → S × Option Err
  delete_queue url = api.delete_queue url
