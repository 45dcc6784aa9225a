-- ===== src/Message.antt =====
-- The data of message.go: Message, SystemProperties and the message constructors. The operations
-- stand in the children: Properties (Set, ForeachKey, ScheduleAt), Disposition, LockToken, Tags
-- (encodeStructureToMap), ToAmqp (toMsg), FromAmqp (newMessage) and RoundTrip.
pub mod LockToken
pub mod Properties
pub mod Disposition
pub mod Carrier
pub mod Tags
pub mod SystemTags
pub mod ToAmqp
pub mod FromAmqp
pub mod RoundTrip
pub mod Inject
use azure_service_bus_go.Prelude.{ℕ, Option, none, List, String}
use azure_service_bus_go.Prelude.Int.{ℤ}
use azure_service_bus_go.Prelude.Dict.{Dict}
use azure_service_bus_go.Amqp.{AmqpMessage}
use azure_service_bus_go.Amqp.Dynamic.{Value, Bytes, Time}

-- int64 and int16 values are integers; a nil pointer is `none`.
pub record SystemProperties : Type 0 where
  pub locked_until : Option Time
  pub sequence_number : Option ℤ
  pub partition_id : Option ℤ
  pub partition_key : Option String
  pub enqueued_time : Option Time
  pub dead_letter_source : Option String
  pub scheduled_enqueue_time : Option Time
  pub enqueued_sequence_number : Option ℤ
  pub via_partition_key : Option String

-- Data, TTL and message are `payload`, `ttl` (in nanoseconds) and `message`.
pub record Message : Type 0 where
  pub content_type : String
  pub correlation_id : String
  pub payload : Bytes
  pub delivery_count : ℕ
  pub group_id : Option String
  pub group_sequence : Option ℕ
  pub id : String
  pub label : String
  pub reply_to : String
  pub reply_to_group_id : String
  pub to : String
  pub ttl : Option ℤ
  pub lock_token : Option Bytes
  pub system_properties : Option SystemProperties
  pub user_properties : Option (Dict Value)
  pub message : Option AmqpMessage

-- new(SystemProperties)
abbrev pub no_system_properties : SystemProperties
no_system_properties = record {
  locked_until = none;
  sequence_number = none;
  partition_id = none;
  partition_key = none;
  enqueued_time = none;
  dead_letter_source = none;
  scheduled_enqueue_time = none;
  enqueued_sequence_number = none;
  via_partition_key = none;
}

-- NewMessage: every other field has its zero value.
unfoldable pub new_message_of : Bytes → Message
new_message_of payload = record {
  content_type = "";
  correlation_id = "";
  payload = payload;
  delivery_count = 0;
  group_id = none;
  group_sequence = none;
  id = "";
  label = "";
  reply_to = "";
  reply_to_group_id = "";
  to = "";
  ttl = none;
  lock_token = none;
  system_properties = none;
  user_properties = none;
  message = none;
}
