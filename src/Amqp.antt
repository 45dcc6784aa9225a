-- ===== src/Amqp.antt =====
-- What the code sees of pack.ag/amqp: the fields of its structs that message.go, iterator.go and
-- sender.go read and write, and the calls that leave the repository, as a parameter.
pub mod Dynamic
use azure_service_bus_go.Prelude.{ℕ, Option, List, String}
use azure_service_bus_go.Prelude.Int.{ℤ}
use azure_service_bus_go.Prelude.Dict.{Dict}
use Dynamic.{Value, Bytes}

-- amqp.MessageHeader: the time to live in nanoseconds, and a uint32.
pub record Header : Type 0 where
  pub ttl : ℤ
  pub delivery_count : ℕ

-- amqp.MessageProperties. The two identifiers are of type interface{}.
pub record Properties : Type 0 where
  pub message_id : Value
  pub correlation_id : Value
  pub group_id : String
  pub group_sequence : ℕ
  pub content_type : String
  pub subject : String
  pub to : String
  pub reply_to : String
  pub reply_to_group_id : String

-- amqp.Message. A nil pointer or map is `none`.
pub record AmqpMessage : Type 0 where
  pub payload : List Bytes
  pub value : Value
  pub header : Option Header
  pub properties : Option Properties
  pub application_properties : Option (Dict Value)
  pub annotations : Option (Dict Value)
  pub delivery_annotations : Option (Dict Value)
  pub delivery_tag : Option Bytes
