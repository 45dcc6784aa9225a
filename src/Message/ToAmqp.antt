-- ===== src/Message/ToAmqp.antt =====
-- toMsg and annotationsFromMap of message.go. `new_amqp_message` is amqp.NewMessage. A message
-- that came from an amqp message is written back into that one, so toMsg returns the message, too.
use mathlib.Core.Option.{get_or}
use azure_service_bus_go.Prelude.{ltb, Option, none, some, [], length, if◌then◌else◌, String}
use azure_service_bus_go.Prelude.Int.{pos}
use azure_service_bus_go.Prelude.Dict.{Dict, insert, copy_onto}
use azure_service_bus_go.Amqp.{AmqpMessage, Properties, Header}
use azure_service_bus_go.Amqp.Dynamic.{Value, Bytes, str, uuid}
use azure_service_bus_go.Errors.{Exec, ok, ◌>>=◌}
use azure_service_bus_go.Message.{Message, SystemProperties}
use azure_service_bus_go.Message.Properties.{map_of}
use azure_service_bus_go.Message.Tags.{encode_structure_to_map, struct_of, system_properties_fields}

abbrev pub lock_token_name : String
lock_token_name = "x-opt-lock-token"

-- `a[key] = val` for each entry
unfoldable pub annotations_from_map : Dict Value → Dict Value
annotations_from_map m = copy_onto (λ v. v) m []

-- The properties of the wire message. A nil group leaves the zero value of its field.
unfoldable pub properties_of : Message → Properties
properties_of m = record {
  message_id = str m.id;
  correlation_id = str m.correlation_id;
  group_id = get_or m.group_id "";
  group_sequence = get_or m.group_sequence 0;
  content_type = m.content_type;
  subject = m.label;
  to = m.to;
  reply_to = m.reply_to;
  reply_to_group_id = m.reply_to_group_id;
}

with_user_properties : Option (Dict Value) → AmqpMessage → AmqpMessage
with_user_properties m a =
    if ltb 0 (length (map_of m))
    then record a { application_properties = some (copy_onto (λ v. v) (map_of m) []) }
    else a

with_annotations : Option SystemProperties → AmqpMessage → Exec AmqpMessage
unfolding annotations_from_map
with_annotations none a = ok a
with_annotations (some p) a =
    encode_structure_to_map (struct_of (system_properties_fields p))
    >>= (λ m. ok (record a { annotations = some (annotations_from_map m) }))

with_lock_token : Option Bytes → AmqpMessage → AmqpMessage
with_lock_token none a = a
with_lock_token (some token) a = record a {
  delivery_annotations = some (insert lock_token_name (uuid token) (map_of a.delivery_annotations));
}

-- new(amqp.MessageHeader)
abbrev pub new_header : Header
new_header = record { ttl = pos 0; delivery_count = 0 }

with_ttl : Message → AmqpMessage → AmqpMessage
with_ttl m a = elim m.ttl [
  | none ↦ a
  | some ttl ↦ record a { header = some (record (get_or a.header new_header) { ttl = ttl }) }
]

-- The writes before the one step that can fail, and those after it.
unfoldable pub write_properties : Message → AmqpMessage → AmqpMessage
unfolding properties_of with_user_properties
write_properties m a =
    with_user_properties m.user_properties (record a { properties = some (properties_of m) })

unfoldable pub write_delivery : Message → AmqpMessage → AmqpMessage
unfolding with_lock_token with_ttl
write_delivery m a = with_ttl m (with_lock_token m.lock_token a)

unfoldable pub annotate : Message → AmqpMessage → Exec AmqpMessage
unfolding with_annotations
annotate m a = with_annotations m.system_properties a

-- The message after the writes to the amqp message that it holds, if it holds one.
written_back : Message → AmqpMessage → Message
written_back m a = elim m.message [ none ↦ m | some _ ↦ record m { message = some a } ]

module _ (new_amqp_message : Bytes → AmqpMessage) where
  unfoldable pub to_msg : Message → Message × Exec AmqpMessage
  unfolding written_back
  to_msg m =
      let base : AmqpMessage = elim m.message [ none ↦ new_amqp_message m.payload | some a ↦ a ] in
      let started = write_properties m base in
      elim (annotate m started) [
        | ok a ↦ (written_back m (write_delivery m a), ok (write_delivery m a))
        | Exec.err e ↦ (written_back m started, Exec.err e)
        | Exec.panic x ↦ (written_back m started, Exec.panic x)
        | Exec.blocked ↦ (written_back m started, Exec.blocked)
      ]
