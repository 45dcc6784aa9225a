-- ===== src/Message/RoundTrip.antt =====
-- A message that is written by toMsg and read by newMessage (message.go).
use mathlib.Core.Option
use mathlib.Core.Option.{get_or}
use azure_service_bus_go.Prelude.{
  ◌≡◌, refl, ◌∙◌, Option, none, some, [], ◌∷◌, arith, Option-cases, inl, inr,
}
use azure_service_bus_go.Prelude.Int.{ℤ}
use azure_service_bus_go.Prelude.Dict.{Dict, NodupKeys, map_values, copy_onto, copy_onto-nil}
use azure_service_bus_go.Amqp.{AmqpMessage}
use azure_service_bus_go.Amqp.Dynamic.{Value, Bytes, null}
use azure_service_bus_go.Errors.{Error, ok}
use azure_service_bus_go.Message.{Message, SystemProperties}
use azure_service_bus_go.Message.Properties.{map_of}
use azure_service_bus_go.Message.SystemTags.{
  TagsOf, annotations_of, annotations_of-NodupKeys, encode-eq-annotations_of, annotations_of-TagsOf,
}
use azure_service_bus_go.Message.ToAmqp.{
  to_msg, write_properties, write_delivery, annotate, annotations_from_map,
}
use azure_service_bus_go.Message.FromAmqp.{message_from_amqp_message}

-- amqp.NewMessage: a message with the data as its payload, and nothing else.
abbrev pub payload_only : Bytes → AmqpMessage
payload_only b = record {
  payload = b ∷ [];
  value = null;
  header = none;
  properties = none;
  application_properties = none;
  annotations = none;
  delivery_annotations = none;
  delivery_tag = none;
}

-- An empty map of user properties is not sent, and so comes back as nil.
abbrev pub sent_properties : Option (Dict Value) → Option (Dict Value)
sent_properties (some (entry ∷ m)) = some (entry ∷ m)
sent_properties _ = none

-- What comes back for `m`, which was sent as `a` with the time to live `ttl`.
abbrev pub received : Message → AmqpMessage → ℤ → Message
received m a ttl = record m {
  delivery_count = 1;
  group_id = some (get_or m.group_id "");
  group_sequence = some (get_or m.group_sequence 0);
  ttl = some ttl;
  lock_token = none;
  user_properties = sent_properties m.user_properties;
  message = some a;
}

map_values_id : (m : Dict Value) → map_values (λ v. v) m ≡ m
map_values_id [] = refl
map_values_id ((k, v) ∷ m) = rw (map_values_id m)

copy_onto_id : (m : Dict Value) → NodupKeys m → copy_onto (λ v. v) m [] ≡ m
copy_onto_id m h = copy_onto-nil (λ v. v) m h ∙ map_values_id m

annotations_from_map_id :
    (p : SystemProperties) → annotations_from_map (annotations_of p) ≡ annotations_of p
unfolding annotations_from_map
annotations_from_map_id p = copy_onto_id (annotations_of p) (annotations_of-NodupKeys p)

-- The wire message of a new message.
abbrev sent : Message → AmqpMessage
sent m = write_delivery m (record (write_properties m (payload_only m.payload)) {
  annotations = Option.map annotations_of m.system_properties;
})

annotate-write_properties :
    (m : Message)
    → annotate m (write_properties m (payload_only m.payload))
      ≡ ok (record (write_properties m (payload_only m.payload)) {
        annotations = Option.map annotations_of m.system_properties;
      })
unfolding annotate write_properties
annotate-write_properties m = elim (Option-cases m.system_properties) [
  | inl e ↦ ground arith
  | inr (p, e) ↦ ground (arith, encode-eq-annotations_of p, annotations_from_map_id p)
]

to_msg-eq-sent :
    (new_amqp_message : Bytes → AmqpMessage) (m : Message)
    → ((b : Bytes) → new_amqp_message b ≡ payload_only b)
    → m.message ≡ none
    → to_msg new_amqp_message m ≡ (m, ok (sent m))
unfolding to_msg
to_msg-eq-sent new_amqp_message m lawful fresh =
    ground (arith, lawful m.payload, annotate-write_properties m)

module _ (new_amqp_message : Bytes → AmqpMessage)
    (new_amqp_message_lem : (b : Bytes) → new_amqp_message b ≡ payload_only b)
    (decode : Dict Value → Option SystemProperties × Option Error)
    (decode_lem : (d : Dict Value) (p : SystemProperties)
      → TagsOf d p
      → decode d ≡ (some p, none)) where
  read_sent :
      (m : Message) (ttl : ℤ)
      → m.message ≡ none
      → m.ttl ≡ some ttl
      → NodupKeys (map_of m.user_properties)
      → message_from_amqp_message decode (sent m) ≡ ok (received m (sent m) ttl, none)
  unfolding message_from_amqp_message write_delivery write_properties
  read_sent m ttl fresh timed h = elim (Option-cases m.system_properties) [
    | inl e ↦ ground (arith, copy_onto_id (map_of m.user_properties) h)
    | inr (p, e) ↦ ground (
      arith,
      decode_lem (annotations_of p) p (annotations_of-TagsOf p),
      copy_onto_id (map_of m.user_properties) h,
    )
  ]

  -- Round trip: a message that holds no amqp message, with a time to live and distinct keys of user
  -- properties, is written without error and without a change to itself, and the wire message reads
  -- back as the same message, but for these fields: the delivery count is 1, a nil group has become
  -- an empty group with sequence 0, an empty map of user properties has become nil, and there is no
  -- lock token, since that comes from the delivery tag.
  pub message_from_amqp_message-to_msg :
      (m : Message) (ttl : ℤ)
      → m.message ≡ none
      → m.ttl ≡ some ttl
      → NodupKeys (map_of m.user_properties)
      → (a : AmqpMessage) × (to_msg new_amqp_message m ≡ (m, ok a))
        × (message_from_amqp_message decode a ≡ ok (received m a ttl, none))
  message_from_amqp_message-to_msg m ttl fresh timed h = (
    sent m,
    to_msg-eq-sent new_amqp_message m new_amqp_message_lem fresh,
    read_sent m ttl fresh timed h,
  )
