-- ===== src/Message/FromAmqp.antt =====
-- messageFromAMQPMessage and newMessage of message.go. `decode` is mapstructure.Decode into
-- `&msg.SystemProperties`: what stands in the field afterwards, and the error or nil.
use azure_service_bus_go.Prelude.{
  ltb, ◌+◌, ◌%◌, ◌^◌, ◌≡◌, Bool, true, false, arith, String, Option, none, some, [], ◌∷◌, length,
  get_elem?, if◌then◌else◌,
}
use azure_service_bus_go.Prelude.Dict.{Dict, copy_onto}
use azure_service_bus_go.Amqp.{AmqpMessage, Properties, Header}
use azure_service_bus_go.Amqp.Dynamic.{Value, Bytes}
use azure_service_bus_go.Errors.{Error, Exec, ok, deref, at_index, ◌>>=◌}
use azure_service_bus_go.Message.{Message, SystemProperties, new_message_of}
use azure_service_bus_go.Message.Properties.{as_text}
use azure_service_bus_go.Message.LockToken.{lock_token_from_message_tag, tag_of}

-- `if id, ok := v.(string); ok { field = id }`
abbrev pub text_or : String → Value → String
text_or old v = elim (as_text v) [ none ↦ old | some s ↦ s ]

-- The block under `amqpMsg.Properties != nil`, which reads the header without a test.
read_properties : Properties → Header → Message → Message
read_properties p h m = record m {
  id = text_or m.id p.message_id;
  group_id = some p.group_id;
  group_sequence = some p.group_sequence;
  correlation_id = text_or m.correlation_id p.correlation_id;
  content_type = p.content_type;
  label = p.subject;
  to = p.to;
  reply_to = p.reply_to;
  reply_to_group_id = p.reply_to_group_id;
  delivery_count = (h.delivery_count + 1) % 2 ^ 32;
  ttl = some h.ttl;
}

with_properties : AmqpMessage → Message → Exec Message
unfolding read_properties
with_properties a m = elim a.properties [
  | none ↦ ok m
  | some p ↦ deref a.header >>= (λ h. ok (read_properties p h m))
]

with_application_properties : AmqpMessage → Message → Message
with_application_properties a m = elim a.application_properties [
  | none ↦ m
  | some props ↦ record m { user_properties = some (copy_onto (λ v. v) props []) }
]

-- The lock token, where there is a delivery tag. (Its translation returns a token or an error.)
read_lock_token : AmqpMessage → Message → Message × Option Error
read_lock_token a m =
    if ltb 0 (length (tag_of a.delivery_tag))
    then elim (lock_token_from_message_tag a) [
      | ok token ↦ (record m { lock_token = some token }, none)
      | Exec.err e ↦ (m, some e)
      | _ ↦ (m, none)
    ]
    else (m, none)

module _ (decode : Dict Value → Option SystemProperties × Option Error) where
  with_system_properties : AmqpMessage → Message → Message × Option Error
  unfolding read_lock_token
  with_system_properties a m = elim a.annotations [
    | none ↦ read_lock_token a m
    | some annotations ↦
        let (p, e) = decode annotations in
        let m' = record m { system_properties = p } in
        elim e [ some x ↦ (m', some x) | none ↦ read_lock_token a m' ]
  ]

  unfoldable pub new_message : Bytes → Option AmqpMessage → Exec (Message × Option Error)
  unfolding with_properties with_application_properties with_system_properties new_message_of
  new_message payload none = ok (new_message_of payload, none)
  new_message payload (some a) =
      with_properties a (record (new_message_of payload) { message = some a })
      >>= (λ m. ok (with_system_properties a (with_application_properties a m)))

  -- `msg.Data[0]` panics on a message without data.
  unfoldable pub message_from_amqp_message : AmqpMessage → Exec (Message × Option Error)
  unfolding new_message
  message_from_amqp_message a =
      at_index (get_elem? a.payload 0) >>= (λ payload. new_message payload (some a))

-- There is data, and there is a header where there are properties.
abbrev pub is_readable : AmqpMessage → Bool
is_readable a = elim a.payload [
  | [] ↦ false
  | _ ∷ _ ↦ elim a.properties [
    | none ↦ true
    | some _ ↦ elim a.header [ none ↦ false | some _ ↦ true ]
  ]
]

-- Whether a call returns to its caller.
abbrev pub returns {ℓ} : {A : Type ℓ} → Exec A → Bool
returns (ok a) = true
returns (Exec.err e) = true
returns (Exec.panic x) = false
returns Exec.blocked = false

-- An amqp message is read without a panic exactly when it has data and, if it has properties, also
-- has a header.
pub message_from_amqp_message-is_readable :
    (decode : Dict Value → Option SystemProperties × Option Error) (a : AmqpMessage)
    → returns (message_from_amqp_message decode a) ≡ is_readable a
unfolding message_from_amqp_message
message_from_amqp_message-is_readable decode a = ground arith
