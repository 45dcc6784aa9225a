-- ===== src/Tests/Message.antt =====
-- message.go at concrete data.
use mathlib.Core.Option
use azure_service_bus_go.Prelude.{
  ◌≡◌, refl, Option, none, some, [], ◌∷◌, String, length, suc, get_elem?, arith, str_eq,
  if◌then◌else◌, ℕ, ◌∙◌, ap,
}
use azure_service_bus_go.Prelude.Int.{ℤ, pos}
use azure_service_bus_go.Prelude.Dict.{Dict, lookup}
use azure_service_bus_go.Amqp.{AmqpMessage}
use azure_service_bus_go.Amqp.Dynamic.{Value, Bytes, str, int16, int64, time, uint, Time, utc}
use azure_service_bus_go.Errors.{Error, ok, plain}
use azure_service_bus_go.Message.{Message, SystemProperties, no_system_properties}
use azure_service_bus_go.Message.LockToken.{
  lock_token_from_message_tag, guid_index, lock_token_from_message_tag_ok, lock_token-involutive,
}
use azure_service_bus_go.Message.Tags.{encode_structure_to_map, struct_of, system_properties_fields}
use azure_service_bus_go.Message.SystemTags.{TagsOf, encode_structure_to_map-TagsOf}
use azure_service_bus_go.Message.ToAmqp.{to_msg}
use azure_service_bus_go.Message.FromAmqp.{
  message_from_amqp_message, returns, is_readable, message_from_amqp_message-is_readable,
}
use azure_service_bus_go.Message.RoundTrip.{
  payload_only, received, message_from_amqp_message-to_msg,
}

abbrev tag : Bytes
tag = 1 ∷ 2 ∷ 3 ∷ 4 ∷ 5 ∷ 6 ∷ 7 ∷ 8 ∷ 9 ∷ 10 ∷ 11 ∷ 12 ∷ 13 ∷ 14 ∷ 15 ∷ 16 ∷ []

abbrev token : Bytes
token = 4 ∷ 3 ∷ 2 ∷ 1 ∷ 6 ∷ 5 ∷ 8 ∷ 7 ∷ 9 ∷ 10 ∷ 11 ∷ 12 ∷ 13 ∷ 14 ∷ 15 ∷ 16 ∷ []

abbrev delivered : Option Bytes → AmqpMessage
delivered t = record (payload_only (104 ∷ [])) { delivery_tag = t }

tag_to_token : lock_token_from_message_tag (delivered (some tag)) ≡ ok token
unfolding lock_token_from_message_tag
tag_to_token = refl

lock_token_from_message_tag_ok_example :
    (t : Bytes) × (lock_token_from_message_tag (delivered (some tag)) ≡ ok t)
    × (length t ≡ 16)
    × ((k : ℕ) → get_elem? t k ≡ get_elem? tag (guid_index k))
lock_token_from_message_tag_ok_example =
    lock_token_from_message_tag_ok (delivered (some tag)) tag refl refl

lock_token-involutive_example : lock_token_from_message_tag (delivered (some token)) ≡ ok tag
lock_token-involutive_example = lock_token-involutive (delivered (some tag)) token tag_to_token

abbrev pub greeting : Message
greeting = record {
  content_type = "text/plain";
  correlation_id = "c-9";
  payload = 104 ∷ 105 ∷ [];
  delivery_count = 0;
  group_id = some "s";
  group_sequence = some 4;
  id = "m-1";
  label = "hi";
  reply_to = "";
  reply_to_group_id = "";
  to = "";
  ttl = some (pos 30);
  lock_token = none;
  system_properties = some (record no_system_properties {
    sequence_number = some (pos 7);
    partition_key = some "p";
    enqueued_time = some (record { nanos = pos 5; location = utc });
  });
  user_properties = some (("a", str "1") ∷ ("b", str "2") ∷ []);
  message = none;
}

-- A handler that counts entries, and fails at "b".
abbrev count_to_b : ℕ → String → String → ℕ × Option Error
count_to_b n k v = (suc n, if str_eq k "b" then some (plain "stop") else none)

abbrev mixed : Message
mixed = record greeting { user_properties = some (("a", str "1") ∷ ("n", uint 3) ∷ []) }

abbrev seen : SystemProperties
seen = record no_system_properties { sequence_number = some (pos 7); partition_key = some "p" }

encode_structure_to_map-TagsOf_example :
    (m : Dict Value) × (encode_structure_to_map (struct_of (system_properties_fields seen)) ≡ ok m)
    × TagsOf m seen
    × (lookup "x-opt-other" m ≡ none)
encode_structure_to_map-TagsOf_example =
    encode_structure_to_map-TagsOf seen "x-opt-other"
      (refl, (refl, (refl, (refl, (refl, (refl, (refl, (refl, (refl, tt)))))))))

-- A decoder that reads each field by its tag.
abbrev pub as_int64 : Value → Option ℤ
as_int64 (int64 n) = some n
as_int64 _ = none

abbrev as_int16 : Value → Option ℤ
as_int16 (int16 n) = some n
as_int16 _ = none

abbrev as_time : Value → Option Time
as_time (time t) = some t
as_time _ = none

abbrev as_string : Value → Option String
as_string (str s) = some s
as_string _ = none

abbrev read : {A : Type 0} → (Value → Option A) → Option Value → Option A
read f none = none
read f (some v) = f v

abbrev pub decode_tags : Dict Value → Option SystemProperties × Option Error
decode_tags d = (
  some (record {
    locked_until = read as_time (lookup "x-opt-locked-until" d);
    sequence_number = read as_int64 (lookup "x-opt-sequence-number" d);
    partition_id = read as_int16 (lookup "x-opt-partition-id" d);
    partition_key = read as_string (lookup "x-opt-partition-key" d);
    enqueued_time = read as_time (lookup "x-opt-enqueued-time" d);
    dead_letter_source = read as_string (lookup "x-opt-deadletter-source" d);
    scheduled_enqueue_time = read as_time (lookup "x-opt-scheduled-enqueue-time" d);
    enqueued_sequence_number = read as_int64 (lookup "x-opt-enqueue-sequence-number" d);
    via_partition_key = read as_string (lookup "x-opt-via-partition-key" d);
  }),
  none,
)

read-map :
    {A : Type 0} (f : Value → Option A) (c : A → Value) (o : Option A)
    → ((a : A) → f (c a) ≡ some a)
    → read f (Option.map c o) ≡ o
read-map f c none h = refl
read-map f c (some a) h = h a

pub decode_tags_lem :
    (d : Dict Value) (p : SystemProperties) → TagsOf d p → decode_tags d ≡ (some p, none)
decode_tags_lem d p t = ground (
  arith,
  ap (read as_time) t.locked_until ∙ read-map as_time time p.locked_until (λ a. refl),
  ap (read as_int64) t.sequence_number ∙ read-map as_int64 int64 p.sequence_number (λ a. refl),
  ap (read as_int16) t.partition_id ∙ read-map as_int16 int16 p.partition_id (λ a. refl),
  ap (read as_string) t.partition_key ∙ read-map as_string str p.partition_key (λ a. refl),
  ap (read as_time) t.enqueued_time ∙ read-map as_time time p.enqueued_time (λ a. refl),
  ap (read as_string) t.dead_letter_source
      ∙ read-map as_string str p.dead_letter_source (λ a. refl),
  ap (read as_time) t.scheduled_enqueue_time
      ∙ read-map as_time time p.scheduled_enqueue_time (λ a. refl),
  ap (read as_int64) t.enqueued_sequence_number
      ∙ read-map as_int64 int64 p.enqueued_sequence_number (λ a. refl),
  ap (read as_string) t.via_partition_key ∙ read-map as_string str p.via_partition_key (λ a. refl),
)

message_from_amqp_message-is_readable_example :
    returns (message_from_amqp_message decode_tags (delivered none)) ≡ is_readable (delivered none)
message_from_amqp_message-is_readable_example =
    message_from_amqp_message-is_readable decode_tags (delivered none)

message_from_amqp_message-to_msg_example :
    (a : AmqpMessage) × (to_msg payload_only greeting ≡ (greeting, ok a))
    × (message_from_amqp_message decode_tags a ≡ ok (received greeting a (pos 30), none))
message_from_amqp_message-to_msg_example =
    message_from_amqp_message-to_msg payload_only (λ b. refl) decode_tags decode_tags_lem greeting
      (pos 30) refl refl (refl, (refl, tt))
