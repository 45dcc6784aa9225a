-- ===== src/Queue/Schedule/Entry.antt =====
-- What the entry of one message in the request of ScheduleAt of queue.go holds, beside its code.
use mathlib.Core.Option
use azure_service_bus_go.Prelude.{
  ℕ, suc, ◌≡◌, ◌≢◌, ◌⊎◌, refl, Option, none, some, List, [], ◌∷◌, String,
}
use azure_service_bus_go.Amqp.{AmqpMessage}
use azure_service_bus_go.Amqp.Dynamic.{
  Value, Bytes, Time, utc, Items, Fields, str, bytes, dict, end, item, empty, field, get_field,
}
use azure_service_bus_go.Errors.{Exec, ok, Answer, got}
use azure_service_bus_go.Message.{Message, SystemProperties, no_system_properties}
use azure_service_bus_go.Message.ToAmqp.{to_msg}
use azure_service_bus_go.Queue.Schedule.{optional}

abbrev pub properties_of : Message → SystemProperties
properties_of m = elim m.system_properties [ none ↦ no_system_properties | some p ↦ p ]

-- The message under the identifier `id`, to be delivered at `t`, in UTC.
abbrev pub timed : Time → String → Message → Message
timed t id m = record m {
  id = id;
  system_properties =
      some
        (record (properties_of m) { scheduled_enqueue_time = some (record t { location = utc }) });
}

-- A map with these values under the five keys.
pub record Holds (entry : Fields) (id : String) (encoded : Bytes)
    (group_id partition_key via_partition_key : Option String) : Type 0 where
  pub message_id : get_field "message-id" entry ≡ some (str id)
  pub message : get_field "message" entry ≡ some (bytes encoded)
  pub session_id : get_field "session-id" entry ≡ Option.map str group_id
  pub partition : get_field "partition-key" entry ≡ Option.map str partition_key
  pub via_partition : get_field "via-partition-key" entry ≡ Option.map str via_partition_key

module _ (new_amqp_message : Bytes → AmqpMessage) (marshal_binary : AmqpMessage → Exec Bytes)
    (t : Time) where
  -- `v` is the entry of `m`, which ScheduleAt leaves as `left`: the message has its identifier, or a
  -- new one where it had none, and the entry holds the identifier, the bytes of the message that is
  -- to be delivered at `t`, and the group and the keys where the message has them.
  pub record IsEntry (new_uuid : Answer String) (m left : Message) (v : Value) : Type 0 where
    pub id : String
    pub amqp : AmqpMessage
    pub encoded : Bytes
    pub entry : Fields
    pub identified : ((m.id ≢ "") × (id ≡ m.id)) ⊎ ((m.id ≡ "") × (new_uuid ≡ got id))
    pub converted : to_msg new_amqp_message (timed t id m) ≡ (left, ok amqp)
    pub marshalled : marshal_binary amqp ≡ ok encoded
    pub is_map : v ≡ dict entry
    pub holds :
        Holds entry id encoded m.group_id
          (properties_of m).partition_key
          (properties_of m).via_partition_key

  -- Each message has its entry, in order. The n-th that needs an identifier gets the n-th new one.
  pub data Scheduled (new_uuid : ℕ → Answer String)
      : ℕ → List Message → List Message → Items → Type 0 where
    nothing_left : {n : ℕ} → Scheduled new_uuid n [] [] end
    scheduled :
        {n : ℕ} {m left : Message} {v : Value} {ms lefts : List Message} {vs : Items}
        → IsEntry (new_uuid n) m left v
        → Scheduled new_uuid (suc n) ms lefts vs
        → Scheduled new_uuid n (m ∷ ms) (left ∷ lefts) (item v vs)

abbrev keys_of : Option String → Option String → Option String → Fields
keys_of group_id partition_key via_partition_key =
    optional "session-id" group_id (
      optional "partition-key" partition_key (optional "via-partition-key" via_partition_key empty))

abbrev pub entry_of : String → Bytes → Option String → Option String → Option String → Fields
entry_of id encoded group_id partition_key via_partition_key =
    field "message-id" (str id)
      (field "message" (bytes encoded) (keys_of group_id partition_key via_partition_key))

session : (g k via : Option String) → get_field "session-id" (keys_of g k via) ≡ Option.map str g
session (some g) k via = refl
session none (some k) (some via) = refl
session none (some k) none = refl
session none none (some via) = refl
session none none none = refl

partition :
    (g k via : Option String) → get_field "partition-key" (keys_of g k via) ≡ Option.map str k
partition (some g) (some k) via = refl
partition none (some k) via = refl
partition (some g) none (some via) = refl
partition (some g) none none = refl
partition none none (some via) = refl
partition none none none = refl

via_partition :
    (g k via : Option String) → get_field "via-partition-key" (keys_of g k via) ≡ Option.map str via
via_partition (some g) (some k) (some via) = refl
via_partition (some g) (some k) none = refl
via_partition (some g) none (some via) = refl
via_partition (some g) none none = refl
via_partition none (some k) (some via) = refl
via_partition none (some k) none = refl
via_partition none none (some via) = refl
via_partition none none none = refl

pub entry_of-Holds :
    (id : String) (b : Bytes) (g k via : Option String) → Holds (entry_of id b g k via) id b g k via
entry_of-Holds id b g k via = record {
  message_id = refl;
  message = refl;
  session_id = session g k via;
  partition = partition g k via;
  via_partition = via_partition g k via;
}
