-- ===== src/Message/SystemTags.antt =====
-- What encodeStructureToMap makes of a SystemProperties value (message.go).
use mathlib.Core.Option
use mathlib.Core.Option.{or_else}
use azure_service_bus_go.Prelude.{
  ◌≡◌, refl, false, Option, none, some, [], List, ◌∷◌, String, str_eq, if◌then◌else◌, arith,
}
use azure_service_bus_go.Prelude.Dict.{Dict, lookup, lookup-insert, NodupKeys, insert-NodupKeys}
use azure_service_bus_go.Amqp.Dynamic.{Value, str, int16, int64, time}
use azure_service_bus_go.Errors.{ok}
use azure_service_bus_go.Message.{SystemProperties}
use azure_service_bus_go.Message.Tags.{
  ptr, put_field, parse_map_structure_tag, encode_structure_to_map, struct_of,
  system_properties_fields,
}

abbrev put : String → Option Value → Dict Value → Dict Value
put name v = put_field (record { name = name; persist_empty = false }) (ptr v)

-- The map, as the nine steps of the loop leave it.
abbrev pub annotations_of : SystemProperties → Dict Value
annotations_of p = put "x-opt-via-partition-key" (Option.map str p.via_partition_key) (
    put "x-opt-enqueue-sequence-number" (Option.map int64 p.enqueued_sequence_number) (
      put "x-opt-scheduled-enqueue-time" (Option.map time p.scheduled_enqueue_time) (
        put "x-opt-deadletter-source" (Option.map str p.dead_letter_source) (
          put "x-opt-enqueued-time" (Option.map time p.enqueued_time) (
            put "x-opt-partition-key" (Option.map str p.partition_key) (
              put "x-opt-partition-id" (Option.map int16 p.partition_id) (
                put "x-opt-sequence-number" (Option.map int64 p.sequence_number)
                  (put "x-opt-locked-until" (Option.map time p.locked_until) []))))))))

pub encode-eq-annotations_of :
    (p : SystemProperties)
    → encode_structure_to_map (struct_of (system_properties_fields p)) ≡ ok (annotations_of p)
unfolding encode_structure_to_map system_properties_fields parse_map_structure_tag
encode-eq-annotations_of p = refl

lookup-put :
    (name k : String) (v : Option Value) (m : Dict Value)
    → lookup k (put name v m) ≡ (if str_eq name k then or_else v (lookup k m) else lookup k m)
unfolding put_field or_else
lookup-put name k none m = ground arith
lookup-put name k (some v) m = ground (arith, lookup-insert name k v m)

or_else-none : (v : Option Value) → or_else v none ≡ v
unfolding or_else
or_else-none none = refl
or_else-none (some v) = refl

ruleset lookups = (lookup-put, or_else-none)

-- Each field of SystemProperties stands in the map under its own tag if it is set, and is absent if
-- it is nil.
pub record TagsOf (m : Dict Value) (p : SystemProperties) : Type 0 where
  pub locked_until : lookup "x-opt-locked-until" m ≡ Option.map time p.locked_until
  pub sequence_number : lookup "x-opt-sequence-number" m ≡ Option.map int64 p.sequence_number
  pub partition_id : lookup "x-opt-partition-id" m ≡ Option.map int16 p.partition_id
  pub partition_key : lookup "x-opt-partition-key" m ≡ Option.map str p.partition_key
  pub enqueued_time : lookup "x-opt-enqueued-time" m ≡ Option.map time p.enqueued_time
  pub dead_letter_source : lookup "x-opt-deadletter-source" m ≡ Option.map str p.dead_letter_source
  pub scheduled_enqueue_time :
      lookup "x-opt-scheduled-enqueue-time" m ≡ Option.map time p.scheduled_enqueue_time
  pub enqueued_sequence_number :
      lookup "x-opt-enqueue-sequence-number" m ≡ Option.map int64 p.enqueued_sequence_number
  pub via_partition_key : lookup "x-opt-via-partition-key" m ≡ Option.map str p.via_partition_key

pub annotations_of-TagsOf : (p : SystemProperties) → TagsOf (annotations_of p) p
annotations_of-TagsOf p = record {
  locked_until = simp lookups;
  sequence_number = simp lookups;
  partition_id = simp lookups;
  partition_key = simp lookups;
  enqueued_time = simp lookups;
  dead_letter_source = simp lookups;
  scheduled_enqueue_time = simp lookups;
  enqueued_sequence_number = simp lookups;
  via_partition_key = simp lookups;
}

put-NodupKeys :
    (name : String) (v : Option Value) (m : Dict Value) → NodupKeys m → NodupKeys (put name v m)
unfolding put_field
put-NodupKeys name none m h = h
put-NodupKeys name (some v) m h = insert-NodupKeys name v m h

pub annotations_of-NodupKeys : (p : SystemProperties) → NodupKeys (annotations_of p)
annotations_of-NodupKeys p = search put-NodupKeys depth 12

abbrev pub system_tags : List String
system_tags =
    "x-opt-locked-until" ∷ "x-opt-sequence-number" ∷ "x-opt-partition-id" ∷ "x-opt-partition-key"
    ∷ "x-opt-enqueued-time" ∷ "x-opt-deadletter-source" ∷ "x-opt-scheduled-enqueue-time"
    ∷ "x-opt-enqueue-sequence-number" ∷ "x-opt-via-partition-key" ∷ []

-- `k` is none of the names.
abbrev pub IsNoneOf : String → List String → Type 0
IsNoneOf k [] = Unit
IsNoneOf k (name ∷ names) = (str_eq name k ≡ false) × IsNoneOf k names

annotations_of-other :
    (p : SystemProperties) (k : String)
    → IsNoneOf k system_tags
    → lookup k (annotations_of p) ≡ none
annotations_of-other p k (h₁, (h₂, (h₃, (h₄, (h₅, (h₆, (h₇, (h₈, (h₉, _))))))))) =
    simp (lookup-put, h₁, h₂, h₃, h₄, h₅, h₆, h₇, h₈, h₉)

-- Encoding a SystemProperties value succeeds. In the map each field that is set stands under its
-- own tag, a nil field is absent, and so is a key `k` that is none of the nine tags.
pub encode_structure_to_map-TagsOf :
    (p : SystemProperties) (k : String)
    → IsNoneOf k system_tags
    → (m : Dict Value) × (encode_structure_to_map (struct_of (system_properties_fields p)) ≡ ok m)
      × TagsOf m p
      × (lookup k m ≡ none)
encode_structure_to_map-TagsOf p k h = (
  annotations_of p,
  encode-eq-annotations_of p,
  annotations_of-TagsOf p,
  annotations_of-other p k h,
)
