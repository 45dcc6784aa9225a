-- ===== src/Message/Tags.antt =====
-- encodeStructureToMap, parseMapStructureTag and the tags of SystemProperties (message.go). A
-- struct stands as what reflection shows of it: its fields in order, each with its tag and value.
use Prim.Native.Char.{Char, code}
use Prim.Native.String.{String}
use mathlib.Core.Option
use azure_service_bus_go.Prelude.{
  ◌==◌, leb, Bool, true, false, not, ◌&&◌, ◌||◌, Option, none, some, List, [], ◌∷◌, if◌then◌else◌,
  str_eq,
}
use azure_service_bus_go.Prelude.Dict.{Dict, insert}
use azure_service_bus_go.Amqp.Dynamic.{Value, null, str, int16, int64, time}
use azure_service_bus_go.Errors.{Exec, ok, err, plain, unknown_tag_key, ◌>>=◌}
use azure_service_bus_go.Message.{SystemProperties}

pub record MapStructureTag : Type 0 where
  pub name : String
  pub persist_empty : Bool

-- A pointer field with what it points to, or a field of another kind with its value and whether
-- that is the zero value of its type.
pub data FieldContent : Type 0 where
  ptr : Option Value → FieldContent
  plain_field : Value → Bool → FieldContent

-- `tag` is `Tag.Lookup("mapstructure")`, and `settable` is `IsValid() && CanSet()`.
pub record StructField : Type 0 where
  pub tag : Option String
  pub settable : Bool
  pub content : FieldContent

-- What the argument points to.
pub data Pointee : Type 0 where
  struct_of : List StructField → Pointee
  no_struct : Pointee

-- unicode.IsSpace
is_space : Char → Bool
is_space ch =
    let c = code ch in
    leb 9 c && leb c 13
    || c == 0x20
    || c == 0x85
    || c == 0xa0
    || c == 0x1680
    || leb 0x2000 c && leb c 0x200a
    || c == 0x2028
    || c == 0x2029
    || c == 0x202f
    || c == 0x205f
    || c == 0x3000

-- strings.TrimSpace
trim_left : String → String
trim_left String.[] = String.[]
trim_left (String.◌∷◌ c s) = let rest = trim_left s in if is_space c then rest else String.◌∷◌ c s

trim_right : String → String
trim_right String.[] = String.[]
trim_right (String.◌∷◌ c s) =
    let rest = trim_right s in if is_space c && str_eq rest "" then "" else String.◌∷◌ c rest

abbrev put_first : Char → List String → List String
put_first c [] = String.◌∷◌ c "" ∷ []
put_first c (s ∷ ss) = String.◌∷◌ c s ∷ ss

-- strings.Split(s, ","), which is never empty: the first part and the others
split_comma : String → List String
split_comma String.[] = "" ∷ []
split_comma (String.◌∷◌ c s) =
    let rest = split_comma s in if code c == b',' then "" ∷ rest else put_first c rest

-- The loop over split[1:].
read_keys : MapStructureTag → List String → Exec (Option MapStructureTag)
read_keys t [] = ok (some t)
read_keys t (key ∷ keys) =
    let rest = read_keys (record t { persist_empty = true }) keys in
    if str_eq key "persistempty" then rest else err (unknown_tag_key key)

read_parts : List String → Exec (Option MapStructureTag)
unfolding trim_left trim_right is_space read_keys
read_parts [] = ok none
read_parts (name ∷ keys) =
    read_keys (record { name = trim_right (trim_left name); persist_empty = false }) keys

unfoldable pub parse_map_structure_tag : Option String → Exec (Option MapStructureTag)
unfolding split_comma read_parts
parse_map_structure_tag none = ok none
parse_map_structure_tag (some s) = read_parts (split_comma s)

-- The switch on the field's kind.
unfoldable pub put_field : MapStructureTag → FieldContent → Dict Value → Dict Value
put_field t (ptr none) encoded = if t.persist_empty then insert t.name null encoded else encoded
put_field t (ptr (some v)) encoded = insert t.name v encoded
put_field t (plain_field v zero_value) encoded =
    if not zero_value || t.persist_empty then insert t.name v encoded else encoded

put_tagged : Option MapStructureTag → FieldContent → Dict Value → Dict Value
put_tagged none content encoded = encoded
put_tagged (some t) content encoded = put_field t content encoded

encode_field : StructField → Dict Value → Exec (Dict Value)
unfolding put_tagged
encode_field f encoded =
    if f.settable
    then parse_map_structure_tag f.tag >>= (λ tag. ok (put_tagged tag f.content encoded))
    else ok encoded

encode_fields : List StructField → Dict Value → Exec (Dict Value)
unfolding encode_field
encode_fields [] encoded = ok encoded
encode_fields (f ∷ fs) encoded = encode_field f encoded >>= encode_fields fs

unfoldable pub encode_structure_to_map : Pointee → Exec (Dict Value)
unfolding encode_fields
encode_structure_to_map no_struct = err (plain "must provide a struct")
encode_structure_to_map (struct_of fields) = encode_fields fields []

-- An exported pointer field with a mapstructure tag.
abbrev pub tagged : String → Option Value → StructField
tagged tag v = record { tag = some tag; settable = true; content = ptr v }

-- The fields of a SystemProperties value, as reflection lists them.
unfoldable pub system_properties_fields : SystemProperties → List StructField
system_properties_fields p =
    tagged "x-opt-locked-until" (Option.map time p.locked_until)
    ∷ tagged "x-opt-sequence-number" (Option.map int64 p.sequence_number)
    ∷ tagged "x-opt-partition-id" (Option.map int16 p.partition_id)
    ∷ tagged "x-opt-partition-key" (Option.map str p.partition_key)
    ∷ tagged "x-opt-enqueued-time" (Option.map time p.enqueued_time)
    ∷ tagged "x-opt-deadletter-source" (Option.map str p.dead_letter_source)
    ∷ tagged "x-opt-scheduled-enqueue-time" (Option.map time p.scheduled_enqueue_time)
    ∷ tagged "x-opt-enqueue-sequence-number" (Option.map int64 p.enqueued_sequence_number)
    ∷ tagged "x-opt-via-partition-key" (Option.map str p.via_partition_key)
    ∷ []
