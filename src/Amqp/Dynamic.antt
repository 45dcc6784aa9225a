-- ===== src/Amqp/Dynamic.antt =====
-- Values of type interface{}, as far as the code makes or inspects them: what a type switch or an
-- assertion tells apart is a constructor.
use azure_service_bus_go.Prelude.{
  ℕ, Option, none, some, List, [], ◌∷◌, String, str_eq, if◌then◌else◌,
}
use azure_service_bus_go.Prelude.Int.{ℤ}

abbrev pub Bytes : Type 0
Bytes = List ℕ

-- time.Time: an instant in nanoseconds, and the location in which it is shown.
pub data Location : Type 0 where
  utc : Location
  zone : String → Location

pub record Time : Type 0 where
  pub nanos : ℤ
  pub location : Location

mutual
  pub data Value : Type 0 where
    null : Value
    str : String → Value
    str_ptr : Option String → Value
    bytes : Bytes → Value
    int16 : ℤ → Value
    int32 : ℤ → Value
    int64 : ℤ → Value
    int64s : List ℤ → Value
    uint : ℕ → Value
    time : Time → Value
    uuid : Bytes → Value
    uuids : List Bytes → Value
    items : Items → Value
    dict : Fields → Value

  pub data Items : Type 0 where
    end : Items
    item : Value → Items → Items

  pub data Fields : Type 0 where
    empty : Fields
    field : String → Value → Fields → Fields

-- `v, ok := m[k]`
abbrev pub get_field : String → Fields → Option Value
get_field k empty = none
get_field k (field j v m) = if str_eq j k then some v else get_field k m

abbrev pub item_list : Items → List Value
item_list end = []
item_list (item v vs) = v ∷ item_list vs

-- reflect.TypeOf, for the types above; nil has no type.
pub data GoType : Type 0 where
  string_type string_ptr_type bytes_type int16_type int32_type int64_type int64s_type : GoType
  uint_type time_type uuid_type uuids_type slice_type map_type : GoType

abbrev pub type_of : Value → Option GoType
type_of null = none
type_of (str s) = some string_type
type_of (str_ptr s) = some string_ptr_type
type_of (bytes b) = some bytes_type
type_of (int16 n) = some int16_type
type_of (int32 n) = some int32_type
type_of (int64 n) = some int64_type
type_of (int64s ns) = some int64s_type
type_of (uint n) = some uint_type
type_of (time t) = some time_type
type_of (uuid u) = some uuid_type
type_of (uuids us) = some uuids_type
type_of (items vs) = some slice_type
type_of (dict m) = some map_type
