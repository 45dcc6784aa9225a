-- ===== src/Errors/Text.antt =====
-- The texts of the error types of errors.go, and that of an error of the management service (mgmt.go).
use Prim.Native.String.{◌++◌ as ◌<>◌}
use azure_service_bus_go.Prelude.{Option, String}
use azure_service_bus_go.Prelude.Int.{ℤ}
use azure_service_bus_go.Amqp.Dynamic.{GoType, type_of}
use azure_service_bus_go.Errors.{Response, ErrIncorrectType}

-- The verbs of fmt that the formats use: %q at a string and at a reflect.Type, which may be nil, and
-- %d.
pub record Verbs : Type 0 where
  pub quote : String → String
  pub quote_type : Option GoType → String
  pub decimal : ℤ → String

abbrev pub missing_field_text : Verbs → String → String
missing_field_text fmt e = "missing value " <> fmt.quote e

abbrev pub incorrect_type_text : Verbs → ErrIncorrectType → String
incorrect_type_text fmt e =
    "value at "
    <> fmt.quote e.key
    <> " was expected to be of type "
    <> fmt.quote_type e.expected_type
    <> " but was actually of type "
    <> fmt.quote_type (type_of e.actual_value)

abbrev pub amqp_text : Verbs → Response → String
amqp_text fmt e = "server says (" <> fmt.decimal e.code <> ") " <> e.description

abbrev pub no_messages_text : String
no_messages_text = "no messages available"

-- formatManagementError, where the answer can be read.
abbrev pub management_error_text : Verbs → ℤ → String → String
management_error_text fmt code detail =
    "error code: " <> fmt.decimal code <> ", Details: " <> detail
