-- ===== src/Tests/Errors.antt =====
-- errors.go at concrete data.
use Prim.Native.String.{◌++◌ as ◌<>◌}
use azure_service_bus_go.Prelude.{◌≡◌, refl, none, some}
use azure_service_bus_go.Prelude.Int.{pos}
use azure_service_bus_go.Amqp.Dynamic.{str, null}
use azure_service_bus_go.Errors.{new_err_incorrect_type}
use azure_service_bus_go.Errors.Text.{
  Verbs, missing_field_text, incorrect_type_text, amqp_text, no_messages_text,
  management_error_text,
}

abbrev verbs : Verbs
verbs = record {
  quote = λ s. "'" <> s <> "'";
  quote_type = λ t. elim t [ none ↦ "nil" | some _ ↦ "string" ];
  decimal = λ n. "404";
}

texts :
    (missing_field_text verbs "value" ≡ "missing value 'value'")
    × (incorrect_type_text verbs (new_err_incorrect_type "id" (str "") null)
        ≡ "value at 'id' was expected to be of type string but was actually of type nil")
    × (amqp_text verbs (record { code = pos 404; description = "gone"; value = null })
        ≡ "server says (404) gone")
    × (no_messages_text ≡ "no messages available")
    × (management_error_text verbs (pos 404) "gone" ≡ "error code: 404, Details: gone")
unfolding new_err_incorrect_type
texts = (refl, refl, refl, refl, refl)
