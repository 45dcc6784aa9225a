-- ===== src/Tests/Namespace.antt =====
-- namespace.go at concrete data.
use mathlib.Core.Option.{get_or}
use azure_service_bus_go.Prelude.{ℕ, ◌≡◌, refl, some, List, [], ◌∷◌, str_eq, if◌then◌else◌}
use azure_service_bus_go.Errors.{got, failed, foreign}
use azure_service_bus_go.Namespace.Configure.{
  Connection, Libraries, Configured, namespace_with_connection_string, new_namespace,
}
use azure_service_bus_go.Namespace.Configure.Strings.{
  Read, last_name, last_provider, new_namespace-eq-ok,
}

-- "a" names a namespace, "b" does not, and no other string can be read.
abbrev lib : Libraries
lib = record {
  parse = λ t.
      if str_eq t "a"
      then got (record { namespace = "n"; key_name = "k"; key = "1" })
      else if str_eq t "b"
      then got (record { namespace = ""; key_name = "k"; key = "2" })
      else failed (foreign "failed parsing connection string");
  new_token_provider = λ name key. if str_eq key "1" then got 1 else got 2;
}

abbrev configured : Configured
configured = record {
  namespace = record { name = "n"; suffix = "servicebus.windows.net" };
  token_provider = some 2;
}

new_namespace-eq-ok_example :
    (read : List (Connection × ℕ)) × Read lib ("a" ∷ "b" ∷ []) read
    × (configured.namespace
        ≡ record { name = get_or (last_name read) ""; suffix = "servicebus.windows.net" })
    × (configured.token_provider ≡ last_provider read)
unfolding new_namespace namespace_with_connection_string
new_namespace-eq-ok_example =
    new_namespace-eq-ok lib "servicebus.windows.net" ("a" ∷ "b" ∷ []) configured refl
