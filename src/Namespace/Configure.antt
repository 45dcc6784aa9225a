-- ===== src/Namespace/Configure.antt =====
-- NewNamespace and NamespaceWithConnectionString of namespace.go. What is proved stands in the child
-- Strings.
pub mod Strings
use azure_service_bus_go.Prelude.{
  ℕ, Option, none, some, List, [], ◌∷◌, String, str_eq, if◌then◌else◌,
}
use azure_service_bus_go.Errors.{Error, Exec, ok, err, Answer, got, failed}
use azure_service_bus_go.Namespace.{Namespace}

-- conn.ParsedConn, as far as it is read.
pub record Connection : Type 0 where
  pub namespace : String
  pub key_name : String
  pub key : String

-- conn.ParsedConnectionFromStr, and sas.NewTokenProvider with a key; a provider is a number.
pub record Libraries : Type 0 where
  pub parse : String → Answer Connection
  pub new_token_provider : String → String → Answer ℕ

-- A Namespace with its token provider, which is nil at first.
pub record Configured : Type 0 where
  pub namespace : Namespace
  pub token_provider : Option ℕ

abbrev pub NamespaceOption : Type 0
NamespaceOption = Configured → Configured × Option Error

abbrev pub renamed : String → Configured → Configured
renamed name c =
    if str_eq name "" then c else record c { namespace = record c.namespace { name = name } }

with_provider : Answer ℕ → NamespaceOption
with_provider (failed e) c = (c, some e)
with_provider (got provider) c = (record c { token_provider = some provider }, none)

with_connection : Libraries → Answer Connection → NamespaceOption
unfolding with_provider
with_connection lib (failed e) c = (c, some e)
with_connection lib (got parsed) c =
    with_provider (lib.new_token_provider parsed.key_name parsed.key) (renamed parsed.namespace c)

unfoldable pub namespace_with_connection_string : Libraries → String → NamespaceOption
unfolding with_connection
namespace_with_connection_string lib conn_str c = with_connection lib (lib.parse conn_str) c

apply_options : List NamespaceOption → Configured → Exec Configured
apply_options [] c = ok c
apply_options (option ∷ options) c =
    let (c', e) = option c in elim e [ some x ↦ err x | none ↦ apply_options options c' ]

-- The first argument is the endpoint suffix of azure.PublicCloud.
unfoldable pub new_namespace : String → List NamespaceOption → Exec Configured
unfolding apply_options
new_namespace suffix options =
    apply_options options
      (record { namespace = record { name = ""; suffix = suffix }; token_provider = none })
