-- ===== src/Rpc.antt =====
-- The calls of the rpc package of azure-amqp-common-go that the queues and sessions make, as a
-- parameter, and what their requests have in common.
use azure_service_bus_go.Prelude.{
  ℕ, ◌≡◌, ◌↔◌, ap, arith, Bool, true, false, Option, none, some, [], ◌∷◌, String, ◌==◌,
}
use azure_service_bus_go.Prelude.Int.{ℤ, pos, negsuc}
use azure_service_bus_go.Prelude.Dict.{Dict}
use azure_service_bus_go.Amqp.{AmqpMessage, Properties}
use azure_service_bus_go.Amqp.Dynamic.{Value, uint}
use azure_service_bus_go.Errors.{Error, Exec, Response}
use azure_service_bus_go.Iterator.Page.{to_millis}

-- NewLink and NewLinkWithSession return an error or nil; RetryableRPC takes the number of tries. A
-- connection is the pointer that the code passes.
pub record Rpc : Type 0 where
  pub new_link : Option ℕ → String → Option Error
  pub new_link_with_session : Option ℕ → ℕ → String → Option Error
  pub retryable_rpc : ℕ → AmqpMessage → Exec Response

-- `Code == 200`
abbrev pub is_success : ℤ → Bool
is_success (pos n) = n == 200
is_success (negsuc n) = false

pub is_success_iff : (code : ℤ) → (is_success code ≡ true) ↔ (code ≡ pos 200)
is_success_iff (pos n) = (λ h. ap pos (ground arith), λ h. ground arith)
is_success_iff (negsuc n) = (λ h. cc, λ h. cc)

-- A message with application properties and a value, and perhaps properties.
abbrev pub request : Dict Value → Option Properties → Value → AmqpMessage
request application_properties properties value = record {
  payload = [];
  value = value;
  header = none;
  properties = properties;
  application_properties = some application_properties;
  annotations = none;
  delivery_annotations = none;
  delivery_tag = none;
}

-- The server's timeout, where the context has a deadline: the time that is left, in nanoseconds.
unfoldable pub server_timeout : Option ℤ → Dict Value
server_timeout none = []
server_timeout (some left) = ("com.microsoft:server-timeout", uint (to_millis left)) ∷ []
