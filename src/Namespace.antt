-- ===== src/Namespace.antt =====
-- namespace.go: the addresses, and the calls of other libraries that a namespace makes for its
-- senders and receivers, as a Broker: each field answers one call, and handles are numbers.
pub mod Configure
use Prim.Native.String.{◌++◌ as ◌<>◌}
use azure_service_bus_go.Prelude.{ℕ, Option, String, Bool}
use azure_service_bus_go.Errors.{Error, Answer}

-- `suffix` is Environment.ServiceBusEndpointSuffix. The token provider is only passed on.
pub record Namespace : Type 0 where
  pub name : String
  pub suffix : String

unfoldable pub get_amqp_host_uri : Namespace → String
get_amqp_host_uri ns = "amqps://" <> ns.name <> "." <> ns.suffix <> "/"

unfoldable pub get_https_host_uri : Namespace → String
get_https_host_uri ns = "https://" <> ns.name <> "." <> ns.suffix <> "/"

unfoldable pub get_entity_audience : Namespace → String → String
unfolding get_amqp_host_uri
get_entity_audience ns entity_path = get_amqp_host_uri ns <> entity_path

-- The link options of a receiver: settle modes, credit, and the session filters that are given.
pub record ReceiverLink : Type 0 where
  pub source_address : String
  pub sender_settled : Bool
  pub receiver_first : Bool
  pub credit : ℕ
  pub session_filter : Option (Option String)

-- What the environment answers while one session and link are set up: amqp.Dial, NegotiateClaim
-- (an error or nil), Client.NewSession, Session.NewSender, Session.NewReceiver and uuid.NewV4.
pub record Broker : Type 0 where
  pub dial : String → Answer ℕ
  pub negotiate_claim : String → ℕ → Option Error
  pub open_session : ℕ → Answer ℕ
  pub open_sender : ℕ → String → Answer ℕ
  pub open_receiver : ℕ → ReceiverLink → Answer ℕ
  pub new_uuid : Answer String

unfoldable pub new_connection : Broker → Namespace → Answer ℕ
unfolding get_amqp_host_uri
new_connection broker ns = broker.dial (get_amqp_host_uri ns)

unfoldable pub negotiate_claim : Broker → Namespace → ℕ → String → Option Error
unfolding get_entity_audience
negotiate_claim broker ns connection entity_path =
    broker.negotiate_claim (get_entity_audience ns entity_path) connection
