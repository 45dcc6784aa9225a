-- ===== src/Sender.antt =====
-- sender.go: the sender's state, and the building and rebuilding of its session and link. Send
-- stands in the child Send, and what is proved in Stamp, Retry and Recovery.
pub mod Send
pub mod Retry
pub mod Stamp
pub mod Stamped
pub mod Renumber
pub mod Recovery
use azure_service_bus_go.Prelude.{ℕ, Option, none, some, List, [], ◌∷◌, String}
use azure_service_bus_go.Errors.{Error, Exec, ok, panic, nil_pointer, got, failed, from_error}
use azure_service_bus_go.Session.{Session, new_session}
use azure_service_bus_go.Namespace.{
  Namespace, Broker, get_entity_audience, new_connection, negotiate_claim,
}

-- A nil pointer is `none`. `link` is the field `sender`, the amqp sender.
pub record Sender : Type 0 where
  pub namespace : Namespace
  pub connection : Option ℕ
  pub session : Option Session
  pub link : Option ℕ
  pub entity_path : String
  pub session_id : Option String

abbrev pub get_address : Sender → String
get_address s = s.entity_path

unfoldable pub get_full_identifier : Sender → String
unfolding get_entity_audience
get_full_identifier s = get_entity_audience s.namespace (get_address s)

abbrev renamed : Option String → Session → Session
renamed none s = s
renamed (some id) s = record s { session_id = id }

-- The steps of newSessionAndLink behind the assignment of the connection, in order. The session is
-- assigned also where it could not be made: it is nil then. The result is the error, or nil.
name_session : Broker → ℕ → ℕ → Sender → Sender × Option Error
name_session broker amqp_session amqp_sender s = elim (new_session amqp_session broker.new_uuid) [
  | failed e ↦ (record s { session = none }, some e)
  | got session ↦
      (record s { session = some (renamed s.session_id session); link = some amqp_sender }, none)
]

open_link : Broker → ℕ → Sender → Sender × Option Error
unfolding name_session
open_link broker amqp_session s = elim (broker.open_sender amqp_session s.entity_path) [
  | failed e ↦ (s, some e)
  | got amqp_sender ↦ name_session broker amqp_session amqp_sender s
]

open_session : Broker → ℕ → Sender → Sender × Option Error
unfolding open_link
open_session broker connection s = elim (broker.open_session connection) [
  | failed e ↦ (s, some e)
  | got amqp_session ↦ open_link broker amqp_session s
]

negotiate : Broker → ℕ → Sender → Sender × Option Error
unfolding open_session
negotiate broker connection s = elim (negotiate_claim broker s.namespace connection s.entity_path) [
  | some e ↦ (s, some e)
  | none ↦ open_session broker connection s
]

unfoldable pub new_session_and_link : Broker → Sender → Sender × Option Error
unfolding negotiate new_session
new_session_and_link broker s = elim (new_connection broker s.namespace) [
  | failed e ↦ (s, some e)
  | got connection ↦ negotiate broker connection (record s { connection = some connection })
]

-- Recover. The errors of the three calls of Close are ignored; the one on a nil session panics.
unfoldable pub recover : Broker → Sender → Exec (Sender × Option Error)
unfolding new_session_and_link
recover broker s = elim s.session [
  | none ↦ panic nil_pointer
  | some _ ↦ ok (new_session_and_link broker s)
]

-- What closing does: the calls of amqp.Client.Close on a connection, in order, and the result.
abbrev pub Closed : Type 0
Closed = List (Option ℕ) × Exec (Unit {0})

-- `close_client` is what amqp.Client.Close returns: an error, or nil.
unfoldable pub close : (Option ℕ → Option Error) → Sender → Closed
close close_client s = (s.connection ∷ [], from_error (close_client s.connection))

abbrev pub SenderOption : Type 0
SenderOption = Sender → Sender × Option Error

-- sendWithSession
unfoldable pub send_with_session : String → SenderOption
send_with_session session_id s = (record s { session_id = some session_id }, none)

unfoldable pub apply_sender_options : List SenderOption → Sender → Sender × Option Error
apply_sender_options [] s = (s, none)
apply_sender_options (option ∷ options) s =
    let (s', e) = option s in
    elim e [ some x ↦ (s', some x) | none ↦ apply_sender_options options s' ]

-- The second half of newSender, on what the options left.
unfoldable pub link_unless : Broker → Sender × Option Error → Option Sender × Option Error
unfolding new_session_and_link
link_unless broker (s, some x) = (none, some x)
link_unless broker (s, none) = let (s', e') = new_session_and_link broker s in (some s', e')

-- newSender returns nil if an option fails. Otherwise it returns the sender, and an error beside it
-- if its link could not be made.
unfoldable pub new_sender :
    Broker → Namespace → String → List SenderOption → Option Sender × Option Error
unfolding link_unless apply_sender_options
new_sender broker ns entity_path options = link_unless broker (
    apply_sender_options options (record {
      namespace = ns;
      connection = none;
      session = none;
      link = none;
      entity_path = entity_path;
      session_id = none;
    }))
