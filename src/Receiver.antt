-- ===== src/Receiver.antt =====
-- receiver.go: the receiver's state, its options, and the building and rebuilding of its session and
-- link. The handling of a message stands in the child Handle, the two goroutines of Listen in
-- Listen, and what is proved in Link, Settle and Delivery.
pub mod Link
pub mod Handle
pub mod Settle
pub mod Listen
pub mod Delivery
use azure_service_bus_go.Prelude.{ℕ, Bool, true, false, Option, none, some, List, [], ◌∷◌, String}
use azure_service_bus_go.Errors.{Error, Exec, ok, panic, nil_pointer, got, failed, from_error}
use azure_service_bus_go.Session.{Session, new_session}
use azure_service_bus_go.Namespace.{
  Namespace, Broker, ReceiverLink, new_connection, negotiate_claim,
}

-- ReceiveMode of queue.go, the two values that it names
pub data ReceiveMode : Type 0 where
  peek_lock_mode receive_and_delete_mode : ReceiveMode

-- A nil pointer is `none`. `link` is the field `receiver`, the amqp receiver, and `listening` says
-- whether the field `done` is set.
pub record Receiver : Type 0 where
  pub namespace : Namespace
  pub connection : Option ℕ
  pub session : Option Session
  pub link : Option ℕ
  pub entity_path : String
  pub listening : Bool
  pub use_sessions : Bool
  pub session_id : Option String
  pub last_error : Option Error
  pub mode : ReceiveMode
  pub prefetch : ℕ

abbrev is_delete : ReceiveMode → Bool
is_delete receive_and_delete_mode = true
is_delete peek_lock_mode = false

-- The value of amqp.LinkSourceFilter is made where sessions are used, and put into no list.
unfoldable pub link_options : Receiver → ReceiverLink
link_options r = record {
  source_address = r.entity_path;
  sender_settled = is_delete r.mode;
  receiver_first = is_delete r.mode;
  credit = r.prefetch;
  session_filter = none;
}

-- The steps of newSessionAndLink behind the assignment of the connection, in order. The session is
-- assigned also where it could not be made: it is nil then. The result is the error, or nil.
open_link : Broker → ℕ → Receiver → Receiver × Option Error
open_link broker amqp_session r = elim (broker.open_receiver amqp_session (link_options r)) [
  | failed e ↦ (r, some e)
  | got amqp_receiver ↦ (record r { link = some amqp_receiver }, none)
]

name_session : Broker → ℕ → Receiver → Receiver × Option Error
unfolding open_link
name_session broker amqp_session r = elim (new_session amqp_session broker.new_uuid) [
  | failed e ↦ (record r { session = none }, some e)
  | got session ↦ open_link broker amqp_session (record r { session = some session })
]

open_session : Broker → ℕ → Receiver → Receiver × Option Error
unfolding name_session
open_session broker connection r = elim (broker.open_session connection) [
  | failed e ↦ (r, some e)
  | got amqp_session ↦ name_session broker amqp_session r
]

negotiate : Broker → ℕ → Receiver → Receiver × Option Error
unfolding open_session
negotiate broker connection r = elim (negotiate_claim broker r.namespace connection r.entity_path) [
  | some e ↦ (r, some e)
  | none ↦ open_session broker connection r
]

unfoldable pub new_session_and_link : Broker → Receiver → Receiver × Option Error
unfolding negotiate new_session
new_session_and_link broker r = elim (new_connection broker r.namespace) [
  | failed e ↦ (r, some e)
  | got connection ↦ negotiate broker connection (record r { connection = some connection })
]

-- Recover. The errors of the three calls of Close are ignored; the one on a nil session panics.
unfoldable pub recover : Broker → Receiver → Exec (Receiver × Option Error)
unfolding new_session_and_link
recover broker r = elim r.session [
  | none ↦ panic nil_pointer
  | some _ ↦ ok (new_session_and_link broker r)
]

-- Close, but for the call of `done`, which the child Listen has. The calls of amqp.Client.Close and
-- the result.
unfoldable pub close : (Option ℕ → Option Error) → Receiver → List (Option ℕ) × Exec (Unit {0})
close close_client r = (r.connection ∷ [], from_error (close_client r.connection))

abbrev pub ReceiverOption : Type 0
ReceiverOption = Receiver → Receiver × Option Error

unfoldable pub receiver_with_session : Option String → ReceiverOption
receiver_with_session session_id r =
    (record r { session_id = session_id; use_sessions = true }, none)

unfoldable pub receiver_with_receive_mode : ReceiveMode → ReceiverOption
receiver_with_receive_mode mode r = (record r { mode = mode }, none)

unfoldable pub apply_options : List ReceiverOption → Receiver → Receiver × Option Error
apply_options [] r = (r, none)
apply_options (option ∷ options) r =
    let (r', e) = option r in elim e [ some x ↦ (r', some x) | none ↦ apply_options options r' ]

abbrev fresh : Namespace → String → Receiver
fresh ns entity_path = record {
  namespace = ns;
  connection = none;
  session = none;
  link = none;
  entity_path = entity_path;
  listening = false;
  use_sessions = false;
  session_id = none;
  last_error = none;
  mode = peek_lock_mode;
  prefetch = 1;
}

-- newReceiver returns nil if an option fails. Otherwise it returns the receiver, and an error beside
-- it if its link could not be made.
unfoldable pub new_receiver :
    Broker → Namespace → String → List ReceiverOption → Option Receiver × Option Error
unfolding new_session_and_link apply_options
new_receiver broker ns entity_path options =
    let (r, e) = apply_options options (fresh ns entity_path) in
    elim e [
      | some x ↦ (none, some x)
      | none ↦ let (r', e') = new_session_and_link broker r in (some r', e')
    ]
