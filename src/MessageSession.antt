-- ===== src/MessageSession.antt =====
-- message_session.go: the session that a SessionHandler is given. What is proved stands in the
-- children Lock and State; what calls the handler's Start and End stands in Process.
pub mod Lock
pub mod State
pub mod Process
use azure_service_bus_go.Prelude.{
  ℕ, Bool, true, false, Option, none, some, List, [], ◌∷◌, String, if◌then◌else◌,
}
use azure_service_bus_go.Prelude.Int.{ℤ, negsuc}
use azure_service_bus_go.Amqp.{AmqpMessage, Properties}
use azure_service_bus_go.Amqp.Dynamic.{
  Value, Bytes, Time, utc, null, str, str_ptr, bytes, time, dict, empty, field, get_field,
}
use azure_service_bus_go.Errors.{
  Error, Exec, ok, err, panic, blocked, Response, plain, amqp_status, missing_field, incorrect_type,
  new_err_incorrect_type, deref, from_error, nil_pointer, ◌>>=◌, ◌>>◌,
}
use azure_service_bus_go.Iterator.Page.{management_path}
use azure_service_bus_go.Receiver.{Receiver}
use azure_service_bus_go.Rpc.{Rpc, is_success, request, server_timeout}

-- The entity is kept by its name. `is_closed` says whether the channel `done` is closed, which
-- Close does once only.
pub record MessageSession : Type 0 where
  pub receiver : Receiver
  pub entity : String
  pub session_id : Option String
  pub lock_expiration : Time
  pub is_closed : Bool

-- newMessageSession; the last argument is time.Now().
unfoldable pub new_message_session : Receiver → String → Option String → Time → MessageSession
new_message_session receiver entity session_id now = record {
  receiver = receiver;
  entity = entity;
  session_id = session_id;
  lock_expiration = now;
  is_closed = false;
}

unfoldable pub close : MessageSession → MessageSession
close ms = record ms { is_closed = true }

unfoldable pub locked_until : MessageSession → Time
locked_until ms = ms.lock_expiration

-- time.Time{}: the first of January of the year 1.
abbrev pub zero_time : Time
zero_time = record { nanos = negsuc 62_135_596_799_999_999_999; location = utc }

-- The link that each operation opens first: on the receiver's amqp session.
unfoldable pub open_rpc : Rpc → MessageSession → Exec (Unit {0})
open_rpc rpc ms = do
  session ← deref ms.receiver.session
  from_error (
      rpc.new_link_with_session ms.receiver.connection session.amqp_session
        (management_path ms.entity))

unfoldable pub renew_lock_request : Option ℤ → MessageSession → AmqpMessage
unfolding server_timeout
renew_lock_request deadline ms =
    request (("operation", str "com.microsoft:renew-session-lock") ∷ server_timeout deadline) none
      (dict (field "session-id" (str_ptr ms.session_id) empty))

-- The assignment of the expiration is made also where the assertion fails.
unfoldable pub take_expiration : MessageSession → Value → MessageSession × Exec (Unit {0})
take_expiration ms (dict v) = elim (get_field "expiration" v) [
  | some (time t) ↦ (record ms { lock_expiration = t }, ok tt)
  | some _ ↦ (
    record ms { lock_expiration = zero_time },
    err (plain "\"expiration\" not of expected type time.Time"),
  )
  | none ↦ (ms, err (plain "missing expected property \"expiration\" in \"Value\""))
]
take_expiration ms v = (ms, err (plain "value not of expected type map[string]interface{}"))

unfoldable pub renewed : MessageSession → Exec Response → MessageSession × Exec (Unit {0})
unfolding take_expiration
renewed ms (ok rsp) = take_expiration ms rsp.value
renewed ms (err e) = (ms, err e)
renewed ms (panic x) = (ms, panic x)
renewed ms blocked = (ms, blocked)

unfoldable pub renew_lock : Rpc → Option ℤ → MessageSession → MessageSession × Exec (Unit {0})
unfolding open_rpc renewed
renew_lock rpc deadline ms =
    renewed ms (open_rpc rpc ms >> rpc.retryable_rpc 5 (renew_lock_request deadline ms))

abbrev group_properties : String → Properties
group_properties id = record {
  message_id = null;
  correlation_id = null;
  group_id = id;
  group_sequence = 0;
  content_type = "";
  subject = "";
  to = "";
  reply_to = "";
  reply_to_group_id = "";
}

unfoldable pub set_state_request : MessageSession → String → Bytes → AmqpMessage
set_state_request ms id state =
    request
      (("operation", str "com.microsoft:set-session-state") ∷ ("type", str "entity-mgmt") ∷ [])
      (some (group_properties id))
      (dict
        (field "session-id" (str_ptr ms.session_id) (field "session-state" (bytes state) empty)))

unfoldable pub check_status : Response → Exec (Unit {0})
check_status rsp = if is_success rsp.code then ok tt else err (amqp_status rsp.code rsp.description)

-- The session identifier is dereferenced where the request is made.
unfoldable pub set_state : Rpc → MessageSession → Bytes → Exec (Unit {0})
unfolding check_status
set_state rpc ms state = do
  _ ← open_rpc rpc ms
  id ← deref ms.session_id
  rsp ← rpc.retryable_rpc 5 (set_state_request ms id state)
  check_status rsp

unfoldable pub state_request : MessageSession → AmqpMessage
state_request ms =
    request (("operation", str "com.microsoft:get-session-state") ∷ []) none
      (dict (field "session-id" (str_ptr ms.session_id) empty))

-- A nil state is `none`.
unfoldable pub state_of : Value → Exec (Option Bytes)
state_of (dict v) = elim (get_field "session-state" v) [
  | some (bytes b) ↦ ok (some b)
  | some null ↦ ok none
  | some raw ↦ err (incorrect_type (new_err_incorrect_type "session-state" (bytes []) raw))
  | none ↦ err (missing_field "session-state")
]
state_of v = err (incorrect_type (new_err_incorrect_type "value" (dict empty) v))

unfoldable pub state : Rpc → MessageSession → Exec (Option Bytes)
unfolding check_status state_of
state rpc ms = do
  _ ← open_rpc rpc ms
  rsp ← rpc.retryable_rpc 5 (state_request ms)
  _ ← check_status rsp
  state_of rsp.value
