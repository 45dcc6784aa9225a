-- ===== src/Tests/Queue.antt =====
-- queue.go, lockrenewal.go, message_session.go and queue_manager.go at concrete data.
use azure_service_bus_go.Prelude.{
  ℕ, ◌≡◌, ◌↔◌, ◌⊎◌, refl, false, List, Option, none, some, [], ◌∷◌, String, str_eq, ◌==◌,
  if◌then◌else◌,
}
use azure_service_bus_go.Prelude.Int.{pos}
use azure_service_bus_go.Amqp.{AmqpMessage}
use azure_service_bus_go.Amqp.Dynamic.{
  Bytes, Time, utc, time, str, str_ptr, bytes, dict, empty, field, Value, null,
}
use azure_service_bus_go.Errors.{Error, Exec, Response, ok, panic, nil_pointer, foreign}
use azure_service_bus_go.Message.{Message}
use azure_service_bus_go.Receiver.{Receiver, receive_and_delete_mode}
use azure_service_bus_go.Rpc.{Rpc}
use azure_service_bus_go.Queue.{Queue, close}
use azure_service_bus_go.Queue.Close.{close-panics}
use azure_service_bus_go.Queue.Renewal.{renew_locks, TokensOf, Renewed, renew_locks-eq-ok}
use azure_service_bus_go.MessageSession.{MessageSession, renew_lock, zero_time}
use azure_service_bus_go.MessageSession.State.{value_of}
use azure_service_bus_go.Tests.Message.{greeting}
use azure_service_bus_go.Tests.Sender.{broker, session}
use azure_service_bus_go.Tests.Receiver.{receiver}

abbrev pub queue : Queue
queue = record {
  namespace = record { name = "n"; suffix = "servicebus.windows.net" };
  name = "q";
  sender = none;
  receiver = some (record receiver { connection = some 7 });
  receive_mode = receive_and_delete_mode;
  required_session_id = none;
}

-- Only the connection with the number 7 fails to close.
abbrev pub close_client : Option ℕ → Option Error
close_client none = none
close_client (some n) = if n == 7 then some (foreign "reset") else none

close-panics_example : ((close close_client queue).1 ≡ panic nil_pointer) ↔ (
    (r : Receiver) × (e : Error) × (queue.receiver ≡ some r)
    × (close_client r.connection ≡ some e)
    × (queue.sender ≡ none))
close-panics_example = close-panics close_client queue

-- A server that answers every request alike.
abbrev pub answering : Value → Rpc
answering v = record {
  new_link = λ connection path. none;
  new_link_with_session = λ connection amqp_session path. none;
  retryable_rpc = λ tries request. ok (record { code = pos 200; description = ""; value = v });
}

abbrev tokened : Message
tokened = record greeting { lock_token = some (1 ∷ 2 ∷ []) }

renew_locks-eq-ok_example :
    (tokens : List Bytes) × TokensOf (greeting ∷ tokened ∷ []) tokens
    × ((renew_locks (answering null) broker queue.namespace "q" (greeting ∷ tokened ∷ []) ≡ ok tt)
        ↔ ((tokens ≡ []) ⊎ Renewed (answering null) broker queue.namespace "q" tokens))
renew_locks-eq-ok_example =
    renew_locks-eq-ok (answering null) broker queue.namespace "q" (greeting ∷ tokened ∷ [])

abbrev pub noon : Time
noon = record { nanos = pos 43_200_000_000_000; location = utc }

abbrev pub message_session : MessageSession
message_session = record {
  receiver = record receiver { connection = some 7; session = some session };
  entity = "q";
  session_id = some "s";
  lock_expiration = noon;
  is_closed = false;
}

abbrev later : Time
later = record noon { nanos = pos 43_230_000_000_000 }

abbrev extended : Rpc
extended = answering (dict (field "expiration" (time later) empty))

abbrev mistyped : Rpc
mistyped = answering (dict (field "expiration" (str "noon") empty))

-- The lock's end is lost, though it was at noon.
forgets_lock : (renew_lock mistyped none message_session).0.lock_expiration ≡ zero_time
unfolding renew_lock
forgets_lock = refl

-- A server whose state is what it holds for each session. Every session is locked.
abbrev States : Type 0
States = String → Option Bytes

abbrev no_states : States
no_states k = none

abbrev answer_to : States → Value → Exec Response
answer_to s (dict (field name (str_ptr (some id)) empty)) = ok (record {
  code = pos 200;
  description = "";
  value = dict (field "session-state" (value_of (s id)) empty);
})
answer_to s v = ok (record { code = pos 200; description = ""; value = null })

abbrev keeper : States → Rpc
keeper s = record (answering null) { retryable_rpc = λ tries request. answer_to s request.value }

abbrev stored : States → Value → States
stored s (dict (field name (str_ptr (some id)) (field other (bytes b) rest))) k =
    if str_eq id k then some b else s k
stored s v k = s k

abbrev next : States → AmqpMessage → States
next s request = stored s request.value
