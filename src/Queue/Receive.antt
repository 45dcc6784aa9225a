-- ===== src/Queue/Receive.antt =====
-- ReceiveOne, Receive, ReceiveOneSession and ReceiveSessions of queue.go. What is proved stands in
-- the child Sessions.
pub mod Sessions
use azure_service_bus_go.Prelude.{
  ℕ, zero, suc, true, Option, none, some, List, [], ◌∷◌, ◌++◌, String,
}
use azure_service_bus_go.Prelude.Dict.{Dict}
use azure_service_bus_go.Amqp.{AmqpMessage}
use azure_service_bus_go.Amqp.Dynamic.{Value}
use azure_service_bus_go.Errors.{
  Error, Exec, ok, err, panic, blocked, nil_pointer, Answer, deref, ◌>>=◌,
}
use azure_service_bus_go.Namespace.{Broker}
use azure_service_bus_go.Message.{Message, SystemProperties}
use azure_service_bus_go.Message.Disposition.{Call, DispositionAction}
use azure_service_bus_go.Receiver.{Receiver, receiver_with_session}
use azure_service_bus_go.Receiver.Handle as Handle
use azure_service_bus_go.Receiver.Listen.{Listener, err_of}
use azure_service_bus_go.MessageSession.Process.{Round, HandlerCall, process_session}
use azure_service_bus_go.Queue.{Queue, ensure_receiver}

module _ (decode : Dict Value → Option SystemProperties × Option Error)
    (extract : Message → Exec (Unit {0})) (handler : Message → Option DispositionAction)
    (next : ℕ → Answer AmqpMessage) where
  -- The message that was handled and the calls that settle it, or the error.
  unfoldable pub receive_one : Broker → Queue → Queue × Exec (Message × List Call)
  unfolding ensure_receiver Handle.receive_one
  receive_one broker q =
      let (q', e) = ensure_receiver broker [] q in
      elim e [
        | some x ↦ (q', err x)
        | none ↦ (q', deref q'.receiver >>= Handle.receive_one decode extract handler next)
      ]

-- What follows ensureReceiver in Receive. Listen sets the receiver's `done`.
unfoldable pub listen_until :
    {A : Type 0} → Listener A → Queue → Option Receiver → Queue × Exec (Option Error)
unfolding err_of
listen_until stopped q none = (q, panic nil_pointer)
listen_until stopped q (some r) =
    (record q { receiver = some (record r { listening = true }) }, ok (err_of stopped))

-- `stopped` is the listener that Listen has started, when its context is done. The result is the
-- error, or nil.
unfoldable pub receive : {A : Type 0} → Broker → Listener A → Queue → Queue × Exec (Option Error)
unfolding ensure_receiver listen_until
receive broker stopped q =
    let (q', e) = ensure_receiver broker [] q in
    elim e [ some x ↦ (q', ok (some x)) | none ↦ listen_until stopped q' q'.receiver ]

-- The calls of the handler, the queue, and the error or nil.
abbrev pub SessionRun : Type 0
SessionRun = List HandlerCall × Queue × Exec (Option Error)

-- What follows ensureReceiver in ReceiveOneSession: it leaves a receiver where it returns nil.
process_with : Round → Option String → Queue → Option Receiver → SessionRun
unfolding process_session
process_with round session_id q none = ([], q, panic nil_pointer)
process_with round session_id q (some r) =
    let (calls, r', result) = process_session round q.name session_id r in
    (calls, record q { receiver = some r' }, ok result)

unfoldable pub receive_one_session : Round → Option String → Queue → SessionRun
unfolding ensure_receiver process_with
receive_one_session round session_id q =
    let named = record q { required_session_id = session_id } in
    let (q', e) = ensure_receiver round.broker (receiver_with_session session_id ∷ []) named in
    elim e [ some x ↦ ([], q', ok (some x)) | none ↦ process_with round session_id q' q'.receiver ]

-- What ReceiveSessions has done and returned; `none`: the fuel ran out.
abbrev pub Sessions : Type 0
Sessions = List HandlerCall × Queue × Option (Exec (Option Error))

-- The loop goes on where the session ended with nil.
go_on : SessionRun → (Queue → Sessions) → Sessions
go_on (calls, q, ok none) again = let (more, q', result) = again q in (calls ++ more, q', result)
go_on (calls, q, ok (some e)) again = (calls, q, some (ok (some e)))
go_on (calls, q, err e) again = (calls, q, some (err e))
go_on (calls, q, panic x) again = (calls, q, some (panic x))
go_on (calls, q, blocked) again = (calls, q, some blocked)

-- The rounds are those of the calls of ReceiveOneSession, in order.
unfoldable pub receive_sessions : ℕ → (ℕ → Round) → Queue → Sessions
unfolding receive_one_session go_on
receive_sessions zero rounds q = ([], q, none)
receive_sessions (suc fuel) rounds q =
    go_on (receive_one_session (rounds 0) none q) (receive_sessions fuel (λ n. rounds (suc n)))
