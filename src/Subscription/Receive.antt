-- ===== src/Subscription/Receive.antt =====
-- ReceiveOne, Receive and ReceiveOneSession of subscription.go.
use azure_service_bus_go.Prelude.{ℕ, true, Option, none, some, List, [], ◌∷◌, String}
use azure_service_bus_go.Prelude.Dict.{Dict}
use azure_service_bus_go.Amqp.{AmqpMessage}
use azure_service_bus_go.Amqp.Dynamic.{Value}
use azure_service_bus_go.Errors.{Error, Exec, ok, err, panic, nil_pointer, Answer, deref, ◌>>=◌}
use azure_service_bus_go.Namespace.{Broker}
use azure_service_bus_go.Message.{Message, SystemProperties}
use azure_service_bus_go.Message.Disposition.{Call, DispositionAction}
use azure_service_bus_go.Receiver.{Receiver, ReceiverOption, receiver_with_session}
use azure_service_bus_go.Receiver.Handle as Handle
use azure_service_bus_go.Receiver.Listen.{Listener, err_of}
use azure_service_bus_go.MessageSession.Process.{Round, HandlerCall, process_session}
use azure_service_bus_go.Subscription.{Subscription, ensure_receiver}

module _ (decode : Dict Value → Option SystemProperties × Option Error)
    (extract : Message → Exec (Unit {0})) (handler : Message → Option DispositionAction)
    (next : ℕ → Answer AmqpMessage) where
  -- The message that was handled and the calls that settle it, or the error.
  unfoldable pub receive_one : Broker → Subscription → Subscription × Exec (Message × List Call)
  unfolding ensure_receiver Handle.receive_one
  receive_one broker s =
      let (s', e) = ensure_receiver broker [] s in
      elim e [
        | some x ↦ (s', err x)
        | none ↦ (s', deref s'.receiver >>= Handle.receive_one decode extract handler next)
      ]

-- What follows ensureReceiver in Receive. Listen sets the receiver's `done`.
unfoldable pub listen_until :
    {A : Type 0} → Listener A → Subscription → Option Receiver → Subscription × Exec (Option Error)
unfolding err_of
listen_until stopped s none = (s, panic nil_pointer)
listen_until stopped s (some r) =
    (record s { receiver = some (record r { listening = true }) }, ok (err_of stopped))

-- `stopped` is the listener that Listen has started, when its context is done. The result is the
-- error, or nil.
unfoldable pub receive :
    {A : Type 0} → Broker → Listener A → Subscription → Subscription × Exec (Option Error)
unfolding ensure_receiver listen_until
receive broker stopped s =
    let (s', e) = ensure_receiver broker [] s in
    elim e [ some x ↦ (s', ok (some x)) | none ↦ listen_until stopped s' s'.receiver ]

-- The calls of the handler, the subscription, and the error or nil.
abbrev pub SessionRun : Type 0
SessionRun = List HandlerCall × Subscription × Exec (Option Error)

-- The option is given where a session is asked for.
abbrev pub session_options : Option String → List ReceiverOption
session_options none = []
session_options (some id) = receiver_with_session (some id) ∷ []

-- What follows ensureReceiver in ReceiveOneSession: it leaves a receiver where it returns nil.
unfoldable pub process_with : Round → Option String → Subscription → Option Receiver → SessionRun
unfolding process_session
process_with round session_id s none = ([], s, panic nil_pointer)
process_with round session_id s (some r) =
    let (calls, r', result) = process_session round s.name session_id r in
    (calls, record s { receiver = some r' }, ok result)

unfoldable pub receive_one_session : Round → Option String → Subscription → SessionRun
unfolding ensure_receiver process_with
receive_one_session round session_id s =
    let named = record s { required_session_id = session_id } in
    let (s', e) = ensure_receiver round.broker (session_options session_id) named in
    elim e [ some x ↦ ([], s', ok (some x)) | none ↦ process_with round session_id s' s'.receiver ]
