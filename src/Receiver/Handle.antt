-- ===== src/Receiver/Handle.antt =====
-- messageID, handleMessage and ReceiveOne of receiver.go. `extract` is what the global tracer's Extract does with
-- the message: it returns, or it panics where its walk by ForeachKey does.
use azure_service_bus_go.Prelude.{ℕ, Option, none, some, List, []}
use azure_service_bus_go.Prelude.Dict.{Dict}
use azure_service_bus_go.Amqp.{AmqpMessage}
use azure_service_bus_go.Amqp.Dynamic.{Value, str}
use azure_service_bus_go.Errors.{Error, Exec, ok, panic, blocked, ◌>>=◌, Answer, from_answer, deref}
use azure_service_bus_go.Message.{Message, SystemProperties}
use azure_service_bus_go.Message.Disposition.{Call, DispositionAction, complete}
use azure_service_bus_go.Message.FromAmqp.{message_from_amqp_message}
use azure_service_bus_go.Receiver.{Receiver, ReceiveMode, peek_lock_mode, receive_and_delete_mode}

unfoldable pub message_id : AmqpMessage → Value
message_id a = elim a.properties [ none ↦ str "null" | some p ↦ p.message_id ]

-- The statement `event.Complete()`: the action is made, and not run.
abbrev dropped : DispositionAction → List Call
dropped action = []

-- What follows the call of the handler.
unfoldable pub settle : ReceiveMode → Message → Option DispositionAction → Exec (List Call)
settle receive_and_delete_mode event action = ok []
settle peek_lock_mode event (some action) = action
settle peek_lock_mode event none = ok (dropped (complete event))

-- The receiver's link may be nil; `next` is what Receive of a link returns.
unfoldable pub listen_for_message : (ℕ → Answer AmqpMessage) → Receiver → Exec AmqpMessage
listen_for_message next r = do link ← deref r.link; from_answer (next link)

module _ (decode : Dict Value → Option SystemProperties × Option Error)
    (extract : Message → Exec (Unit {0})) (handler : Message → Option DispositionAction) where
  -- The message that the handler is given, and the calls that settle it. An error of
  -- messageFromAMQPMessage or of Extract is only logged.
  handle_event : ReceiveMode → Message → Exec (Message × List Call)
  unfolding settle
  handle_event mode event = elim (extract event) [
    | panic x ↦ panic x
    | blocked ↦ blocked
    | _ ↦ settle mode event (handler event) >>= (λ calls. ok (event, calls))
  ]

  unfoldable pub handle_message : ReceiveMode → AmqpMessage → Exec (Message × List Call)
  unfolding handle_event
  handle_message mode a =
      message_from_amqp_message decode a >>= (λ (event, _). handle_event mode event)

  -- ReceiveOne. The result is the message that was handled and the calls that settle it.
  unfoldable pub receive_one : (ℕ → Answer AmqpMessage) → Receiver → Exec (Message × List Call)
  unfolding handle_message listen_for_message
  receive_one next r = do a ← listen_for_message next r; handle_message r.mode a
