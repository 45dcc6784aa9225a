-- ===== src/Receiver/Settle.antt =====
-- Which calls settle a received message (receiver.go, message.go).
use azure_service_bus_go.Prelude.{◌≡◌, false, Option, none, some, List, [], ◌∷◌, String, arith}
use azure_service_bus_go.Prelude.Dict.{Dict}
use azure_service_bus_go.Amqp.{AmqpMessage}
use azure_service_bus_go.Amqp.Dynamic.{Value}
use azure_service_bus_go.Errors.{Error, Exec, ok}
use azure_service_bus_go.Message.{Message, SystemProperties}
use azure_service_bus_go.Message.Disposition.{
  Call, Settlement, accept, modify, reject, DispositionAction, complete, abandon, dead_letter,
  error_internal_error,
}
use azure_service_bus_go.Message.FromAmqp.{message_from_amqp_message}
use azure_service_bus_go.Receiver.{ReceiveMode, peek_lock_mode}
use azure_service_bus_go.Receiver.Handle.{handle_message}

-- The actions that the package offers without further data, and the call that each stands for.
pub data Verdict : Type 0 where
  completed abandoned : Verdict
  dead_lettered : String → Verdict

abbrev pub action_of : Verdict → Message → DispositionAction
action_of completed m = complete m
action_of abandoned m = abandon m
action_of (dead_lettered reason) m = dead_letter m (some reason)

abbrev pub settlement_of : Verdict → Settlement
settlement_of completed = accept
settlement_of abandoned = modify false false
settlement_of (dead_lettered reason) =
    reject (record { condition = error_internal_error; description = reason; info = none })

-- A message that is read keeps hold of the amqp message that it came from.
message_from_amqp_message-message :
    (decode : Dict Value → Option SystemProperties × Option Error) (a : AmqpMessage) (m : Message)
    (e : Option Error)
    → message_from_amqp_message decode a ≡ ok (m, e)
    → m.message ≡ some a
unfolding message_from_amqp_message
message_from_amqp_message-message decode a m e h = ground arith

abbrev pub choose : Option Verdict → Message → Option DispositionAction
choose none m = none
choose (some verdict) m = some (action_of verdict m)

-- The calls that a received amqp message gets.
abbrev pub calls_on : ReceiveMode → AmqpMessage → Option Verdict → List Call
calls_on peek_lock_mode a (some verdict) =
    record { target = some a; settlement = settlement_of verdict } ∷ []
calls_on _ a _ = []

-- A message that can be read is handed to the handler. In peek-lock mode the amqp message that came
-- in then gets the one call that the handler's verdict stands for, and no call if the handler
-- returns no action; in receive-and-delete mode it gets none, whatever the handler returns.
pub handle_message-calls_on :
    (decode : Dict Value → Option SystemProperties × Option Error)
    (extract : Message → Exec (Unit {0})) (verdict : Message → Option Verdict) (mode : ReceiveMode)
    (a : AmqpMessage) (m : Message) (e : Option Error)
    → message_from_amqp_message decode a ≡ ok (m, e)
    → extract m ≡ ok tt
    → handle_message decode extract (λ event. choose (verdict event) event) mode a
      ≡ ok (m, calls_on mode a (verdict m))
unfolding handle_message complete abandon dead_letter
handle_message-calls_on decode extract verdict mode a m e read extracted =
    ground (arith, message_from_amqp_message-message decode a m e read)
