-- ===== src/Tests/Receiver.antt =====
-- receiver.go at concrete data.
use azure_service_bus_go.Prelude.{◌≡◌, ◌++◌, refl, true, false, none, some, [], ◌∷◌, ℕ}
use azure_service_bus_go.Amqp.{AmqpMessage}
use azure_service_bus_go.Errors.{ok}
use azure_service_bus_go.Message.{Message, new_message_of}
use azure_service_bus_go.Message.Disposition.{accept}
use azure_service_bus_go.Message.FromAmqp.{message_from_amqp_message}
use azure_service_bus_go.Message.RoundTrip.{payload_only}
use azure_service_bus_go.Receiver.{Receiver, peek_lock_mode, new_session_and_link}
use azure_service_bus_go.Receiver.Link.{new_session_and_link-session_settings}
use azure_service_bus_go.Receiver.Handle.{handle_message}
use azure_service_bus_go.Receiver.Settle.{completed, choose, handle_message-calls_on}
use azure_service_bus_go.Receiver.Listen.{
  Listener, listen, receive, hand_over, cancel, Reach, here, next,
}
use azure_service_bus_go.Receiver.Delivery.{pending, Reach-in_order, Reach-stuck}
use azure_service_bus_go.Tests.Message.{decode_tags}
use azure_service_bus_go.Tests.Sender.{broker}

abbrev pub receiver : Receiver
receiver = record {
  namespace = record { name = "n"; suffix = "servicebus.windows.net" };
  connection = none;
  session = none;
  link = none;
  entity_path = "q";
  listening = false;
  use_sessions = false;
  session_id = none;
  last_error = none;
  mode = peek_lock_mode;
  prefetch = 1;
}

new_session_and_link-session_settings_example :
    new_session_and_link broker (record receiver { use_sessions = true; session_id = some "s" }) ≡ (
      record (new_session_and_link broker receiver).0 {
        use_sessions = true;
        session_id = some "s";
      },
      (new_session_and_link broker receiver).1,
    )
new_session_and_link-session_settings_example =
    new_session_and_link-session_settings broker receiver true (some "s")

abbrev pub arrived : AmqpMessage
arrived = payload_only (104 ∷ [])

event : Message
unfolding new_message_of
event = record (new_message_of (104 ∷ [])) { message = some arrived }

arrives : message_from_amqp_message decode_tags arrived ≡ ok (event, none)
unfolding message_from_amqp_message event
arrives = refl

handle_message-calls_on_example :
    handle_message decode_tags (λ m. ok tt) (λ m. choose (some completed) m) peek_lock_mode arrived
    ≡ ok (event, record { target = some arrived; settlement = accept } ∷ [])
handle_message-calls_on_example =
    handle_message-calls_on decode_tags (λ m. ok tt) (λ m. some completed) peek_lock_mode arrived
      event none arrives refl

abbrev pub first : Listener ℕ
first = record listen { received = 5 ∷ []; offered = some 5 }

abbrev second : Listener ℕ
second = record first { offered = none; handled = 5 ∷ [] }

abbrev pub third : Listener ℕ
third = record second { received = 5 ∷ 6 ∷ []; offered = some 6 }

abbrev pub fourth : Listener ℕ
fourth = record third { is_cancelled = true }

abbrev fifth : Listener ℕ
fifth = record fourth { is_handling = false }

pub to_third : Reach listen third
to_third =
    next (next (next here (receive 5 refl refl)) (hand_over 5 refl refl)) (receive 6 refl refl)

Reach-in_order_example : third.received ≡ third.handled ++ pending third.offered
Reach-in_order_example = Reach-in_order third to_third

Reach-stuck_example :
    (fifth.offered ≡ some 6)
    × (fifth.is_handling ≡ false)
    × (fifth.is_listening ≡ true)
    × (fifth.handled ≡ 5 ∷ [])
Reach-stuck_example = Reach-stuck fifth fifth 6 refl refl refl (next here cancel)
