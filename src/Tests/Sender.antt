-- ===== src/Tests/Sender.antt =====
-- sender.go and session.go at concrete data.
use azure_service_bus_go.Prelude.{◌≡◌, ◌≢◌, refl, false, none, some, [], ◌∷◌, arith, ℕ, zero, suc}
use azure_service_bus_go.Errors.{ok, panic, nil_pointer, amqp_error, foreign, got, failed}
use azure_service_bus_go.Session.{Session, get_next, after, get_next-ne}
use azure_service_bus_go.Namespace.{Broker, new_connection, negotiate_claim}
use azure_service_bus_go.Amqp.{AmqpMessage}
use azure_service_bus_go.Message.{Message}
use azure_service_bus_go.Message.RoundTrip.{payload_only}
use azure_service_bus_go.Sender.{Sender, new_session_and_link, recover}
use azure_service_bus_go.Sender.Send.{Round, Sent, send_loop}
use azure_service_bus_go.Sender.Stamp.{assigned, numbered}
use azure_service_bus_go.Sender.Renumber.{recover-numbered}
use azure_service_bus_go.Sender.Retry.{Done, send_loop-outcome}
use azure_service_bus_go.Sender.Recovery.{Linked, send_loop_panics}
use azure_service_bus_go.Tests.Message.{greeting}

abbrev pub session : Session
session = record { amqp_session = 4; session_id = "s-1"; counter = 4294967295 }

get_next-ne_example : (get_next (after 0 session)).1 ≢ (get_next (after 3 session)).1
get_next-ne_example = get_next-ne session 0 3 (omega arith) (omega arith) (omega arith)

abbrev pub sender : Sender
sender = record {
  namespace = record { name = "n"; suffix = "servicebus.windows.net" };
  connection = some 1;
  session = some session;
  link = some 2;
  entity_path = "q";
  session_id = none;
}

abbrev anonymous : Message
anonymous = record greeting { group_id = none; group_sequence = none }

-- The second message of the two has wrapped around.
assigned_wraps :
    numbered "s-1" 4294967295 (anonymous ∷ anonymous ∷ [])
    ≡ record anonymous { group_id = some "s-1"; group_sequence = some 0 }
      ∷ record anonymous { group_id = some "s-1"; group_sequence = some 1 }
      ∷ []
assigned_wraps = refl

abbrev pub broker : Broker
broker = record {
  dial = λ host. got 11;
  negotiate_claim = λ audience connection. none;
  open_session = λ connection. got 12;
  open_sender = λ amqp_session path. got 13;
  open_receiver = λ amqp_session options. got 14;
  new_uuid = got "u-1";
}

abbrev named : Sender
named = record sender { session_id = some "s-1" }

recover-numbered_example :
    (assigned named (anonymous ∷ []) ≡ ok (numbered "s-1" 4294967295 (anonymous ∷ [])))
    × (assigned (new_session_and_link broker named).0 (anonymous ∷ [])
        ≡ ok (numbered "s-1" 0 (anonymous ∷ [])))
unfolding recover new_session_and_link new_connection negotiate_claim
recover-numbered_example =
    recover-numbered broker named (new_session_and_link broker named).0 session 4294967295 "s-1"
      (anonymous ∷ []) (anonymous ∷ []) refl refl refl refl (refl, tt) (refl, tt) refl

linked : Linked broker sender
linked = record {
  connection = 11;
  amqp_session = 12;
  amqp_sender = 13;
  dialled = refl;
  claimed = refl;
  opened = refl;
  attached = refl;
}

-- The connection is lost in the first two rounds, and the recovery of the first fails, too.
abbrev pub rounds : ℕ → Round
rounds zero = record {
  context_is_done = false;
  sent = some (amqp_error "detached");
  broker = record broker { dial = λ host. failed (foreign "no route") };
}
rounds (suc zero) = record {
  context_is_done = false;
  sent = some (amqp_error "detached");
  broker = broker;
}
rounds (suc (suc n)) = record { context_is_done = false; sent = none; broker = broker }

abbrev wire : AmqpMessage
wire = payload_only (104 ∷ [])

send_loop-outcome_example : Done rounds wire 2 0 5 sender (ok tt)
send_loop-outcome_example =
    send_loop-outcome rounds wire 2 0 5 sender (ok tt) refl
      (refl, ("u-1", refl), (refl, ("u-1", refl), tt)) refl (omega arith)

abbrev no_entropy : ℕ → Round
no_entropy n = record {
  context_is_done = false;
  sent = some (amqp_error "detached");
  broker = record broker { new_uuid = failed (foreign "no entropy") };
}

Linked-unnamed : Linked (no_entropy 0).broker sender
Linked-unnamed = record {
  connection = 11;
  amqp_session = 12;
  amqp_sender = 13;
  dialled = refl;
  claimed = refl;
  opened = refl;
  attached = refl;
}

send_loop_panics_example :
    (s : Sender) × (sent : Sent) × (send_loop 9 no_entropy wire 0 sender ≡ some (s, sent))
    × (sent.result ≡ panic nil_pointer)
send_loop_panics_example =
    send_loop_panics no_entropy wire 0 7 sender (foreign "no entropy") Linked-unnamed refl refl refl
      refl
