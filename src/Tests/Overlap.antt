-- ===== src/Tests/Overlap.antt =====
-- Two calls of ReceiveOneSession of queue.go at once, at concrete data.
use azure_service_bus_go.Prelude.{ℕ, zero, suc, ◌≡◌, refl, Option, none, some, String, arith}
use azure_service_bus_go.Amqp.Dynamic.{Time}
use azure_service_bus_go.Namespace.{Broker, new_connection, negotiate_claim}
use azure_service_bus_go.MessageSession.{MessageSession}
use azure_service_bus_go.Receiver.{
  Receiver, new_receiver, receiver_with_session, receiver_with_receive_mode,
}
use azure_service_bus_go.Queue.{Queue}
use azure_service_bus_go.Queue.Overlap.{ensured, listening}
use azure_service_bus_go.Queue.Overlap.Origin.{Origin, Has, Reach-Origin}
use azure_service_bus_go.Queue.Overlap.Crossing.{Crossed, ensures-Crossed}
use azure_service_bus_go.Tests.Sender.{broker}
use azure_service_bus_go.Tests.Queue.{queue, noon}

abbrev unused : Queue
unused = record queue { receiver = none }

abbrev ids : ℕ → Option String
ids zero = some "a"
ids (suc n) = some "b"

abbrev brokers : ℕ → Broker
brokers i = broker

abbrev times : ℕ → Time
times i = noon

abbrev crossed : Crossed ids brokers times unused 0 1
unfolding new_receiver receiver_with_session receiver_with_receive_mode new_connection
    negotiate_claim
crossed = ensures-Crossed ids brokers times unused 0 1 (λ e. absurd (omega (arith, e))) refl refl

ensures-Crossed_example : Crossed ids brokers times unused 0 1
unfolding new_receiver receiver_with_session receiver_with_receive_mode new_connection
    negotiate_claim
ensures-Crossed_example =
    ensures-Crossed ids brokers times unused 0 1 (λ e. absurd (omega (arith, e))) refl refl

Reach-Origin_example :
    ((i : ℕ) (ms : MessageSession) (r : Receiver)
      → crossed.end.phase i ≡ listening ms r
      → (ms.session_id ≡ ids i)
        × Origin ids brokers times unused ms.receiver
        × Origin ids brokers times unused r)
    × ((i : ℕ) → crossed.end.phase i ≡ ensured → Has crossed.end.queue)
Reach-Origin_example = Reach-Origin ids brokers times unused crossed.end refl crossed.reach
