-- ===== src/Subscription/Alike.antt =====
-- A subscription beside a queue (subscription.go, queue.go).
use azure_service_bus_go.Prelude.{
  ℕ, ◌≡◌, refl, Option, none, some, List, [], Option-cases, inl, inr,
}
use azure_service_bus_go.Prelude.Dict.{Dict}
use azure_service_bus_go.Amqp.{AmqpMessage}
use azure_service_bus_go.Amqp.Dynamic.{Value}
use azure_service_bus_go.Errors.{Error, Exec, Answer}
use azure_service_bus_go.Namespace.{Broker}
use azure_service_bus_go.Message.{Message, SystemProperties}
use azure_service_bus_go.Message.Disposition.{DispositionAction}
use azure_service_bus_go.Receiver.{Receiver, ReceiverOption}
use azure_service_bus_go.Receiver.Listen.{Listener}
use azure_service_bus_go.Queue
use azure_service_bus_go.Queue.{Queue}
use azure_service_bus_go.Queue.Receive as QueueReceive
use azure_service_bus_go.Subscription.{
  Subscription, subscription_path, ensure_receiver, keep_receiver,
}
use azure_service_bus_go.Subscription.Receive.{receive, receive_one, listen_until}

-- The queue at the subscription's path, with no sender.
abbrev pub as_queue : Subscription → Queue
as_queue s = record {
  namespace = s.namespace;
  name = subscription_path s;
  sender = none;
  receiver = s.receiver;
  receive_mode = s.receive_mode;
  required_session_id = s.required_session_id;
}

keep_receiver-as_queue :
    (s : Subscription) (made : Option Receiver × Option Error)
    → Queue.keep_receiver (as_queue s) made
      ≡ (as_queue (keep_receiver s made).0, (keep_receiver s made).1)
unfolding Queue.keep_receiver keep_receiver subscription_path
keep_receiver-as_queue s (r, none) = refl
keep_receiver-as_queue s (r, some x) = refl

ensure_receiver-as_queue :
    (broker : Broker) (options : List ReceiverOption) (s : Subscription)
    → Queue.ensure_receiver broker options (as_queue s)
      ≡ (as_queue (ensure_receiver broker options s).0, (ensure_receiver broker options s).1)
unfolding Queue.ensure_receiver ensure_receiver
ensure_receiver-as_queue broker options s = keep_receiver-as_queue s _

listen_until-as_queue :
    {A : Type 0} (stopped : Listener A) (s : Subscription) (r : Option Receiver)
    → QueueReceive.listen_until stopped (as_queue s) r
      ≡ (as_queue (listen_until stopped s r).0, (listen_until stopped s r).1)
unfolding QueueReceive.listen_until listen_until subscription_path
listen_until-as_queue stopped s none = refl
listen_until-as_queue stopped s (some r) = refl

receive_many-as_queue :
    {A : Type 0} (broker : Broker) (stopped : Listener A) (s : Subscription)
    → QueueReceive.receive broker stopped (as_queue s)
      ≡ (as_queue (receive broker stopped s).0, (receive broker stopped s).1)
unfolding QueueReceive.receive receive
receive_many-as_queue broker stopped s =
    let same = ensure_receiver-as_queue broker [] s in
    elim (Option-cases (ensure_receiver broker [] s).1) [
      | inr (x, failed) ↦ rw (same, failed, QueueReceive.receive, receive) (rw same)
      | inl made ↦
          rw (same, made, QueueReceive.receive, receive)
            (rw same (listen_until-as_queue stopped _ _))
    ]

receive_one-as_queue :
    (decode : Dict Value → Option SystemProperties × Option Error)
    (extract : Message → Exec (Unit {0})) (handler : Message → Option DispositionAction)
    (next : ℕ → Answer AmqpMessage) (broker : Broker) (s : Subscription)
    → QueueReceive.receive_one decode extract handler next broker (as_queue s) ≡ (
        let (s', result) = receive_one decode extract handler next broker s in
        (as_queue s', result))
unfolding QueueReceive.receive_one receive_one
receive_one-as_queue decode extract handler next broker s =
    let same = ensure_receiver-as_queue broker [] s in
    elim (Option-cases (ensure_receiver broker [] s).1) [
      | inr (x, failed) ↦ rw (same, failed, QueueReceive.receive_one, receive_one) (rw same)
      | inl made ↦ rw (same, made, QueueReceive.receive_one, receive_one) (rw same)
    ]

-- A subscription receives, one message by ReceiveOne or many by Receive, as the queue at
-- topic/Subscriptions/name with the same receive mode does: with the same message, calls and result,
-- and with the same receiver left.
pub receive-as_queue :
    (decode : Dict Value → Option SystemProperties × Option Error)
    (extract : Message → Exec (Unit {0})) (handler : Message → Option DispositionAction)
    (next : ℕ → Answer AmqpMessage) (broker : Broker) {A : Type 0} (stopped : Listener A)
    (s : Subscription)
    → (QueueReceive.receive_one decode extract handler next broker (as_queue s) ≡ (
        let (s', result) = receive_one decode extract handler next broker s in
        (as_queue s', result)))
      × (QueueReceive.receive broker stopped (as_queue s)
          ≡ (let (s', result) = receive broker stopped s in (as_queue s', result)))
receive-as_queue decode extract handler next broker stopped s = (
  receive_one-as_queue decode extract handler next broker s,
  receive_many-as_queue broker stopped s,
)
