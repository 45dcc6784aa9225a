-- ===== src/Topic/Alike.antt =====
-- A topic beside a queue (topic.go, queue.go).
use azure_service_bus_go.Prelude.{
  ℕ, ◌≡◌, refl, Option, none, some, [], String, Option-cases, inl, inr,
}
use azure_service_bus_go.Amqp.{AmqpMessage}
use azure_service_bus_go.Amqp.Dynamic.{Bytes}
use azure_service_bus_go.Errors.{Error, Answer}
use azure_service_bus_go.Namespace.{Broker}
use azure_service_bus_go.Message.{Message}
use azure_service_bus_go.Sender.{Sender}
use azure_service_bus_go.Sender.Send.{Round, Sent, Left}
use azure_service_bus_go.Receiver.{ReceiveMode}
use azure_service_bus_go.Queue
use azure_service_bus_go.Queue.{Queue}
use azure_service_bus_go.Queue.Send as QueueSend
use azure_service_bus_go.Topic.{Topic, ensure_sender, keep_sender, send, close, put_back}

-- The queue of the same name and sender, with no receiver, and that requires no session.
abbrev pub as_queue : ReceiveMode → Topic → Queue
as_queue mode t = record {
  namespace = t.namespace;
  name = t.name;
  sender = t.sender;
  receiver = none;
  receive_mode = mode;
  required_session_id = none;
}

keep_sender-as_queue :
    (mode : ReceiveMode) (t : Topic) (made : Option Sender × Option Error)
    → Queue.keep_sender (as_queue mode t) made
      ≡ (as_queue mode (keep_sender t made).0, (keep_sender t made).1)
unfolding Queue.keep_sender keep_sender
keep_sender-as_queue mode t (s, none) = refl
keep_sender-as_queue mode t (s, some x) = refl

ensure_sender-as_queue :
    (mode : ReceiveMode) (broker : Broker) (t : Topic)
    → Queue.ensure_sender broker (as_queue mode t)
      ≡ (as_queue mode (ensure_sender broker t).0, (ensure_sender broker t).1)
unfolding Queue.ensure_sender ensure_sender
ensure_sender-as_queue mode broker t = elim (Option-cases t.sender) [
  | inl fresh ↦ rw fresh (keep_sender-as_queue mode _ _)
  | inr (s, had) ↦ rw (had)
]

close-as_queue :
    (close_client : Option ℕ → Option Error) (mode : ReceiveMode) (t : Topic)
    → Queue.close close_client (as_queue mode t) ≡ close close_client t
unfolding Queue.close Queue.close_sender close
close-as_queue close_client mode t = elim (Option-cases t.sender) [
  | inl fresh ↦ rw (fresh)
  | inr (s, had) ↦ rw (had)
]

put_back-as_queue :
    (mode : ReceiveMode) (m : Message) (t : Topic) (left : Option Left)
    → ◌≡◌ {A = Message × Queue × Option Sent}
        (let (q, result) = QueueSend.put_back (as_queue mode t) left in (m, q, result))
        (let (t', result) = put_back t left in (m, as_queue mode t', result))
put_back-as_queue mode m t none = refl
put_back-as_queue mode m t (some (s, sent)) = refl

send-as_queue :
    (inject : Message → Message × Option Error) (new_amqp_message : Bytes → AmqpMessage) (fuel : ℕ)
    (rounds : ℕ → Round) (new_uuid : Answer String) (broker : Broker) (m : Message)
    (mode : ReceiveMode) (t : Topic)
    → QueueSend.send inject new_amqp_message fuel rounds new_uuid broker m (as_queue mode t) ≡ (
        let (m', t', result) = send inject new_amqp_message fuel rounds new_uuid broker [] m t in
        (m', as_queue mode t', result))
unfolding QueueSend.send send
send-as_queue inject new_amqp_message fuel rounds new_uuid broker m mode t =
    let same = ensure_sender-as_queue mode broker t in
    elim (Option-cases (ensure_sender broker t).1) [
      | inr (x, failed) ↦ rw (same, failed, QueueSend.send, send) (rw same)
      | inl made ↦ elim (Option-cases (ensure_sender broker t).0.sender) [
        | inl missing ↦ rw (same, made, same, missing, QueueSend.send, send) (rw same)
        | inr (s, had) ↦
            rw (same, made, same, had, QueueSend.send, send)
              (rw same (put_back-as_queue mode _ _ _))
      ]
    ]

-- A topic sends as the queue of its name that requires no session does, and closes as a queue that
-- has not received: with the same message, result and calls, and with the same sender left.
pub send-close-as_queue :
    (inject : Message → Message × Option Error) (new_amqp_message : Bytes → AmqpMessage) (fuel : ℕ)
    (rounds : ℕ → Round) (new_uuid : Answer String) (broker : Broker) (m : Message)
    (close_client : Option ℕ → Option Error) (mode : ReceiveMode) (t : Topic)
    → (QueueSend.send inject new_amqp_message fuel rounds new_uuid broker m (as_queue mode t) ≡ (
        let (m', t', result) = send inject new_amqp_message fuel rounds new_uuid broker [] m t in
        (m', as_queue mode t', result)))
      × (Queue.close close_client (as_queue mode t) ≡ close close_client t)
send-close-as_queue inject new_amqp_message fuel rounds new_uuid broker m close_client mode t = (
  send-as_queue inject new_amqp_message fuel rounds new_uuid broker m mode t,
  close-as_queue close_client mode t,
)
