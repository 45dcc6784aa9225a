-- ===== src/Tests/Sessions.antt =====
-- topic.go, subscription.go, and what receives in queue.go, at concrete data.
use azure_service_bus_go.Prelude.{
  ℕ, zero, suc, ◌≡◌, ◌≢◌, refl, true, false, none, some, [], ◌∷◌, ◌++◌,
}
use azure_service_bus_go.Errors.{ok, blocked, got, failed, foreign, deref, from_error, ◌>>=◌}
use Prim.Native.String.{◌++◌ as ◌<>◌}
use azure_service_bus_go.Rpc.{Rpc}
use azure_service_bus_go.Namespace.{new_connection, negotiate_claim}
use azure_service_bus_go.Message.RoundTrip.{payload_only}
use azure_service_bus_go.Sender.Send.{Round as SendRound}
use azure_service_bus_go.Receiver.{
  peek_lock_mode, receiver_with_session, receiver_with_receive_mode,
}
use azure_service_bus_go.MessageSession.{MessageSession, close, open_rpc}
use azure_service_bus_go.MessageSession.Process.{
  Round, HandlerCall, Process, process, returned, selecting, Step, listening, close_session, closed,
  leave,
}
use azure_service_bus_go.MessageSession.Process as Process
use azure_service_bus_go.MessageSession.Process.Ending.{
  EndedOnce, Reach-returned, handled_after_end,
}
use azure_service_bus_go.Queue.{Queue, ensure_receiver}
use azure_service_bus_go.Queue
use azure_service_bus_go.Queue.Send as QueueSend
use azure_service_bus_go.Queue.Receive as QueueReceive
use azure_service_bus_go.Queue.Receive.{receive, receive_one_session, receive_sessions}
use azure_service_bus_go.Queue.Receive.Sessions.{Bracketed, receive_sessions-Bracketed}
use azure_service_bus_go.Topic.{Topic, send}
use azure_service_bus_go.Topic as Topic
use azure_service_bus_go.Topic.Alike.{as_queue, send-close-as_queue}
use azure_service_bus_go.Subscription.{Subscription, subscription_path}
use azure_service_bus_go.Subscription.Receive as SubscriptionReceive
use azure_service_bus_go.Subscription.Alike.{as_queue as subscription_queue, receive-as_queue}
use azure_service_bus_go.Subscription.Paths.{first_started, receive_one_session-started}
use azure_service_bus_go.Tests.Message.{greeting, decode_tags}
use azure_service_bus_go.Tests.Sender.{broker}
use azure_service_bus_go.Tests.Receiver.{arrived, first, fourth}
use azure_service_bus_go.Tests.Queue.{queue, close_client, message_session, noon}

-- Start succeeds, and the session is closed by its handler.
abbrev good : Round
good = record { broker = broker; now = noon; start = λ ms. none; finish = λ ms. none }

-- No connection can be made.
abbrev bad : Round
bad = record good { broker = record broker { dial = λ host. failed (foreign "no route") } }

abbrev rounds : ℕ → Round
rounds zero = good
rounds (suc n) = bad

receive_sessions-Bracketed_example :
    Bracketed rounds (receive_sessions 5 rounds queue).0
    × ((receive_sessions 5 rounds queue).2 ≢ some (ok none))
receive_sessions-Bracketed_example = receive_sessions-Bracketed 5 rounds queue

-- The message session is closed, and the one message is handled before End.
abbrev closing : Process ℕ
closing = record (process message_session) { session = close message_session }

to_closing : Process.Reach (process message_session) closing
to_closing = Process.next Process.here close_session

abbrev left : Process ℕ
left = record closing {
  phase = returned none;
  at_ends = [] ∷ [];
  listener = record closing.listener { is_cancelled = true };
}

Reach-returned_example : EndedOnce left none × (left.listener.is_cancelled ≡ true)
unfolding close
Reach-returned_example =
    Reach-returned message_session left none
      (Process.next (Process.next to_closing (closed refl refl)) (leave none refl)) refl

abbrev waiting : Process ℕ
waiting = record closing { listener = first }

handled_after_end_example :
    (q : Process ℕ) × Process.Reach waiting q
    × (q.at_ends ≡ [] ++ ([] ∷ []))
    × (q.listener.handled ≡ [] ++ (5 ∷ []))
unfolding close
handled_after_end_example = handled_after_end waiting 5 refl refl refl refl

abbrev topic : Topic
topic = record { namespace = queue.namespace; name = "t"; sender = none }

abbrev subscription : Subscription
subscription = record {
  namespace = topic.namespace;
  name = "s";
  topic = topic;
  receiver = none;
  receive_mode = peek_lock_mode;
  required_session_id = none;
}

abbrev send_rounds : ℕ → SendRound
send_rounds n = record { context_is_done = false; sent = none; broker = broker }

send-close-as_queue_example :
    (QueueSend.send
        (λ m. (m, none))
        payload_only
        3
        send_rounds
        (got "u")
        broker
        greeting
        (as_queue peek_lock_mode topic)
      ≡ (let (m, t, result) =
            send (λ m. (m, none)) payload_only 3 send_rounds (got "u") broker [] greeting topic in
          (m, as_queue peek_lock_mode t, result)))
    × (Queue.close close_client (as_queue peek_lock_mode topic) ≡ Topic.close close_client topic)
send-close-as_queue_example =
    send-close-as_queue (λ m. (m, none)) payload_only 3 send_rounds (got "u") broker greeting
      close_client peek_lock_mode topic

abbrev begun : MessageSession
begun = record {
  receiver = record {
    namespace = topic.namespace;
    connection = some 11;
    session = some (record { amqp_session = 12; session_id = "u-1"; counter = 0 });
    link = some 14;
    entity_path = "t/Subscriptions/s";
    listening = false;
    use_sessions = true;
    session_id = some "id";
    last_error = none;
    mode = peek_lock_mode;
    prefetch = 1;
  };
  entity = "s";
  session_id = some "id";
  lock_expiration = noon;
  is_closed = false;
}

-- No link can be had.
abbrev no_rpc : Rpc
no_rpc = record {
  new_link = λ connection path. some (foreign "no route");
  new_link_with_session = λ connection amqp_session path. some (foreign "no route");
  retryable_rpc = λ tries request. blocked;
}

receive_one_session-started_example :
    (begun.receiver.entity_path ≡ "t/Subscriptions/s")
    × (begun.receiver.session_id ≡ some "id")
    × (begun.session_id ≡ some "id")
    × (open_rpc no_rpc begun
        ≡ deref begun.receiver.session >>= (λ session. from_error (
            no_rpc.new_link_with_session begun.receiver.connection session.amqp_session
              ("s" <> "/$management"))))
unfolding first_started SubscriptionReceive.receive_one_session subscription_path new_connection
    negotiate_claim receiver_with_session receiver_with_receive_mode
receive_one_session-started_example =
    receive_one_session-started good no_rpc (some "id") subscription begun refl

receive-as_queue_example :
    (QueueReceive.receive_one decode_tags
        (λ m. ok tt)
        (λ m. none)
        (λ link. got arrived)
        broker
        (subscription_queue subscription)
      ≡ (let (s, result) =
            SubscriptionReceive.receive_one decode_tags
              (λ m. ok tt)
              (λ m. none)
              (λ link. got arrived)
              broker
              subscription in
          (subscription_queue s, result)))
    × (receive broker fourth (subscription_queue subscription) ≡ (
        let (s, result) = SubscriptionReceive.receive broker fourth subscription in
        (subscription_queue s, result)))
receive-as_queue_example =
    receive-as_queue decode_tags (λ m. ok tt) (λ m. none) (λ link. got arrived) broker fourth
      subscription
