-- ===== src/Queue.antt =====
-- queue.go, and the lock renewal of lockrenewal.go in the child Renewal. A queue makes its sender
-- once and a receiver for each call that receives. What receives and sends messages
-- stands in the children, and what is proved of this file in Close and Ensure.
pub mod Renewal
pub mod Ensure
pub mod Close
pub mod Schedule
pub mod Send
pub mod Transit
pub mod Concurrent
pub mod Overlap
pub mod Receive
use azure_service_bus_go.Prelude.{ℕ, Option, none, some, List, [], ◌∷◌, ◌++◌, String}
use azure_service_bus_go.Prelude.Int.{pos}
use azure_service_bus_go.Errors.{Error, Exec, ok, err, panic, blocked, nil_pointer, ◌>>◌}
use azure_service_bus_go.Namespace.{Namespace, Broker}
use azure_service_bus_go.Message.{Message}
use azure_service_bus_go.Iterator.Options.{
  PeekIterator, PeekOption, new_peek_iterator, peek_with_page_size,
}
use azure_service_bus_go.Iterator.Page.{Server, Context}
use azure_service_bus_go.Iterator.Fetch as Fetch
use azure_service_bus_go.Sender as Sender
use azure_service_bus_go.Receiver as Receiver
use azure_service_bus_go.Sender.{Closed, Sender, SenderOption, send_with_session, new_sender}
use azure_service_bus_go.Receiver.{
  Receiver, ReceiverOption, ReceiveMode, peek_lock_mode, receive_and_delete_mode,
  receiver_with_receive_mode, new_receiver,
}

-- A nil pointer is `none`. The mutexes are left out here; they stand in the children Concurrent and Overlap.
pub record Queue : Type 0 where
  pub namespace : Namespace
  pub name : String
  pub sender : Option Sender
  pub receiver : Option Receiver
  pub receive_mode : ReceiveMode
  pub required_session_id : Option String

abbrev pub QueueOption : Type 0
QueueOption = Queue → Queue × Option Error

-- QueueWithReceiveAndDelete
unfoldable pub queue_with_receive_and_delete : QueueOption
queue_with_receive_and_delete q = (record q { receive_mode = receive_and_delete_mode }, none)

apply_queue_options : List QueueOption → Queue → Exec Queue
apply_queue_options [] q = ok q
apply_queue_options (option ∷ options) q =
    let (q', e) = option q in elim e [ some x ↦ err x | none ↦ apply_queue_options options q' ]

unfoldable pub new_queue : Namespace → String → List QueueOption → Exec Queue
unfolding apply_queue_options
new_queue ns name options = apply_queue_options options (record {
  namespace = ns;
  name = name;
  sender = none;
  receiver = none;
  receive_mode = peek_lock_mode;
  required_session_id = none;
})

-- A receiver that comes with an error is dropped.
unfoldable pub keep_receiver : Queue → Option Receiver × Option Error → Queue × Option Error
keep_receiver q (r, some x) = (q, some x)
keep_receiver q (r, none) = (record q { receiver = r }, none)

-- The result is the error, or nil.
unfoldable pub ensure_receiver : Broker → List ReceiverOption → Queue → Queue × Option Error
unfolding new_receiver keep_receiver
ensure_receiver broker options q = keep_receiver q (
    new_receiver broker q.namespace q.name
      (options ++ (receiver_with_receive_mode q.receive_mode ∷ [])))

abbrev pub session_options : Option String → List SenderOption
session_options none = []
session_options (some id) = send_with_session id ∷ []

-- A sender that comes with an error is dropped.
unfoldable pub keep_sender : Queue → Option Sender × Option Error → Queue × Option Error
keep_sender q (s, some x) = (q, some x)
keep_sender q (s, none) = (record q { sender = s }, none)

-- The result is the error, or nil.
unfoldable pub ensure_sender : Broker → Queue → Queue × Option Error
unfolding new_sender keep_sender
ensure_sender broker q = elim q.sender [
  | some _ ↦ (q, none)
  | none ↦
      keep_sender q (new_sender broker q.namespace q.name (session_options q.required_session_id))
]

abbrev prefixed : List (Option ℕ) → Closed → Closed
prefixed calls (more, result) = (calls ++ more, result)

-- `close_client` is amqp.Client.Close.
module _ (close_client : Option ℕ → Option Error) where
  -- q.sender.Close where the receiver's failed with `e`: its result is dropped, and it reads the
  -- fields of a sender that may be nil.
  close_after : Error → Option Sender → Closed
  unfolding Sender.close
  close_after e none = ([], panic nil_pointer)
  close_after e (some s) = ((Sender.close close_client s).0, err e)

  unfoldable pub close_sender : Option Sender → Closed
  unfolding Sender.close
  close_sender none = ([], ok tt)
  close_sender (some s) = Sender.close close_client s

  -- What follows the receiver's Close.
  close_rest : Closed → Option Sender → Closed
  unfolding close_after close_sender
  close_rest (calls, ok _) sender = prefixed calls (close_sender sender)
  close_rest (calls, err e) sender = prefixed calls (close_after e sender)
  close_rest (calls, panic x) sender = (calls, panic x)
  close_rest (calls, blocked) sender = (calls, blocked)

  unfoldable pub close : Queue → Closed
  unfolding close_rest close_sender Receiver.close
  close q = elim q.receiver [
    | none ↦ close_sender q.sender
    | some r ↦ close_rest (Receiver.close close_client r) q.sender
  ]

-- Peek, behind ensureReceiver.
unfoldable pub peek :
    Broker → List (PeekOption Message) → Queue → Queue × Exec (PeekIterator Message)
unfolding ensure_receiver
peek broker options q =
    let (q', e) = ensure_receiver broker [] q in
    elim e [ some x ↦ (q', err x) | none ↦ (q', new_peek_iterator q.name options) ]

unfoldable pub peek_one :
    Server → Context → Broker → List (PeekOption Message) → Queue → Queue × Exec Message
unfolding peek
peek_one server ctx broker options q =
    let (q', made) = peek broker (options ++ (peek_with_page_size (pos 1) ∷ [])) q in
    elim made [
      | ok it ↦ (q', (Fetch.next server ctx it).1)
      | err e ↦ (q', err e)
      | panic x ↦ (q', panic x)
      | blocked ↦ (q', blocked)
    ]
