-- ===== src/Subscription.antt =====
-- subscription.go: NewSubscription and its option, ensureReceiver, Peek, PeekOne and Close. What
-- receives stands in the child Receive, and what is proved in Paths and Alike.
pub mod Receive
pub mod Paths
pub mod Alike
use Prim.Native.String.{◌++◌ as ◌<>◌}
use azure_service_bus_go.Prelude.{ℕ, Option, none, some, List, [], ◌∷◌, ◌++◌, String}
use azure_service_bus_go.Prelude.Int.{pos}
use azure_service_bus_go.Errors.{Error, Exec, ok, err, panic, blocked, from_error}
use azure_service_bus_go.Namespace.{Namespace, Broker}
use azure_service_bus_go.Message.{Message}
use azure_service_bus_go.Iterator.Options.{
  PeekIterator, PeekOption, new_peek_iterator, peek_with_page_size,
}
use azure_service_bus_go.Iterator.Page.{Server, Context}
use azure_service_bus_go.Iterator.Fetch as Fetch
use azure_service_bus_go.Receiver as Receiver
use azure_service_bus_go.Receiver.{
  Receiver, ReceiverOption, ReceiveMode, peek_lock_mode, receive_and_delete_mode,
  receiver_with_receive_mode, new_receiver,
}
use azure_service_bus_go.Topic.{Topic}

-- A nil pointer is `none`. The topic is not, and its name alone is read.
pub record Subscription : Type 0 where
  pub namespace : Namespace
  pub name : String
  pub topic : Topic
  pub receiver : Option Receiver
  pub receive_mode : ReceiveMode
  pub required_session_id : Option String

abbrev pub SubscriptionOption : Type 0
SubscriptionOption = Subscription → Subscription × Option Error

-- SubscriptionWithReceiveAndDelete
unfoldable pub subscription_with_receive_and_delete : SubscriptionOption
subscription_with_receive_and_delete s = (record s { receive_mode = receive_and_delete_mode }, none)

apply_subscription_options : List SubscriptionOption → Subscription → Exec Subscription
apply_subscription_options [] s = ok s
apply_subscription_options (option ∷ options) s =
    let (s', e) = option s in
    elim e [ some x ↦ err x | none ↦ apply_subscription_options options s' ]

-- The receive mode has its zero value, PeekLockMode.
unfoldable pub new_subscription : Topic → String → List SubscriptionOption → Exec Subscription
unfolding apply_subscription_options
new_subscription topic name options = apply_subscription_options options (record {
  namespace = topic.namespace;
  name = name;
  topic = topic;
  receiver = none;
  receive_mode = peek_lock_mode;
  required_session_id = none;
})

unfoldable pub subscription_path : Subscription → String
subscription_path s = s.topic.name <> "/Subscriptions/" <> s.name

-- A receiver that comes with an error is dropped.
unfoldable pub keep_receiver :
    Subscription → Option Receiver × Option Error → Subscription × Option Error
keep_receiver s (r, some x) = (s, some x)
keep_receiver s (r, none) = (record s { receiver = r }, none)

-- The result is the error, or nil.
unfoldable pub ensure_receiver :
    Broker → List ReceiverOption → Subscription → Subscription × Option Error
unfolding new_receiver keep_receiver subscription_path
ensure_receiver broker options s = keep_receiver s (
    new_receiver broker s.namespace (subscription_path s)
      (options ++ (receiver_with_receive_mode s.receive_mode ∷ [])))

-- Peek, behind ensureReceiver. The entity has the subscription's name.
unfoldable pub peek :
    Broker → List (PeekOption Message) → Subscription → Subscription × Exec (PeekIterator Message)
unfolding ensure_receiver
peek broker options s =
    let (s', e) = ensure_receiver broker [] s in
    elim e [ some x ↦ (s', err x) | none ↦ (s', new_peek_iterator s.name options) ]

unfoldable pub peek_one :
    Server
    → Context
    → Broker
    → List (PeekOption Message)
    → Subscription
    → Subscription × Exec Message
unfolding peek
peek_one server ctx broker options s =
    let (s', made) = peek broker (options ++ (peek_with_page_size (pos 1) ∷ [])) s in
    elim made [
      | ok it ↦ (s', (Fetch.next server ctx it).1)
      | err e ↦ (s', err e)
      | panic x ↦ (s', panic x)
      | blocked ↦ (s', blocked)
    ]

-- The calls of amqp.Client.Close, and what Close returns.
unfoldable pub close : (Option ℕ → Option Error) → Subscription → List (Option ℕ) × Exec (Unit {0})
unfolding Receiver.close
close close_client s = elim s.receiver [
  | none ↦ ([], ok tt)
  | some r ↦ Receiver.close close_client r
]
