-- ===== src/Topic.antt =====
-- topic.go: NewTopic, ensureSender, Send and Close. What is proved stands in the child Alike.
pub mod Alike
use azure_service_bus_go.Prelude.{ℕ, Option, none, some, List, [], ◌∷◌, String}
use azure_service_bus_go.Amqp.{AmqpMessage}
use azure_service_bus_go.Amqp.Dynamic.{Bytes}
use azure_service_bus_go.Errors.{Error, Exec, ok, err, panic, nil_pointer, from_error, Answer}
use azure_service_bus_go.Namespace.{Namespace, Broker}
use azure_service_bus_go.Message.{Message}
use azure_service_bus_go.Sender as Sender
use azure_service_bus_go.Sender.{Closed, Sender, new_sender}
use azure_service_bus_go.Sender.Send.{Round, SendOption, Sent, Left, ended, send as send_message}

-- A nil pointer is `none`. The mutex guards one assignment and is left out.
pub record Topic : Type 0 where
  pub namespace : Namespace
  pub name : String
  pub sender : Option Sender

abbrev pub TopicOption : Type 0
TopicOption = Topic → Topic × Option Error

apply_topic_options : List TopicOption → Topic → Exec Topic
apply_topic_options [] t = ok t
apply_topic_options (option ∷ options) t =
    let (t', e) = option t in elim e [ some x ↦ err x | none ↦ apply_topic_options options t' ]

unfoldable pub new_topic : Namespace → String → List TopicOption → Exec Topic
unfolding apply_topic_options
new_topic ns name options =
    apply_topic_options options (record { namespace = ns; name = name; sender = none })

-- A sender that comes with an error is dropped.
keep_sender : Topic → Option Sender × Option Error → Topic × Option Error
keep_sender t (s, some x) = (t, some x)
keep_sender t (s, none) = (record t { sender = s }, none)

-- The result is the error, or nil.
unfoldable pub ensure_sender : Broker → Topic → Topic × Option Error
unfolding new_sender keep_sender
ensure_sender broker t = elim t.sender [
  | some _ ↦ (t, none)
  | none ↦ keep_sender t (new_sender broker t.namespace t.name [])
]

-- The sender as the loop leaves it, and what the caller gets. `none`: the fuel ran out.
abbrev put_back : Topic → Option Left → Topic × Option Sent
put_back t none = (t, none)
put_back t (some (s, sent)) = (record t { sender = some s }, some sent)

module _ (inject : Message → Message × Option Error) (new_amqp_message : Bytes → AmqpMessage) where
  -- The topic, the message, and the result.
  unfoldable pub send :
      ℕ
      → (ℕ → Round)
      → Answer String
      → Broker
      → List SendOption
      → Message
      → Topic
      → Message × Topic × Option Sent
  unfolding ensure_sender send_message
  send fuel rounds new_uuid broker options m t =
      let (t', e) = ensure_sender broker t in
      elim e [
        | some x ↦ (m, t', some (ended (err x)))
        | none ↦ elim t'.sender [
          | none ↦ (m, t', some (ended (panic nil_pointer)))
          | some s ↦
              let (m', left) =
                send_message inject new_amqp_message fuel rounds new_uuid options s m in
              let (t'', result) = put_back t' left in (m', t'', result)
        ]
      ]

-- The calls of amqp.Client.Close, and what Close returns.
unfoldable pub close : (Option ℕ → Option Error) → Topic → Closed
unfolding Sender.close
close close_client t = elim t.sender [ none ↦ ([], ok tt) | some s ↦ Sender.close close_client s ]
