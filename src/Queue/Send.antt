-- ===== src/Queue/Send.antt =====
-- Send of queue.go, over the Send of sender.go.
use azure_service_bus_go.Prelude.{ℕ, ◌≡◌, refl, ap, ◌∙◌, sym, Option, none, some, [], String, arith}
use azure_service_bus_go.Amqp.{AmqpMessage}
use azure_service_bus_go.Amqp.Dynamic.{Bytes}
use azure_service_bus_go.Errors.{Error, err, panic, nil_pointer, Answer}
use azure_service_bus_go.Namespace.{Broker}
use azure_service_bus_go.Message.{Message}
use azure_service_bus_go.Sender.{
  Sender, new_session_and_link, link_unless, new_sender, apply_sender_options, send_with_session,
}
use azure_service_bus_go.Sender.Send.{Round, Sent, Left, ended, send as send_message}
use azure_service_bus_go.Queue.Ensure.{ensure_sender-fresh}
use azure_service_bus_go.Queue.{Queue, ensure_sender, keep_sender, session_options}

-- The sender as the loop leaves it, and what the caller gets. `none`: the fuel ran out.
abbrev pub put_back : Queue → Option Left → Queue × Option Sent
put_back q none = (q, none)
put_back q (some (s, sent)) = (record q { sender = some s }, some sent)

module _ (inject : Message → Message × Option Error) (new_amqp_message : Bytes → AmqpMessage) where
  -- The queue, the message, and the result.
  unfoldable pub send :
      ℕ → (ℕ → Round) → Answer String → Broker → Message → Queue → Message × Queue × Option Sent
  unfolding ensure_sender send_message
  send fuel rounds new_uuid broker m q =
      let (q', e) = ensure_sender broker q in
      elim e [
        | some x ↦ (m, q', some (ended (err x)))
        | none ↦ elim q'.sender [
          | none ↦ (m, q', some (ended (panic nil_pointer)))
          | some s ↦
              let (m', left) = send_message inject new_amqp_message fuel rounds new_uuid [] s m in
              let (q'', result) = put_back q' left in (m', q'', result)
        ]
      ]

new_session_and_link-settings :
    (broker : Broker) (s : Sender)
    → ((new_session_and_link broker s).0.session_id ≡ s.session_id)
      × ((new_session_and_link broker s).0.entity_path ≡ s.entity_path)
unfolding new_session_and_link
new_session_and_link-settings broker s = ground arith

keep_sender-some :
    (q : Queue) (s : Sender) (e : Option Error)
    → (keep_sender q (some s, e)).1 ≡ none
    → (keep_sender q (some s, e)).0 ≡ record q { sender = some s }
unfolding keep_sender
keep_sender-some q s none h = refl
keep_sender-some q s (some x) h = cc

made_with :
    (broker : Broker) (q : Queue) (required : Option String)
    → (keep_sender q (new_sender broker q.namespace q.name (session_options required))).1 ≡ none
    → (s : Sender) × ((keep_sender q
          (new_sender broker q.namespace q.name (session_options required))).0
        ≡ record q { sender = some s })
      × (s.session_id ≡ required)
      × (s.entity_path ≡ q.name)
unfolding new_sender link_unless apply_sender_options send_with_session
made_with broker q none h =
    let (id, path) = new_session_and_link-settings broker _ in
    (_, keep_sender-some q _ _ h, id, path)
made_with broker q (some required) h =
    let (id, path) = new_session_and_link-settings broker _ in
    (_, keep_sender-some q _ _ h, id, path)

-- Where a queue has no sender and ensureSender succeeds, the queue has one for its own name and with
-- the session that it requires, if it requires one, and nothing else of it has changed.
pub ensure_sender-made :
    (broker : Broker) (q : Queue)
    → q.sender ≡ none
    → (ensure_sender broker q).1 ≡ none
    → (s : Sender) × ((ensure_sender broker q).0 ≡ record q { sender = some s })
      × (s.session_id ≡ q.required_session_id)
      × (s.entity_path ≡ q.name)
ensure_sender-made broker q fresh h =
    let e = ensure_sender-fresh broker q fresh in
    let (s, made, id, path) =
      made_with broker q q.required_session_id (sym (ap (λ p. p.1) e) ∙ h) in
    (s, ap (λ p. p.0) e ∙ made, id, path)
