-- ===== src/Subscription/Paths.antt =====
-- The names under which a subscription is addressed (subscription.go).
use azure_service_bus_go.Prelude.{
  ◌≡◌, refl, ap, ◌∙◌, Option, none, some, List, ◌∷◌, String, Option-cases, inl, inr,
}
use Prim.Native.String.{◌++◌ as ◌<>◌}
use azure_service_bus_go.Errors.{Error, deref, from_error, ◌>>=◌}
use azure_service_bus_go.Namespace.{Broker}
use azure_service_bus_go.Rpc.{Rpc}
use azure_service_bus_go.Iterator.Page.{management_path}
use azure_service_bus_go.Receiver.{
  Receiver, new_receiver, apply_options, receiver_with_session, receiver_with_receive_mode,
}
use azure_service_bus_go.Receiver.Link.{new_session_and_link-settings}
use azure_service_bus_go.MessageSession.{MessageSession, new_message_session, open_rpc}
use azure_service_bus_go.MessageSession.Process.{Round, HandlerCall, started, process_session}
use azure_service_bus_go.Subscription.{
  Subscription, subscription_path, ensure_receiver, keep_receiver,
}
use azure_service_bus_go.Subscription.Receive.{receive_one_session, process_with, session_options}

keep_receiver-eq-none :
    (s : Subscription) (r : Receiver) (e : Option Error)
    → (keep_receiver s (some r, e)).1 ≡ none
    → (keep_receiver s (some r, e)).0 ≡ record s { receiver = some r }
unfolding keep_receiver
keep_receiver-eq-none s r none h = refl
keep_receiver-eq-none s r (some x) h = cc

ensure_receiver-eq-none :
    (broker : Broker) (s : Subscription) (session_id : Option String)
    → (ensure_receiver broker (session_options session_id) s).1 ≡ none
    → (r : Receiver) × ((ensure_receiver broker (session_options session_id) s).0
        ≡ record s { receiver = some r })
      × (r.session_id ≡ session_id)
      × (r.entity_path ≡ subscription_path s)
unfolding ensure_receiver new_receiver apply_options receiver_with_session
    receiver_with_receive_mode
ensure_receiver-eq-none broker s none h =
    let (_, session, _, path) = new_session_and_link-settings broker _ in
    (_, keep_receiver-eq-none s _ _ h, session, path)
ensure_receiver-eq-none broker s (some id) h =
    let (_, session, _, path) = new_session_and_link-settings broker _ in
    (_, keep_receiver-eq-none s _ _ h, session, path)

-- The message session that Start is called with, where it is.
unfoldable pub first_started : List HandlerCall → Option MessageSession
first_started (started ms ∷ rest) = some ms
first_started _ = none

process_session-started :
    (round : Round) (entity : String) (session_id : Option String) (r : Receiver)
    → first_started (process_session round entity session_id r).0
      ≡ some (new_message_session r entity session_id round.now)
unfolding first_started process_session
process_session-started round entity session_id r =
    elim (Option-cases (round.start (new_message_session r entity session_id round.now))) [
      | inl well ↦ rw (well, process_session)
      | inr (x, bad) ↦ rw (bad, process_session)
    ]

receive_one_session-made :
    (round : Round) (session_id : Option String) (s s' : Subscription) (r : Receiver)
    → ensure_receiver round.broker
        (session_options session_id)
        (record s { required_session_id = session_id })
      ≡ (s', none)
    → s'.receiver ≡ some r
    → first_started (receive_one_session round session_id s).0
      ≡ some (new_message_session r s'.name session_id round.now)
unfolding process_with receive_one_session
receive_one_session-made round session_id s s' r made has =
    rw (made, receive_one_session)
      (rw (made, has) (process_session-started round s'.name session_id r))

receive_one_session-failed :
    (round : Round) (session_id : Option String) (s : Subscription) (x : Error)
    → (ensure_receiver round.broker
        (session_options session_id)
        (record s { required_session_id = session_id })).1
      ≡ some x
    → first_started (receive_one_session round session_id s).0 ≡ none
unfolding first_started receive_one_session
receive_one_session-failed round session_id s x failed =
    rw (failed, receive_one_session, first_started)

-- Wherever ReceiveOneSession of a subscription calls Start, the receiver of the message session has
-- the path topic/Subscriptions/name and the session setting that was asked for, and the message
-- session has that identifier. The link on which it renews its lock and keeps its state is opened at
-- name/$management, under the bare name of the subscription.
pub receive_one_session-started :
    (round : Round) (rpc : Rpc) (session_id : Option String) (s : Subscription)
    (ms : MessageSession)
    → first_started (receive_one_session round session_id s).0 ≡ some ms
    → (ms.receiver.entity_path ≡ s.topic.name <> "/Subscriptions/" <> s.name)
      × (ms.receiver.session_id ≡ session_id)
      × (ms.session_id ≡ session_id)
      × (open_rpc rpc ms
          ≡ deref ms.receiver.session >>= (λ session. from_error (
              rpc.new_link_with_session ms.receiver.connection session.amqp_session
                (s.name <> "/$management"))))
unfolding subscription_path new_message_session open_rpc management_path
receive_one_session-started round rpc session_id s ms h =
    let named = record s { required_session_id = session_id } in
    let ensured = ensure_receiver round.broker (session_options session_id) named in
    elim (Option-cases ensured.1) [
      | inr (x, failed) ↦
          absurd (let none_started = receive_one_session-failed round session_id s x failed in cc)
      | inl made ↦
          let (r, is, session, path) = ensure_receiver-eq-none round.broker named session_id made in
          let first =
            receive_one_session-made round session_id s (record named { receiver = some r }) r (cc)
              refl in
          let same : ms ≡ new_message_session r s.name session_id round.now = cc in
          (
            ap (λ m. m.receiver.entity_path) same ∙ path,
            ap (λ m. m.receiver.session_id) same ∙ session,
            ap (λ m. m.session_id) same,
            ap
                (λ entity. deref ms.receiver.session >>= (λ session. from_error (
                  rpc.new_link_with_session ms.receiver.connection session.amqp_session
                    (entity <> "/$management"))))
                (ap (λ m. m.entity) same),
          )
    ]
