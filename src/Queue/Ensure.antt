-- ===== src/Queue/Ensure.antt =====
-- ensureSender and ensureReceiver of queue.go.
use azure_service_bus_go.Prelude.{
  ◌≡◌, true, refl, sym, ap, ◌∙◌, inl, inr, Option-cases, Option, none, some, List, [], ◌∷◌, String,
  arith,
}
use azure_service_bus_go.Errors.{Error}
use azure_service_bus_go.Namespace.{Namespace, Broker}
use azure_service_bus_go.Receiver.{
  Receiver, new_receiver, receiver_with_session, receiver_with_receive_mode, apply_options,
}
use azure_service_bus_go.Receiver.Link.{new_session_and_link-settings}
use azure_service_bus_go.Sender.{Sender, SenderOption, new_sender, link_unless}
use azure_service_bus_go.Queue.{
  Queue, ensure_sender, ensure_receiver, keep_sender, keep_receiver, session_options,
}

link_unless-eq-none :
    (broker : Broker) (started : Sender × Option Error)
    → (link_unless broker started).1 ≡ none
    → (s : Sender) × ((link_unless broker started).0 ≡ some s)
unfolding link_unless
link_unless-eq-none broker (s, some x) h = cc
link_unless-eq-none broker (s, none) h = (_, refl)

-- newSender returns a sender wherever it returns no error.
new_sender-eq-none :
    (broker : Broker) (ns : Namespace) (name : String) (options : List SenderOption)
    → (new_sender broker ns name options).1 ≡ none
    → (s : Sender) × ((new_sender broker ns name options).0 ≡ some s)
unfolding new_sender
new_sender-eq-none broker ns name options h = link_unless-eq-none broker _ h

keep_sender-eq-none :
    (q : Queue) (made : Option Sender × Option Error)
    → (made.1 ≡ none → (s : Sender) × (made.0 ≡ some s))
    → (keep_sender q made).1 ≡ none
    → (s : Sender) × ((keep_sender q made).0.sender ≡ some s)
unfolding keep_sender
keep_sender-eq-none q (s, some x) f h = cc
keep_sender-eq-none q (s, none) f h = f refl

pub ensure_sender-fresh :
    (broker : Broker) (q : Queue)
    → q.sender ≡ none
    → ensure_sender broker q
      ≡ keep_sender q (new_sender broker q.namespace q.name (session_options q.required_session_id))
unfolding ensure_sender
ensure_sender-fresh broker q h = rw (h)

pub ensure_sender-eq-none :
    (broker : Broker) (q : Queue)
    → (ensure_sender broker q).1 ≡ none
    → (s : Sender) × ((ensure_sender broker q).0.sender ≡ some s)
unfolding ensure_sender
ensure_sender-eq-none broker q h = elim (Option-cases q.sender) [
  | inr (s, had) ↦ (s, ground arith)
  | inl fresh ↦
      let e = ensure_sender-fresh broker q fresh in
      let options = session_options q.required_session_id in
      let made = new_sender-eq-none broker q.namespace q.name options in
      let (s, kept) = keep_sender-eq-none q _ made (sym (ap (λ p. p.1) e) ∙ h) in
      (s, ap (λ p. p.0.sender) e ∙ kept)
]

pub ensure_sender-has :
    (broker : Broker) (q : Queue) (s : Sender)
    → q.sender ≡ some s
    → ensure_sender broker q ≡ (q, none)
unfolding ensure_sender
ensure_sender-has broker q s h = ground arith

-- Once ensureSender has succeeded, it succeeds again, with any broker, and changes nothing.
pub ensure_sender-twice :
    (broker later : Broker) (q : Queue)
    → (ensure_sender broker q).1 ≡ none
    → ensure_sender later (ensure_sender broker q).0 ≡ ((ensure_sender broker q).0, none)
unfolding ensure_sender
ensure_sender-twice broker later q h =
    let (s, made) = ensure_sender-eq-none broker q h in ensure_sender-has later _ s made

-- The receiver that a queue has does not matter to ensureReceiver: with another one, or with none,
-- it has the same outcome, and where it succeeds the queue ends in the same state.
pub ensure_receiver-replaces :
    (broker : Broker) (q : Queue) (session_id : Option String) (old : Option Receiver)
    → (ensure_receiver broker (receiver_with_session session_id ∷ []) q).1 ≡ none
    → ensure_receiver broker (receiver_with_session session_id ∷ []) (record q { receiver = old })
      ≡ ensure_receiver broker (receiver_with_session session_id ∷ []) q
unfolding ensure_receiver
ensure_receiver-replaces broker q session_id old h = ground arith

keep_receiver-eq-none :
    (q : Queue) (r : Receiver) (e : Option Error)
    → (keep_receiver q (some r, e)).1 ≡ none
    → (keep_receiver q (some r, e)).0 ≡ record q { receiver = some r }
unfolding keep_receiver
keep_receiver-eq-none q r none h = refl
keep_receiver-eq-none q r (some x) h = cc

-- Where ensureReceiver succeeds, the queue has a receiver of its own mode and name with the session
-- that was asked for, and nothing else of it has changed.
pub ensure_receiver-eq-none :
    (broker : Broker) (q : Queue) (session_id : Option String)
    → (ensure_receiver broker (receiver_with_session session_id ∷ []) q).1 ≡ none
    → (r : Receiver) × ((ensure_receiver broker (receiver_with_session session_id ∷ []) q).0
        ≡ record q { receiver = some r })
      × (r.mode ≡ q.receive_mode)
      × (r.session_id ≡ session_id)
      × (r.use_sessions ≡ true)
      × (r.entity_path ≡ q.name)
unfolding ensure_receiver new_receiver apply_options receiver_with_session
    receiver_with_receive_mode
ensure_receiver-eq-none broker q session_id h =
    let (mode, session, sessions, path) = new_session_and_link-settings broker _ in
    (_, keep_receiver-eq-none q _ _ h, mode, session, sessions, path)
