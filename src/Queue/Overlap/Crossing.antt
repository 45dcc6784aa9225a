-- ===== src/Queue/Overlap/Crossing.antt =====
-- Two overlapping calls of ReceiveOneSession, of which one takes the other's receiver (queue.go).
use azure_service_bus_go.Prelude.{
  ℕ, ◌==◌, ◌≡◌, ◌≢◌, refl, ap, ◌∙◌, update-at, true, false, Option, none, some, String, arith,
}
use azure_service_bus_go.Amqp.Dynamic.{Time}
use azure_service_bus_go.Namespace.{Broker}
use azure_service_bus_go.Receiver.{Receiver}
use azure_service_bus_go.MessageSession.{MessageSession, new_message_session}
use azure_service_bus_go.Queue.{Queue}
use azure_service_bus_go.Queue.Overlap.{
  calling, named, making, leaving, ensured, started, listening, Calls, start, to, after_making,
  made_by, name, lock, make, store, unlock, begin, listen, Reach, here, next,
}
use azure_service_bus_go.Queue.Overlap.Origin.{MadeBy, made_by-MadeBy}

module _ (ids : ℕ → Option String) (brokers : ℕ → Broker) (times : ℕ → Time) where
  Reach-append :
      {c c' d : Calls}
      → Reach ids brokers times c c'
      → Reach ids brokers times c' d
      → Reach ids brokers times c d
  Reach-append r here = r
  Reach-append r (next r' st) = next (Reach-append r r') st

  -- The call `i` has gone from the start to the end of ensureReceiver, and no other has moved.
  record Ensures (c : Calls) (i : ℕ) : Type 0 where
    end : Calls
    receiver : Receiver
    reach : Reach ids brokers times c end
    free : end.owner ≡ none
    has_ensured : end.phase i ≡ ensured
    others : (j : ℕ) → (i == j) ≡ false → end.phase j ≡ c.phase j
    left : end.queue ≡ record c.queue { required_session_id = ids i; receiver = some receiver }
    made : MadeBy ids brokers times c.queue i receiver

  ensures :
      (c : Calls) (i : ℕ)
      → c.owner ≡ none
      → c.phase i ≡ calling
      → (made_by ids brokers times i c.queue).1 ≡ none
      → Ensures c i
  ensures c i free at works =
      let (r, has, own) = made_by-MadeBy ids brokers times c.queue i in
      let c₁ = record (to c i named) { queue = record c.queue { required_session_id = ids i } } in
      let c₂ = record (to c₁ i making) { owner = some i } in
      let made : made_by ids brokers times i c.queue ≡ (some r, none) = λ k. (has k, works k) in
      let c₃ = to c₂ i (after_making (made_by ids brokers times i c₂.queue)) in
      let c₄ = record (to c₃ i (leaving none)) { queue = record c₃.queue { receiver = some r } } in
      let c₅ = record (to c₄ i ensured) { owner = none } in
      record {
        end = c₅;
        receiver = r;
        reach =
            next
              (next
                (next (next (next here (name i at)) (lock i free (update-at c.phase i named)))
                  (make i (update-at c₁.phase i making)))
                (store i (some r) (
                  update-at c₂.phase i (after_making (made_by ids brokers times i c₂.queue))
                  ∙ ap after_making made)))
              (unlock i none (update-at c₃.phase i (leaving none)));
        free = refl;
        has_ensured = update-at c₄.phase i ensured;
        others = λ j n. rw n refl;
        left = refl;
        made = own;
      }

  -- What the call `i` has come to: it listens in the message session `session`, on `receiver`.
  pub record Crossed (q : Queue) (i j : ℕ) : Type 0 where
    pub end : Calls
    pub session : MessageSession
    pub receiver : Receiver
    pub reach : Reach ids brokers times (start q) end
    pub listens : end.phase i ≡ listening session receiver
    pub own_name : session.session_id ≡ ids i
    pub session_of_other : session.receiver.session_id ≡ ids j
    pub listener_of_other : receiver.session_id ≡ ids j
    pub required_of_other : end.queue.required_session_id ≡ ids j

  -- Two calls of ReceiveOneSession can cross: if newReceiver makes a receiver without an error for
  -- each of them, the one can come to listen on the receiver that was made for the other's session, in a
  -- message session under its own identifier, while the queue requires the other's session of its
  -- sender.
  pub ensures-Crossed :
      (q : Queue) (i j : ℕ)
      → i ≢ j
      → (made_by ids brokers times i q).1 ≡ none
      → (made_by ids brokers times j q).1 ≡ none
      → Crossed q i j
  unfolding new_message_session
  ensures-Crossed q i j differ works_i works_j =
      let ij : (i == j) ≡ false = ground arith in
      let ji : (j == i) ≡ false = ground arith in
      let e = ensures (start q) i refl refl works_i in
      let f =
        ensures e.end j e.free (e.others j ij)
          (ap (λ x. (made_by ids brokers times j x).1) e.left ∙ works_j) in
      let has : f.end.queue.receiver ≡ some f.receiver = ap (λ x. x.receiver) f.left in
      let ms = new_message_session f.receiver f.end.queue.name (ids i) (times i) in
      let c = to f.end i (started ms) in
      record {
        end = record (to c i (listening ms f.receiver)) {
          queue = record c.queue { receiver = some (record f.receiver { listening = true }) };
        };
        session = ms;
        receiver = f.receiver;
        reach =
            next
              (next (Reach-append e.reach f.reach)
                (begin i f.receiver (f.others i ji ∙ e.has_ensured) has))
              (listen i ms f.receiver (update-at f.end.phase i (started ms)) has);
        listens = update-at c.phase i (listening ms f.receiver);
        own_name = refl;
        session_of_other = f.made.session;
        listener_of_other = f.made.session;
        required_of_other = ap (λ x. x.required_session_id) f.left;
      }
