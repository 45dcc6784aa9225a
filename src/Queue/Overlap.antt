-- ===== src/Queue/Overlap.antt =====
-- ReceiveOneSession of queue.go up to its select, called by any number of goroutines at once. A step
-- is what happens between two accesses to what they share: the mutex receiverMu, which is held in
-- ensureReceiver only, and the fields requiredSessionID and receiver, which ReceiveOneSession also
-- reads and writes without it. What is proved stands in the children.
pub mod Origin
pub mod Crossing
use azure_service_bus_go.Prelude.{ℕ, ◌≡◌, update, true, Option, none, some, List, [], ◌∷◌, String}
use azure_service_bus_go.Amqp.Dynamic.{Time}
use azure_service_bus_go.Errors.{Error}
use azure_service_bus_go.Namespace.{Broker}
use azure_service_bus_go.Receiver.{
  Receiver, new_receiver, receiver_with_session, receiver_with_receive_mode,
}
use azure_service_bus_go.MessageSession.{MessageSession, new_message_session}
use azure_service_bus_go.Queue.{Queue}

-- Where a call stands: before the assignment of requiredSessionID; before Lock; before newReceiver;
-- before the assignment of the receiver; before the deferred Unlock, with the result; before
-- newMessageSession; in or behind Start; behind Listen; and at its end with an error.
pub data Phase : Type 0 where
  calling named making : Phase
  storing : Option Receiver → Phase
  leaving : Option Error → Phase
  ensured : Phase
  started : MessageSession → Phase
  listening : MessageSession → Receiver → Phase
  failed : Error → Phase

pub record Calls : Type 0 where
  pub queue : Queue
  pub owner : Option ℕ
  pub phase : ℕ → Phase

abbrev pub start : Queue → Calls
start q = record { queue = q; owner = none; phase = λ i. calling }

abbrev pub to : Calls → ℕ → Phase → Calls
to c i p = record c { phase = update c.phase i p }

-- What follows newReceiver, and what follows ensureReceiver.
abbrev pub after_making : Option Receiver × Option Error → Phase
after_making (r, none) = storing r
after_making (r, some e) = leaving (some e)

abbrev pub after_ensuring : Option Error → Phase
after_ensuring none = ensured
after_ensuring (some e) = failed e

-- The call `i` asks for the session `ids i`; `brokers i` answers its newReceiver, and `times i` is
-- what it gets from time.Now.
module _ (ids : ℕ → Option String) (brokers : ℕ → Broker) (times : ℕ → Time) where
  abbrev pub made_by : ℕ → Queue → Option Receiver × Option Error
  made_by i q =
      new_receiver (brokers i) q.namespace q.name
        (receiver_with_session (ids i) ∷ receiver_with_receive_mode q.receive_mode ∷ [])

  pub data Step : Calls → Calls → Type 0 where
    name :
        {c : Calls} (i : ℕ)
        → c.phase i ≡ calling
        → Step c (record (to c i named) { queue = record c.queue { required_session_id = ids i } })
    lock :
        {c : Calls} (i : ℕ)
        → c.owner ≡ none
        → c.phase i ≡ named
        → Step c (record (to c i making) { owner = some i })
    make :
        {c : Calls} (i : ℕ)
        → c.phase i ≡ making
        → Step c (to c i (after_making (made_by i c.queue)))
    store :
        {c : Calls} (i : ℕ) (r : Option Receiver)
        → c.phase i ≡ storing r
        → Step c (record (to c i (leaving none)) { queue = record c.queue { receiver = r } })
    unlock :
        {c : Calls} (i : ℕ) (e : Option Error)
        → c.phase i ≡ leaving e
        → Step c (record (to c i (after_ensuring e)) { owner = none })
    begin :
        {c : Calls} (i : ℕ) (r : Receiver)
        → c.phase i ≡ ensured
        → c.queue.receiver ≡ some r
        → Step c (to c i (started (new_message_session r c.queue.name (ids i) (times i))))
    -- Start returns an error, or nil.
    refuse :
        {c : Calls} (i : ℕ) (ms : MessageSession) (e : Error)
        → c.phase i ≡ started ms
        → Step c (to c i (failed e))
    listen :
        {c : Calls} (i : ℕ) (ms : MessageSession) (r : Receiver)
        → c.phase i ≡ started ms
        → c.queue.receiver ≡ some r
        → Step c (record (to c i (listening ms r)) {
          queue = record c.queue { receiver = some (record r { listening = true }) };
        })

  pub data Reach : Calls → Calls → Type 0 where
    here : {c : Calls} → Reach c c
    next : {c d d' : Calls} → Reach c d → Step d d' → Reach c d'
