-- ===== src/Queue/Concurrent.antt =====
-- ensureSender of queue.go, called by any number of goroutines at once. A step is what happens
-- between two accesses to what they share: the mutex senderMu and the field sender. What is proved
-- stands in the children.
pub mod Standing
pub mod Serial
pub mod Guard
pub mod Progress
use azure_service_bus_go.Prelude.{
  update, ℕ, ◌==◌, ◌≡◌, Bool, true, false, Option, none, some, String, if◌then◌else◌,
}
use azure_service_bus_go.Errors.{Error}
use azure_service_bus_go.Namespace.{Broker}
use azure_service_bus_go.Sender.{Sender, new_sender}
use azure_service_bus_go.Queue.{Queue, session_options}

-- Where a call stands: before Lock; before the test of q.sender; before newSender; before the
-- assignment of what newSender has returned without an error; before the deferred Unlock, with the result;
-- and at its end.
pub data Phase : Type 0 where
  calling : Phase
  checking : Phase
  creating : Phase
  storing : Option Sender → Phase
  leaving : Option Error → Phase
  returned : Option Error → Phase

-- Between Lock and Unlock.
abbrev pub is_inside : Phase → Bool
is_inside calling = false
is_inside (returned _) = false
is_inside _ = true

-- `owner` is the call that holds senderMu. The calls are numbered, and `phase` says where each is.
pub record Calls : Type 0 where
  pub queue : Queue
  pub owner : Option ℕ
  pub phase : ℕ → Phase

abbrev pub start : Queue → Calls
start q = record { queue = q; owner = none; phase = λ i. calling }

abbrev pub to : Calls → ℕ → Phase → Calls
to c i p = record c { phase = update c.phase i p }

-- What follows newSender.
abbrev pub after_creating : Option Sender × Option Error → Phase
after_creating (s, none) = storing s
after_creating (s, some e) = leaving (some e)

-- `brokers i` answers what the call `i` asks for in newSender.
module _ (brokers : ℕ → Broker) where
  abbrev pub made_by : ℕ → Queue → Option Sender × Option Error
  made_by i q = new_sender (brokers i) q.namespace q.name (session_options q.required_session_id)

  pub data Step : Calls → Calls → Type 0 where
    lock :
        {c : Calls} (i : ℕ)
        → c.owner ≡ none
        → c.phase i ≡ calling
        → Step c (record (to c i checking) { owner = some i })
    found :
        {c : Calls} (i : ℕ) (s : Sender)
        → c.phase i ≡ checking
        → c.queue.sender ≡ some s
        → Step c (to c i (leaving none))
    missing :
        {c : Calls} (i : ℕ)
        → c.phase i ≡ checking
        → c.queue.sender ≡ none
        → Step c (to c i creating)
    create :
        {c : Calls} (i : ℕ)
        → c.phase i ≡ creating
        → Step c (to c i (after_creating (made_by i c.queue)))
    store :
        {c : Calls} (i : ℕ) (s : Option Sender)
        → c.phase i ≡ storing s
        → Step c (record (to c i (leaving none)) { queue = record c.queue { sender = s } })
    unlock :
        {c : Calls} (i : ℕ) (e : Option Error)
        → c.phase i ≡ leaving e
        → Step c (record (to c i (returned e)) { owner = none })

  pub data Reach : Calls → Calls → Type 0 where
    here : {c : Calls} → Reach c c
    next : {c d d' : Calls} → Reach c d → Step d d' → Reach c d'
