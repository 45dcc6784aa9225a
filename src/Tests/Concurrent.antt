-- ===== src/Tests/Concurrent.antt =====
-- Two calls of ensureSender of queue.go at once, at concrete data.
use azure_service_bus_go.Prelude.{ℕ, ◌≡◌, refl, none, some, List, true, ◌↔◌, Option}
use azure_service_bus_go.Errors.{Error}
use azure_service_bus_go.Namespace.{Broker, new_connection, negotiate_claim}
use azure_service_bus_go.Sender.{Sender, new_sender}
use azure_service_bus_go.Queue.Concurrent.{
  checking, creating, leaving, returned, after_creating, is_inside, Calls, start, to, made_by, lock,
  missing, create, store, unlock, Reach, here, next,
}
use azure_service_bus_go.Queue.Concurrent.Standing.{after_calls, result_of}
use azure_service_bus_go.Queue.Concurrent.Serial.{Reach-serial}
use azure_service_bus_go.Queue.Concurrent.Guard.{Reach-guarded}
use azure_service_bus_go.Queue.Concurrent.Progress.{Reach-can_return}
use azure_service_bus_go.Tests.Sender.{broker}
use azure_service_bus_go.Tests.Queue.{queue}

abbrev brokers : ℕ → Broker
brokers i = broker

abbrev locked : Calls
locked = record (to (start queue) 0 checking) { owner = some 0 }

abbrev empty : Calls
empty = to locked 0 creating

abbrev made : Calls
made = to empty 0 (after_creating (made_by brokers 0 queue))

abbrev kept : Calls
kept = record (to made 0 (leaving none)) {
  queue = record queue { sender = (made_by brokers 0 queue).0 };
}

abbrev left : Calls
left = record (to kept 0 (returned none)) { owner = none }

to_empty : Reach brokers (start queue) empty
to_empty = next (next here (lock 0 refl refl)) (missing 0 refl refl)

to_left : Reach brokers (start queue) left
unfolding new_sender new_connection negotiate_claim
to_left =
    next (next (next to_empty (create 0 refl)) (store 0 (made_by brokers 0 queue).0 refl))
      (unlock 0 none refl)

Reach-serial_example :
    (order : List ℕ) × (left.queue ≡ after_calls brokers queue order)
    × ((i : ℕ) (e : Option Error)
        → (left.phase i ≡ returned e) ↔ (result_of brokers queue order i ≡ some e))
Reach-serial_example = Reach-serial brokers queue left to_left refl

Reach-guarded_example :
    ((i j : ℕ) → is_inside (left.phase i) ≡ true → is_inside (left.phase j) ≡ true → i ≡ j)
    × ((i : ℕ)
        → left.phase i ≡ returned none
        → (s : Sender) × (left.queue.sender ≡ some s)
          × ((d : Calls) → Reach brokers left d → d.queue.sender ≡ some s))
Reach-guarded_example = Reach-guarded brokers queue left to_left

-- The call 0 holds the mutex, and the call 1 waits for it.
Reach-can_return_example :
    (d : Calls) × (e : Option Error) × Reach brokers empty d
    × (d.phase 1 ≡ returned e)
    × (d.owner ≡ none)
Reach-can_return_example = Reach-can_return brokers queue empty 1 to_empty
