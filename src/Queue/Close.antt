-- ===== src/Queue/Close.antt =====
-- Close of queue.go.
use azure_service_bus_go.Prelude.{ℕ, ◌≡◌, ◌↔◌, Option, none, some, [], ◌∷◌, arith}
use azure_service_bus_go.Errors.{Error, ok, panic, nil_pointer}
use azure_service_bus_go.Sender.{Sender}
use azure_service_bus_go.Receiver.{Receiver}
use azure_service_bus_go.Queue.{Queue, close}

-- Close panics exactly if the queue has a receiver whose connection fails to close, and no sender.
pub close-panics :
    (close_client : Option ℕ → Option Error) (q : Queue)
    → ((close close_client q).1 ≡ panic nil_pointer) ↔ (
        (r : Receiver) × (e : Error) × (q.receiver ≡ some r)
        × (close_client r.connection ≡ some e)
        × (q.sender ≡ none))
unfolding close
close-panics close_client q = ground arith

-- With a receiver and a sender, Close closes the receiver's connection and then the sender's, once
-- each, also where the first fails, and returns no error exactly if both are closed without one.
pub close-both :
    (close_client : Option ℕ → Option Error) (q : Queue) (r : Receiver) (s : Sender)
    → q.receiver ≡ some r
    → q.sender ≡ some s
    → ((close close_client q).0 ≡ r.connection ∷ s.connection ∷ [])
      × (((close close_client q).1 ≡ ok tt)
          ↔ ((close_client r.connection ≡ none) × (close_client s.connection ≡ none)))
unfolding close
close-both close_client q r s hr hs = ground arith
