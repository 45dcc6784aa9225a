-- ===== src/Receiver/Listen.antt =====
-- Listen, listenForMessages, handleMessages and listenerHandle of receiver.go: two goroutines that
-- share an unbuffered channel and a context. A step is one that a goroutine or the caller takes.
use azure_service_bus_go.Prelude.{
  ◌≡◌, Bool, true, false, Option, none, some, List, [], ◌∷◌, ◌++◌, if◌then◌else◌,
}
use azure_service_bus_go.Errors.{Error, context_done}
use azure_service_bus_go.Receiver.{Receiver}

-- Messages are of any type here. `offered` is the message with which listenForMessages waits at
-- `msgChan <- msg`. `received` and `handled` record what has come in and what has been handled.
pub record Listener (A : Type 0) : Type 0 where
  pub received : List A
  pub offered : Option A
  pub handled : List A
  pub is_cancelled : Bool
  pub is_listening : Bool
  pub is_handling : Bool
  pub last_error : Option Error

-- Listen: both goroutines run.
abbrev pub listen : {A : Type 0} → Listener A
listen = record {
  received = [];
  offered = none;
  handled = [];
  is_cancelled = false;
  is_listening = true;
  is_handling = true;
  last_error = none;
}

module _ {A : Type 0} where
  pub data Step (s : Listener A) : Listener A → Type 0 where
    -- listenForMessage returns a message.
    receive :
        (a : A)
        → s.is_listening ≡ true
        → s.offered ≡ none
        → Step s (record s { received = s.received ++ (a ∷ []); offered = some a })
    -- The send and the receive on the channel meet, and the message is handled.
    hand_over :
        (a : A)
        → s.offered ≡ some a
        → s.is_handling ≡ true
        → Step s (record s { offered = none; handled = s.handled ++ (a ∷ []) })
    -- listenForMessage fails, and the context is done.
    stop :
        s.is_listening ≡ true
        → s.offered ≡ none
        → s.is_cancelled ≡ true
        → Step s (record s { is_listening = false })
    -- listenForMessage fails, and the connection is recovered.
    recovered : s.is_listening ≡ true → s.offered ≡ none → Step s s
    -- listenForMessage fails, and so does every attempt to recover: Close cancels the context.
    give_up :
        (e : Error)
        → s.is_listening ≡ true
        → s.offered ≡ none
        → Step s (record s { last_error = some e; is_cancelled = true; is_listening = false })
    -- handleMessages finds the context done.
    stop_handling :
        s.is_handling ≡ true → s.is_cancelled ≡ true → Step s (record s { is_handling = false })
    -- The caller's context ends, or the receiver is closed.
    cancel : Step s (record s { is_cancelled = true })

  pub data Reach (s : Listener A) : Listener A → Type 0 where
    here : Reach s s
    next : {t u : Listener A} → Reach s t → Step t u → Reach s u

  -- listenerHandle.Err: the last error, or that of the context.
  unfoldable pub err_of : Listener A → Option Error
  err_of s = elim s.last_error [
    | some e ↦ some e
    | none ↦ elim s.is_cancelled [ true ↦ some context_done | false ↦ none ]
  ]

  -- Close of the receiver or of its handle: it calls `done`, if that is set.
  unfoldable pub close_listener : Receiver → Listener A → Listener A
  close_listener r s = if r.listening then record s { is_cancelled = true } else s

  -- listenerHandle.Done: whether its channel is closed.
  unfoldable pub is_done : Listener A → Bool
  is_done s = s.is_cancelled
