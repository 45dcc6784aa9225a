-- ===== src/MessageSession/Process.antt =====
-- ReceiveOneSession of queue.go and subscription.go from the call of Start on, which is alike in
-- both, and its run beside the two goroutines of Listen (receiver.go). What is proved stands in the
-- child Ending.
pub mod Ending
use azure_service_bus_go.Prelude.{◌≡◌, true, Option, none, some, List, [], ◌∷◌, ◌++◌, String}
use azure_service_bus_go.Amqp.Dynamic.{Time}
use azure_service_bus_go.Errors.{Error}
use azure_service_bus_go.Namespace.{Broker}
use azure_service_bus_go.Receiver.{Receiver}
use azure_service_bus_go.Receiver.Listen.{Listener, listen, err_of}
use azure_service_bus_go.Receiver.Listen as Listen
use azure_service_bus_go.MessageSession.{MessageSession, new_message_session, close}

-- The calls of a SessionHandler, but for Handle.
pub data HandlerCall : Type 0 where
  started : MessageSession → HandlerCall
  ended : HandlerCall

-- What a call of ReceiveOneSession meets: the broker, the clock, the handler's Start, and what the
-- select returns, which the steps below produce.
pub record Round : Type 0 where
  pub broker : Broker
  pub now : Time
  pub start : MessageSession → Option Error
  pub finish : MessageSession → Option Error

-- The calls of the handler, the receiver, and the error that is returned, or nil.
unfoldable pub process_session :
    Round → String → Option String → Receiver → List HandlerCall × Receiver × Option Error
unfolding new_message_session
process_session round entity session_id r =
    let ms = new_message_session r entity session_id round.now in
    elim (round.start ms) [
      | some e ↦ (started ms ∷ [], r, some e)
      | none ↦ (started ms ∷ ended ∷ [], record r { listening = true }, round.finish ms)
    ]

-- Where the goroutine of ReceiveOneSession is: at the select, behind the deferred call of End but
-- before that of cancel, or returned.
pub data Phase : Type 0 where
  selecting : Phase
  ending returned : Option Error → Phase

-- `at_ends` has what had been handled at each call of End.
pub record Process (A : Type 0) : Type 0 where
  pub listener : Listener A
  pub session : MessageSession
  pub phase : Phase
  pub at_ends : List (List A)

-- Start has returned nil and Listen has been called.
abbrev pub process : {A : Type 0} → MessageSession → Process A
process ms = record { listener = listen; session = ms; phase = selecting; at_ends = [] }

abbrev pub call_end : {A : Type 0} → Option Error → Process A → Process A
call_end result p = record p {
  phase = ending result;
  at_ends = p.at_ends ++ (p.listener.handled ∷ []);
}

module _ {A : Type 0} where
  pub data Step (p : Process A) : Process A → Type 0 where
    listening : {l : Listener A} → Listen.Step p.listener l → Step p (record p { listener = l })
    -- Anyone calls Close on the message session.
    close_session : Step p (record p { session = close p.session })
    -- The two cases of the select. The deferred calls run last in, first out: End is the first.
    done :
        p.phase ≡ selecting
        → p.listener.is_cancelled ≡ true
        → Step p (call_end (err_of p.listener) p)
    closed : p.phase ≡ selecting → p.session.is_closed ≡ true → Step p (call_end none p)
    -- The deferred cancel.
    leave :
        (result : Option Error)
        → p.phase ≡ ending result
        → Step p (record p {
          phase = returned result;
          listener = record p.listener { is_cancelled = true };
        })

  pub data Reach (p : Process A) : Process A → Type 0 where
    here : Reach p p
    next : {q s : Process A} → Reach p q → Step q s → Reach p s
