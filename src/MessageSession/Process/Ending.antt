-- ===== src/MessageSession/Process/Ending.antt =====
-- When End is called, and what ReceiveOneSession returns (queue.go, subscription.go).
use azure_service_bus_go.Prelude.{◌≡◌, refl, ap, ◌∙◌, true, Option, none, some, List, [], ◌∷◌, ◌++◌}
use azure_service_bus_go.Errors.{Error}
use azure_service_bus_go.Receiver.Listen.{Listener, listen, err_of, hand_over, cancel}
use azure_service_bus_go.Receiver.Listen as Listen
use azure_service_bus_go.Receiver.Delivery.{err_of-none}
use azure_service_bus_go.MessageSession.{MessageSession, close}
use azure_service_bus_go.MessageSession.Process.{
  Process, process, selecting, ending, returned, call_end, Step, listening, close_session, done,
  closed, leave, Reach, here, next,
}

module _ {A : Type 0} where
  -- End has been called once, and nil is returned only where the message session is closed.
  abbrev pub EndedOnce : Process A → Option Error → Type 0
  EndedOnce p result =
      (handled : List A) × (p.at_ends ≡ handled ∷ []) × (result ≡ none → p.session.is_closed ≡ true)

  record Inv (p : Process A) : Type 0 where
    reached : Listen.Reach listen p.listener
    not_yet : p.phase ≡ selecting → p.at_ends ≡ []
    once : (result : Option Error) → p.phase ≡ ending result → EndedOnce p result
    left :
        (result : Option Error)
        → p.phase ≡ returned result
        → EndedOnce p result × (p.listener.is_cancelled ≡ true)

  stays_cancelled :
      {s t : Listener A} → Listen.Step s t → s.is_cancelled ≡ true → t.is_cancelled ≡ true
  stays_cancelled (Listen.receive a _ _) h = h
  stays_cancelled (Listen.hand_over a _ _) h = h
  stays_cancelled (Listen.stop _ _ _) h = h
  stays_cancelled (Listen.recovered _ _) h = h
  stays_cancelled (Listen.give_up e _ _) h = refl
  stays_cancelled (Listen.stop_handling _ _) h = h
  stays_cancelled Listen.cancel h = refl

  call_end-Inv :
      (p : Process A) (e : Option Error)
      → Inv p
      → p.phase ≡ selecting
      → (e ≡ none → p.session.is_closed ≡ true)
      → Inv (call_end e p)
  call_end-Inv p e v waits why = record {
    reached = v.reached;
    not_yet = λ h. absurd (let h' = h in cc);
    once = λ result h.
        let same : e ≡ result = cc in
        (_, ap (λ l. l ++ (p.listener.handled ∷ [])) (v.not_yet waits), λ n. why (same ∙ n));
    left = λ result h. absurd (let h' = h in cc);
  }

  Step-Inv : {p q : Process A} → Step p q → Inv p → Inv q
  unfolding close
  Step-Inv {p} (listening st) v = record {
    reached = Listen.next v.reached st;
    not_yet = v.not_yet;
    once = v.once;
    left = λ result h. let (o, c) = v.left result h in (o, stays_cancelled st c);
  }
  Step-Inv {p} close_session v = record {
    reached = v.reached;
    not_yet = v.not_yet;
    once = λ result h. let (l, o, _) = v.once result h in (l, o, λ _. refl);
    left = λ result h. let ((l, o, _), c) = v.left result h in ((l, o, λ _. refl), c);
  }
  Step-Inv {p} (done waits cancelled) v =
      call_end-Inv p (err_of p.listener) v waits
        (λ n. absurd (let not = (err_of-none p.listener v.reached).0 n in cc))
  Step-Inv {p} (closed waits shut) v = call_end-Inv p none v waits (λ _. shut)
  Step-Inv {p} (leave result at) v = record {
    reached = Listen.next v.reached cancel;
    not_yet = λ h. absurd (let h' = h in cc);
    once = λ other h. absurd (let h' = h in cc);
    left = λ other h.
        let same : result ≡ other = cc in
        let (l, o, why) = v.once result at in ((l, o, λ n. why (same ∙ n)), refl);
  }

  Reach-Inv : {p q : Process A} → Inv p → Reach p q → Inv q
  Reach-Inv v here = v
  Reach-Inv v (next r st) = Step-Inv st (Reach-Inv v r)

  -- However ReceiveOneSession, the listener's goroutines and the handler interleave: where it has
  -- returned, End has been called exactly once and the listener's context is cancelled, and it has
  -- returned nil only if the message session was closed.
  pub Reach-returned :
      (ms : MessageSession) (p : Process A) (result : Option Error)
      → Reach (process ms) p
      → p.phase ≡ returned result
      → EndedOnce p result × (p.listener.is_cancelled ≡ true)
  Reach-returned ms p result r h =
      (Reach-Inv
          (record {
            reached = Listen.here;
            not_yet = λ _. refl;
            once = λ other at. absurd (let at' = at in cc);
            left = λ other at. absurd (let at' = at in cc);
          })
          r).left
        result h

  -- Wherever the message session is closed while a message waits at the channel and the handling
  -- goroutine runs, the message can still be handled after the call of End.
  pub handled_after_end :
      (p : Process A) (a : A)
      → p.phase ≡ selecting
      → p.session.is_closed ≡ true
      → p.listener.offered ≡ some a
      → p.listener.is_handling ≡ true
      → (q : Process A) × Reach p q
        × (q.at_ends ≡ p.at_ends ++ (p.listener.handled ∷ []))
        × (q.listener.handled ≡ p.listener.handled ++ (a ∷ []))
  handled_after_end p a waits shut offered runs =
      (_, next (next here (closed waits shut)) (listening (hand_over a offered runs)), refl, refl)
