-- ===== src/Receiver/Delivery.antt =====
-- What the two goroutines of Listen keep (receiver.go), by induction on their steps.
use mathlib.Core.List.{append-nil}
use azure_service_bus_go.Prelude.{
  ◌≡◌, ◌≢◌, ◌↔◌, refl, ◌∙◌, ap, sym, true, false, Option, none, some, List, [], ◌∷◌, ◌++◌, arith,
  Option-cases, inl, inr,
}
use azure_service_bus_go.Receiver.Listen.{
  Listener, listen, Step, receive, hand_over, stop, recovered, give_up, stop_handling, cancel,
  Reach, here, next, err_of,
}

abbrev pub pending : {A : Type 0} → Option A → List A
pending none = []
pending (some a) = a ∷ []

module _ {A : Type 0} where
  pub record Inv (s : Listener A) : Type 0 where
    pub in_order : s.received ≡ s.handled ++ pending s.offered
    pub has_reason : s.last_error ≢ none → s.is_cancelled ≡ true

  Step-Inv : {s t : Listener A} → Step s t → Inv s → Inv t
  Step-Inv {s} (receive a running free) v = record {
    in_order =
        ap (λ l. l ++ (a ∷ []))
          (v.in_order ∙ ap (λ o. s.handled ++ pending o) free ∙ append-nil s.handled);
    has_reason = v.has_reason;
  }
  Step-Inv {s} (hand_over a waits running) v = record {
    in_order = v.in_order ∙ ap (λ o. s.handled ++ pending o) waits ∙ sym (append-nil _);
    has_reason = v.has_reason;
  }
  Step-Inv (stop _ _ _) v = record { in_order = v.in_order; has_reason = v.has_reason }
  Step-Inv (recovered _ _) v = v
  Step-Inv (give_up e _ _) v = record { in_order = v.in_order; has_reason = λ _. refl }
  Step-Inv (stop_handling _ _) v = record { in_order = v.in_order; has_reason = v.has_reason }
  Step-Inv cancel v = record { in_order = v.in_order; has_reason = λ _. refl }

  Reach-Inv : {s t : Listener A} → Inv s → Reach s t → Inv t
  Reach-Inv v here = v
  Reach-Inv v (next r st) = Step-Inv st (Reach-Inv v r)

  -- However the goroutines, the broker and the caller interleave, the messages that have been
  -- handled are those that have come in, each once and in the order of arrival, but for the one
  -- that waits at the channel, if any.
  pub Reach-in_order :
      (s : Listener A) → Reach listen s → s.received ≡ s.handled ++ pending s.offered
  Reach-in_order s r =
      (Reach-Inv (record { in_order = refl; has_reason = λ h. absurd (h refl) }) r).in_order

  -- `a` waits at the channel, nobody takes it, and `handled` is what has been handled.
  record Stuck (a : A) (handled : List A) (s : Listener A) : Type 0 where
    waits : s.offered ≡ some a
    stopped : s.is_handling ≡ false
    runs : s.is_listening ≡ true
    kept : s.handled ≡ handled

  Step-Stuck : {s t : Listener A} (a : A) (l : List A) → Step s t → Stuck a l s → Stuck a l t
  Step-Stuck a l (receive b _ free) k = absurd (let w = k.waits in cc)
  Step-Stuck a l (hand_over b _ running) k = absurd (let w = k.stopped in cc)
  Step-Stuck a l (stop _ free _) k = absurd (let w = k.waits in cc)
  Step-Stuck a l (recovered _ _) k = k
  Step-Stuck a l (give_up e _ free) k = absurd (let w = k.waits in cc)
  Step-Stuck a l (stop_handling running _) k = absurd (let w = k.stopped in cc)
  Step-Stuck a l cancel k = record {
    waits = k.waits;
    stopped = k.stopped;
    runs = k.runs;
    kept = k.kept;
  }

  Reach-Stuck : {s t : Listener A} (a : A) (l : List A) → Stuck a l s → Reach s t → Stuck a l t
  Reach-Stuck a l k here = k
  Reach-Stuck a l k (next r st) = Step-Stuck a l st (Reach-Stuck a l k r)

  -- Once the handling goroutine has stopped while a message waits at the channel, that goroutine
  -- waits for ever: in every state that can follow it still runs and still holds the message, and
  -- no further message is handled.
  pub Reach-stuck :
      (s t : Listener A) (a : A)
      → s.offered ≡ some a
      → s.is_handling ≡ false
      → s.is_listening ≡ true
      → Reach s t
      → (t.offered ≡ some a)
        × (t.is_handling ≡ false)
        × (t.is_listening ≡ true)
        × (t.handled ≡ s.handled)
  Reach-stuck s t a waits stopped runs r =
      let k =
        Reach-Stuck a s.handled
          (record { waits = waits; stopped = stopped; runs = runs; kept = refl }) r in
      (k.waits, k.stopped, k.runs, k.kept)

  -- In every state that the listener can come to, Err is nil exactly until the context is done: a
  -- listener that gave up has cancelled it.
  pub err_of-none : (s : Listener A) → Reach listen s → (err_of s ≡ none) ↔ (s.is_cancelled ≡ false)
  unfolding err_of
  err_of-none s r =
      let v = Reach-Inv (record { in_order = refl; has_reason = λ h. absurd (h refl) }) r in
      elim (Option-cases s.last_error) [
        | inl nothing ↦ ground arith
        | inr (x, failed) ↦
            let cancelled : s.is_cancelled ≡ true = v.has_reason (λ n. cc) in ground arith
      ]
