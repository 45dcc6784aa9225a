-- ===== src/Queue/Concurrent/Progress.antt =====
-- Whichever call of ensureSender holds senderMu gives it back, and the others come in (queue.go).
use azure_service_bus_go.Prelude.{
  update-at, ℕ, ◌≡◌, refl, true, inl, inr, Option, none, some, Option-cases,
}
use azure_service_bus_go.Errors.{Error}
use azure_service_bus_go.Namespace.{Broker}
use azure_service_bus_go.Sender.{Sender}
use azure_service_bus_go.Queue.{Queue}
use azure_service_bus_go.Queue.Concurrent.{
  Phase, calling, checking, creating, storing, leaving, returned, is_inside, Calls, start, to,
  after_creating, made_by, Step, lock, found, missing, create, store, unlock, Reach, here, next,
}
use azure_service_bus_go.Queue.Concurrent.Serial.{Reach-Inv}

module _ (brokers : ℕ → Broker) where
  Reach-cons : {c c' d : Calls} → Step brokers c c' → Reach brokers c' d → Reach brokers c d
  Reach-cons st here = next here st
  Reach-cons st (next r st') = next (Reach-cons st r) st'

  Reach-append : {c c' d : Calls} → Reach brokers c c' → Reach brokers c' d → Reach brokers c d
  Reach-append r here = r
  Reach-append r (next r' st) = next (Reach-append r r') st

  -- The call `i` can go on to its end, and the mutex is then free.
  record Finishes (c : Calls) (i : ℕ) : Type 0 where
    end : Calls
    reach : Reach brokers c end
    free : end.owner ≡ none
    result : Option Error
    has_returned : end.phase i ≡ returned result

  before : (c c' : Calls) (i : ℕ) → Step brokers c c' → Finishes c' i → Finishes c i
  before c c' i st f = record {
    end = f.end;
    reach = Reach-cons st f.reach;
    free = f.free;
    result = f.result;
    has_returned = f.has_returned;
  }

  from_leaving : (c : Calls) (i : ℕ) (e : Option Error) → c.phase i ≡ leaving e → Finishes c i
  from_leaving c i e h = record {
    end = record (to c i (returned e)) { owner = none };
    reach = next here (unlock i e h);
    free = refl;
    result = e;
    has_returned = update-at c.phase i (returned e);
  }

  from_storing : (c : Calls) (i : ℕ) (s : Option Sender) → c.phase i ≡ storing s → Finishes c i
  from_storing c i s h =
      before c _ i (store i s h) (from_leaving _ i none (update-at c.phase i (leaving none)))

  from_made :
      (c : Calls) (i : ℕ) (made : Option Sender × Option Error)
      → c.phase i ≡ after_creating made
      → Finishes c i
  from_made c i (s, none) h = from_storing c i s h
  from_made c i (s, some e) h = from_leaving c i (some e) h

  from_creating : (c : Calls) (i : ℕ) → c.phase i ≡ creating → Finishes c i
  from_creating c i h = before c _ i (create i h) (
      from_made _ i (made_by brokers i c.queue)
        (update-at c.phase i (after_creating (made_by brokers i c.queue))))

  from_checking : (c : Calls) (i : ℕ) → c.phase i ≡ checking → Finishes c i
  from_checking c i h = elim (Option-cases c.queue.sender) [
    | inl fresh ↦
        before c _ i (missing i h fresh) (from_creating _ i (update-at c.phase i creating))
    | inr (s, has) ↦
        before c _ i (found i s h has) (from_leaving _ i none (update-at c.phase i (leaving none)))
  ]

  from_inside : (c : Calls) (i : ℕ) (p : Phase) → c.phase i ≡ p → is_inside p ≡ true → Finishes c i
  from_inside c i calling h inside = absurd (let h' = inside in cc)
  from_inside c i checking h inside = from_checking c i h
  from_inside c i creating h inside = from_creating c i h
  from_inside c i (storing s) h inside = from_storing c i s h
  from_inside c i (leaving e) h inside = from_leaving c i e h
  from_inside c i (returned e) h inside = absurd (let h' = inside in cc)

  from_free : (c : Calls) (i : ℕ) (p : Phase) → c.owner ≡ none → c.phase i ≡ p → Finishes c i
  from_free c i calling free h =
      before c _ i (lock i free h) (from_checking _ i (update-at c.phase i checking))
  from_free c i (returned e) free h = record {
    end = c;
    reach = here;
    free = free;
    result = e;
    has_returned = h;
  }
  from_free c i p free h = from_inside c i p h refl

  -- However far the calls have come, in whatever order, each of them can still return: whoever holds
  -- the mutex can go on until it gives it back, and the call can then come in and go on to its end.
  pub Reach-can_return :
      (q : Queue) (c : Calls) (i : ℕ)
      → Reach brokers (start q) c
      → (d : Calls) × (e : Option Error) × Reach brokers c d
        × (d.phase i ≡ returned e)
        × (d.owner ≡ none)
  Reach-can_return q c i r =
      let v = Reach-Inv brokers q r in
      elim (Option-cases c.owner) [
        | inl free ↦
            let f = from_free c i (c.phase i) free refl in
            (f.end, f.result, f.reach, f.has_returned, f.free)
        | inr (j, o) ↦
            let g = from_inside c j (c.phase j) refl (v.busy j o) in
            let f = from_free g.end i (g.end.phase i) g.free refl in
            (f.end, f.result, Reach-append g.reach f.reach, f.has_returned, f.free)
      ]
