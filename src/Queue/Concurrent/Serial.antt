-- ===== src/Queue/Concurrent/Serial.antt =====
-- The calls of ensureSender as if they came one after another (queue.go).
use azure_service_bus_go.Prelude.{
  ℕ, ◌==◌, ◌≡◌, ◌≢◌, ◌↔◌, refl, sym, ap, ◌∙◌, true, Option, none, some, List, [], ◌∷◌, arith,
}
use azure_service_bus_go.Errors.{Error}
use azure_service_bus_go.Namespace.{Broker}
use azure_service_bus_go.Sender.{Sender}
use azure_service_bus_go.Queue.{Queue, keep_sender}
use azure_service_bus_go.Queue.Ensure.{ensure_sender-fresh, ensure_sender-has}
use azure_service_bus_go.Queue.Concurrent.{
  Phase, calling, checking, creating, storing, leaving, returned, Calls, start, after_creating,
  made_by, is_inside, Step, lock, found, missing, create, store, unlock, Reach, here, next,
}
use azure_service_bus_go.Queue.Concurrent.Standing.{
  after_calls, result_of, At, Inv, each_moved, moved, stands, alone_in,
}

module _ (brokers : ℕ → Broker) where
  created :
      (run q : Queue) (owner : Option ℕ) (i : ℕ) (result : Option (Option Error))
      (made : Option Sender × Option Error)
      → At brokers run q owner i result creating
      → made_by brokers i run ≡ made
      → At brokers run q owner i result (after_creating made)
        × (is_inside (after_creating made) ≡ true)
  unfolding keep_sender
  created run q owner i result (s, none) (n, o, same, fresh) e = ((n, o, same, fresh, e), refl)
  created run q owner i result (s, some x) (n, o, same, fresh) e = (
    (
      n,
      o,
      ensure_sender-fresh (brokers i) run fresh
          ∙ ap (keep_sender run) e
          ∙ ap (λ r. (r, some x)) (sym same),
    ),
    refl,
  )

  stored :
      (run q : Queue) (owner : Option ℕ) (i : ℕ) (result : Option (Option Error))
      (s : Option Sender)
      → At brokers run q owner i result (storing s)
      → At brokers run (record q { sender = s }) owner i result (leaving none)
  unfolding keep_sender
  stored run q owner i result s (n, o, same, fresh, e) = (
    n,
    o,
    ensure_sender-fresh (brokers i) run fresh
        ∙ ap (keep_sender run) e
        ∙ ap (λ r. (record r { sender = s }, none)) (sym same),
  )

  Step-Inv : (q : Queue) {c d : Calls} → Step brokers c d → Inv brokers q c → Inv brokers q d
  Step-Inv q {c} (lock i free h) v =
      moved brokers q c v i checking c.queue (some i) refl (λ j o. absurd (ground arith))
        (stands brokers q c v i calling h, refl, v.idle free) refl
  Step-Inv q {c} (found i s h has) v =
      let (n, o, same) = stands brokers q c v i checking h in
      let run = after_calls brokers q v.order in
      moved brokers q c v i (leaving none) c.queue c.owner o (alone_in brokers c.owner i o)
        (
          n,
          o,
          ensure_sender-has (brokers i) run s (ap (λ r. r.sender) (sym same) ∙ has)
              ∙ ap (λ r. (r, none)) (sym same),
        )
        refl
  Step-Inv q {c} (missing i h empty) v =
      let (n, o, same) = stands brokers q c v i checking h in
      moved brokers q c v i creating c.queue c.owner o (alone_in brokers c.owner i o)
        (n, o, same, ap (λ r. r.sender) (sym same) ∙ empty) refl
  Step-Inv q {c} (create i h) v =
      let a = stands brokers q c v i creating h in
      let (n, o, same, fresh) = a in
      let (new, inside) =
        created (after_calls brokers q v.order) c.queue c.owner i (result_of brokers q v.order i)
          (made_by brokers i c.queue) a (ap (made_by brokers i) (sym same)) in
      moved brokers q c v i (after_creating (made_by brokers i c.queue)) c.queue c.owner o
        (alone_in brokers c.owner i o) new inside
  Step-Inv q {c} (store i s h) v =
      let a = stands brokers q c v i (storing s) h in
      let (n, o, same, fresh, e) = a in
      moved brokers q c v i (leaving none) (record c.queue { sender = s }) c.owner o
        (alone_in brokers c.owner i o)
        (stored (after_calls brokers q v.order) c.queue c.owner i (result_of brokers q v.order i) s
          a)
        refl
  Step-Inv q {c} (unlock i e h) v =
      let (n, o, ran) = stands brokers q c v i (leaving e) h in
      record {
        order = i ∷ v.order;
        each =
            each_moved brokers (after_calls brokers q v.order) (after_calls brokers q (i ∷ v.order))
              c.queue c.queue c.owner none (result_of brokers q v.order)
              (result_of brokers q (i ∷ v.order)) c.phase i (returned e)
              (alone_in brokers c.owner i o) (λ j differ. rw differ refl) v.each
              (let e : (i == i) ≡ true = ground arith in rw e (ap (λ r. some r.1) ran));
        idle = λ free. ap (λ r. r.0) (sym ran);
        busy = λ j o. absurd (ground arith);
      }

  pub Reach-Inv : (q : Queue) {c : Calls} → Reach brokers (start q) c → Inv brokers q c
  Reach-Inv q here = record {
    order = [];
    each = λ i. refl;
    idle = λ o. refl;
    busy = λ j o. absurd (ground arith);
  }
  Reach-Inv q (next r st) = Step-Inv q st (Reach-Inv q r)

  unreturned :
      (result : Option (Option Error)) (p : Phase) (e : Option Error)
      → result ≡ none
      → p ≢ returned e
      → (p ≡ returned e) ↔ (result ≡ some e)
  unreturned result p e n out = (λ h. absurd (out h), λ h. absurd (ground arith))

  pub result_of-returned :
      (run q : Queue) (owner : Option ℕ) (i : ℕ) (result : Option (Option Error)) (p : Phase)
      (e : Option Error)
      → At brokers run q owner i result p
      → (p ≡ returned e) ↔ (result ≡ some e)
  result_of-returned run q owner i result calling e n =
      unreturned result calling e n (λ h. let h' = h in cc)
  result_of-returned run q owner i result checking e (n, _, _) =
      unreturned result checking e n (λ h. let h' = h in cc)
  result_of-returned run q owner i result creating e (n, _, _, _) =
      unreturned result creating e n (λ h. let h' = h in cc)
  result_of-returned run q owner i result (storing s) e (n, _, _, _, _) =
      unreturned result (storing s) e n (λ h. let h' = h in cc)
  result_of-returned run q owner i result (leaving x) e (n, _, _) =
      unreturned result (leaving x) e n (λ h. let h' = h in cc)
  result_of-returned run q owner i result (returned x) e a =
      (λ h. let h' = h in cc, λ h. let h' = h in cc)

  -- However the calls of ensureSender interleave, they do what the same calls do one after another:
  -- whenever the mutex is free there is an order of the calls that have returned in which, run one by
  -- one from the start, they leave the queue as it is, and each of them returns what it has returned,
  -- while the others have not come in.
  pub Reach-serial :
      (q : Queue) (c : Calls)
      → Reach brokers (start q) c
      → c.owner ≡ none
      → (order : List ℕ) × (c.queue ≡ after_calls brokers q order)
        × ((i : ℕ) (e : Option Error)
            → (c.phase i ≡ returned e) ↔ (result_of brokers q order i ≡ some e))
  Reach-serial q c r free =
      let v = Reach-Inv q r in
      (
        v.order,
        v.idle free,
        λ i e.
            result_of-returned (after_calls brokers q v.order) c.queue c.owner i
              (result_of brokers q v.order i) (c.phase i) e (v.each i),
      )
