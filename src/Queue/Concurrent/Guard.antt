-- ===== src/Queue/Concurrent/Guard.antt =====
-- What senderMu guards (queue.go): one call at a time, and one sender for good.
use azure_service_bus_go.Prelude.{
  ℕ, ◌==◌, ◌≡◌, sym, ap, ◌∙◌, true, Bool-cases, inl, inr, Option, none, some, List, [], ◌∷◌, arith,
  Option-cases,
}
use azure_service_bus_go.Errors.{Error}
use azure_service_bus_go.Namespace.{Broker}
use azure_service_bus_go.Sender.{Sender}
use azure_service_bus_go.Queue.{Queue}
use azure_service_bus_go.Queue.Ensure.{ensure_sender-has, ensure_sender-eq-none}
use azure_service_bus_go.Queue.Concurrent.{
  Phase, calling, checking, creating, storing, leaving, returned, is_inside, Calls, start, Step,
  lock, found, missing, create, store, unlock, Reach, here, next,
}
use azure_service_bus_go.Queue.Concurrent.Standing.{
  after_calls, result_of, At, At-owner, Inv, stands,
}
use azure_service_bus_go.Queue.Concurrent.Serial.{Reach-Inv, result_of-returned}

module _ (brokers : ℕ → Broker) where
  -- A call that has returned nil has left a sender.
  after_calls-sender :
      (q : Queue) (order : List ℕ) (i : ℕ)
      → result_of brokers q order i ≡ some none
      → (s : Sender) × ((after_calls brokers q order).sender ≡ some s)
  after_calls-sender q [] i h = absurd (let h' = h in cc)
  after_calls-sender q (j ∷ order) i h = elim (Bool-cases (j == i)) [
    | inl e ↦ ensure_sender-eq-none (brokers j) (after_calls brokers q order) (ground arith)
    | inr n ↦
        let (s, has) = after_calls-sender q order i (ground arith) in
        (
          s,
          ap (λ r. r.0.sender) (ensure_sender-has (brokers j) (after_calls brokers q order) s has)
              ∙ has,
        )
  ]

  -- Nothing that a call does in the lock takes the sender away.
  At-sender :
      (run q : Queue) (owner : Option ℕ) (i : ℕ) (result : Option (Option Error)) (p : Phase)
      (s : Sender)
      → run.sender ≡ some s
      → is_inside p ≡ true
      → At brokers run q owner i result p
      → q.sender ≡ some s
  At-sender run q owner i result calling s h inside a = absurd (let h' = inside in cc)
  At-sender run q owner i result checking s h inside (_, _, same) = ap (λ r. r.sender) same ∙ h
  At-sender run q owner i result creating s h inside (_, _, same, _) = ap (λ r. r.sender) same ∙ h
  At-sender run q owner i result (storing t) s h inside (_, _, same, _, _) =
      ap (λ r. r.sender) same ∙ h
  At-sender run q owner i result (leaving e) s h inside (_, _, ran) =
      ap (λ r. r.0.sender) (sym ran ∙ ensure_sender-has (brokers i) run s h) ∙ h
  At-sender run q owner i result (returned e) s h inside a = absurd (let h' = inside in cc)

  sender_now :
      (q : Queue) (c : Calls) (v : Inv brokers q c) (s : Sender)
      → (after_calls brokers q v.order).sender ≡ some s
      → c.queue.sender ≡ some s
  sender_now q c v s h = elim (Option-cases c.owner) [
    | inl free ↦ ap (λ r. r.sender) (v.idle free) ∙ h
    | inr (i, o) ↦
        At-sender (after_calls brokers q v.order) c.queue c.owner i (result_of brokers q v.order i)
          (c.phase i) s h (v.busy i o) (v.each i)
  ]

  -- A sender that is there stays.
  Step-sender :
      (q : Queue) {c d : Calls} (s : Sender)
      → Inv brokers q c
      → Step brokers c d
      → c.queue.sender ≡ some s
      → d.queue.sender ≡ some s
  Step-sender q s v (lock i _ _) h = h
  Step-sender q s v (found i t _ _) h = h
  Step-sender q s v (missing i _ _) h = h
  Step-sender q s v (create i _) h = h
  Step-sender q {c} s v (store i t at) h =
      let (n, o, same, fresh, e) = stands brokers q c v i (storing t) at in
      let gone : c.queue.sender ≡ none = ap (λ r. r.sender) same ∙ fresh in absurd (ground arith)
  Step-sender q s v (unlock i e _) h = h

  Reach-sender :
      (q : Queue) {c d : Calls} (s : Sender)
      → Reach brokers (start q) c
      → Reach brokers c d
      → c.queue.sender ≡ some s
      → Reach brokers (start q) d × (d.queue.sender ≡ some s)
  Reach-sender q s r here h = (r, h)
  Reach-sender q s r (next r' st) h =
      let (before, has) = Reach-sender q s r r' h in
      (next before st, Step-sender q s (Reach-Inv brokers q before) st has)

  -- However the calls interleave: no two of them are between Lock and Unlock at once; and where a call
  -- has returned nil, the queue has a sender, and it has that same sender ever after.
  pub Reach-guarded :
      (q : Queue) (c : Calls)
      → Reach brokers (start q) c
      → ((i j : ℕ) → is_inside (c.phase i) ≡ true → is_inside (c.phase j) ≡ true → i ≡ j)
        × ((i : ℕ)
            → c.phase i ≡ returned none
            → (s : Sender) × (c.queue.sender ≡ some s)
              × ((d : Calls) → Reach brokers c d → d.queue.sender ≡ some s))
  Reach-guarded q c r =
      let v = Reach-Inv brokers q r in
      let run = after_calls brokers q v.order in
      let owns : (i : ℕ) → is_inside (c.phase i) ≡ true → c.owner ≡ some i = λ i inside.
        At-owner brokers run c.queue c.owner i (result_of brokers q v.order i) (c.phase i)
          (v.each i) inside in
      (
        λ i j hi hj. let a = owns i hi in let b = owns j hj in ground arith,
        λ i h.
            let done =
              (result_of-returned brokers run c.queue c.owner i (result_of brokers q v.order i)
                  (c.phase i) none (v.each i)).0
                h in
            let (s, has) = after_calls-sender q v.order i done in
            let now = sender_now q c v s has in
            (s, now, λ d later. (Reach-sender q s r later now).1),
      )
