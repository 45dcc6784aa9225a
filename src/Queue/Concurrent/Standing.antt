-- ===== src/Queue/Concurrent/Standing.antt =====
-- Where each call of ensureSender stands, and what a step of one of them leaves (queue.go).
use mathlib.Core.Path.{subst}
use azure_service_bus_go.Prelude.{
  update, ℕ, ◌==◌, ==_iff, ◌≡◌, ◌≢◌, refl, ◌∙◌, true, false, Bool-cases, inl, inr, Option, none,
  some, List, [], ◌∷◌, if◌then◌else◌, arith,
}
use azure_service_bus_go.Errors.{Error}
use azure_service_bus_go.Namespace.{Broker}
use azure_service_bus_go.Queue.{Queue, ensure_sender}
use azure_service_bus_go.Queue.Concurrent.{
  Phase, calling, checking, creating, storing, leaving, returned, Calls, made_by, is_inside,
}

module _ (brokers : ℕ → Broker) where
  -- The queue after the calls in `order`, the latest of which stands first.
  abbrev pub after_calls : Queue → List ℕ → Queue
  after_calls q [] = q
  after_calls q (i ∷ order) = (ensure_sender (brokers i) (after_calls q order)).0

  -- What the call `i` has returned, if it is one of them.
  abbrev pub result_of : Queue → List ℕ → ℕ → Option (Option Error)
  result_of q [] i = none
  result_of q (j ∷ order) i =
      if j == i
      then some (ensure_sender (brokers j) (after_calls q order)).1
      else result_of q order i

  -- What holds of the call `i` in each phase: `run` is the queue after the calls that have returned,
  -- `result` the result of `i` among them, and `q` the queue now.
  abbrev pub At : Queue → Queue → Option ℕ → ℕ → Option (Option Error) → Phase → Type 0
  At run q owner i result calling = result ≡ none
  At run q owner i result checking = (result ≡ none) × (owner ≡ some i) × (q ≡ run)
  At run q owner i result creating =
      (result ≡ none) × (owner ≡ some i) × (q ≡ run) × (run.sender ≡ none)
  At run q owner i result (storing s) =
      (result ≡ none)
      × (owner ≡ some i)
      × (q ≡ run)
      × (run.sender ≡ none)
      × (made_by brokers i run ≡ (s, none))
  At run q owner i result (leaving e) =
      (result ≡ none) × (owner ≡ some i) × (ensure_sender (brokers i) run ≡ (q, e))
  At run q owner i result (returned e) = result ≡ some e

  pub At-owner :
      (run q : Queue) (owner : Option ℕ) (i : ℕ) (result : Option (Option Error)) (p : Phase)
      → At run q owner i result p
      → is_inside p ≡ true
      → owner ≡ some i
  At-owner run q owner i result calling a h = absurd (let h' = h in cc)
  At-owner run q owner i result checking (_, o, _) h = o
  At-owner run q owner i result creating (_, o, _, _) h = o
  At-owner run q owner i result (storing s) (_, o, _, _, _) h = o
  At-owner run q owner i result (leaving e) (_, o, _) h = o
  At-owner run q owner i result (returned e) a h = absurd (let h' = h in cc)

  -- A call outside the lock is not concerned by what happens in it.
  pub At-outside :
      (run run' q q' : Queue) (owner owner' : Option ℕ) (i : ℕ)
      (result result' : Option (Option Error)) (p : Phase)
      → owner ≢ some i
      → result' ≡ result
      → At run q owner i result p
      → At run' q' owner' i result' p
  At-outside run run' q q' owner owner' i result result' calling out same a = same ∙ a
  At-outside run run' q q' owner owner' i result result' checking out same (_, o, _) =
      absurd (out o)
  At-outside run run' q q' owner owner' i result result' creating out same (_, o, _, _) =
      absurd (out o)
  At-outside run run' q q' owner owner' i result result' (storing s) out same (_, o, _, _, _) =
      absurd (out o)
  At-outside run run' q q' owner owner' i result result' (leaving e) out same (_, o, _) =
      absurd (out o)
  At-outside run run' q q' owner owner' i result result' (returned e) out same a = same ∙ a

  pub record Inv (q : Queue) (c : Calls) : Type 0 where
    pub order : List ℕ
    pub each :
        (i : ℕ) → At (after_calls q order) c.queue c.owner i (result_of q order i) (c.phase i)
    pub idle : c.owner ≡ none → c.queue ≡ after_calls q order
    pub busy : (i : ℕ) → c.owner ≡ some i → is_inside (c.phase i) ≡ true

  -- Where the call `i` moves, in the lock or into it, the others stand as they stood.
  pub each_moved :
      (run run' q q' : Queue) (owner owner' : Option ℕ) (result result' : ℕ → Option (Option Error))
      (phase : ℕ → Phase) (i : ℕ) (p : Phase)
      → ((j : ℕ) → owner ≡ some j → i ≡ j)
      → ((j : ℕ) → (i == j) ≡ false → result' j ≡ result j)
      → ((j : ℕ) → At run q owner j (result j) (phase j))
      → At run' q' owner' i (result' i) p
      → (j : ℕ) → At run' q' owner' j (result' j) (update phase i p j)
  each_moved run run' q q' owner owner' result result' phase i p alone same all new j =
      elim (Bool-cases (i == j)) [
        | inl e ↦ rw e (subst (λ x. At run' q' owner' x (result' x) p) ((==_iff i j).0 e) new)
        | inr n ↦ rw n (
            At-outside run run' q q' owner owner' j (result j) (result' j) (phase j)
              (λ o. let e = alone j o in absurd (ground arith)) (same j n) (all j))
      ]

  -- A step of the call `i`, in the lock or into it, that keeps the order.
  pub moved :
      (q : Queue) (c : Calls) (v : Inv q c) (i : ℕ) (p : Phase) (q' : Queue) (owner' : Option ℕ)
      → owner' ≡ some i
      → ((j : ℕ) → c.owner ≡ some j → i ≡ j)
      → At (after_calls q v.order) q' owner' i (result_of q v.order i) p
      → is_inside p ≡ true
      → Inv q (record { queue = q'; owner = owner'; phase = update c.phase i p })
  moved q c v i p q' owner' has alone new inside = record {
    order = v.order;
    each =
        each_moved (after_calls q v.order) (after_calls q v.order) c.queue q' c.owner owner'
          (result_of q v.order) (result_of q v.order) c.phase i p alone (λ j n. refl) v.each new;
    idle = λ free. absurd (ground arith);
    busy = λ j o. let e : (i == j) ≡ true = ground arith in rw e inside;
  }

  pub stands :
      (q : Queue) (c : Calls) (v : Inv q c) (i : ℕ) (p : Phase)
      → c.phase i ≡ p
      → At (after_calls q v.order) c.queue c.owner i (result_of q v.order i) p
  stands q c v i p h =
      subst (At (after_calls q v.order) c.queue c.owner i (result_of q v.order i)) h (v.each i)

  pub alone_in : (owner : Option ℕ) (i : ℕ) → owner ≡ some i → (j : ℕ) → owner ≡ some j → i ≡ j
  alone_in owner i h j o = ground arith
