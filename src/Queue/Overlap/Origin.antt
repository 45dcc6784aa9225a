-- ===== src/Queue/Overlap/Origin.antt =====
-- Whose receivers the sessions of overlapping calls of ReceiveOneSession run on (queue.go).
use mathlib.Core.Path.{subst}
use azure_service_bus_go.Prelude.{
  ℕ, ◌==◌, ==_iff, ◌≡◌, refl, sym, ◌∙◌, update, true, Bool-cases, inl, inr, Option, none, some,
  String, arith,
}
use azure_service_bus_go.Amqp.Dynamic.{Time}
use azure_service_bus_go.Errors.{Error}
use azure_service_bus_go.Namespace.{Broker}
use azure_service_bus_go.Receiver.{
  Receiver, new_receiver, receiver_with_session, receiver_with_receive_mode, apply_options,
}
use azure_service_bus_go.Receiver.Link.{new_session_and_link-settings}
use azure_service_bus_go.MessageSession.{MessageSession, new_message_session}
use azure_service_bus_go.Queue.{Queue}
use azure_service_bus_go.Queue.Overlap.{
  Phase, calling, named, making, storing, leaving, ensured, started, listening, failed, Calls,
  start, to, after_making, after_ensuring, made_by, Step, name, lock, make, store, unlock, begin,
  refuse, listen, Reach, here, next,
}

-- The queue has a receiver.
abbrev pub Has : Queue → Type 0
Has q = (r : Receiver) × (q.receiver ≡ some r)

module _ (ids : ℕ → Option String) (brokers : ℕ → Broker) (times : ℕ → Time) where
  -- `r` was made by the call `j`: for the session that it asks for, and at the queue's name.
  pub record MadeBy (q : Queue) (j : ℕ) (r : Receiver) : Type 0 where
    pub session : r.session_id ≡ ids j
    pub sessions : r.use_sessions ≡ true
    pub path : r.entity_path ≡ q.name

  -- The options of ensureReceiver do not fail, so that there is a receiver, also beside an error.
  pub made_by-MadeBy :
      (q : Queue) (j : ℕ)
      → (r : Receiver) × ((made_by ids brokers times j q).0 ≡ some r) × MadeBy q j r
  unfolding new_receiver apply_options receiver_with_session receiver_with_receive_mode
  made_by-MadeBy q j =
      let (mode, session, sessions, path) = new_session_and_link-settings (brokers j) _ in
      (_, refl, record { session = session; sessions = sessions; path = path })

  abbrev pub Origin : Queue → Receiver → Type 0
  Origin q r = (j : ℕ) × MadeBy q j r

  -- What holds of the call `i` in each phase; `H` says that the queue has a receiver.
  abbrev pub At : Queue → Type 0 → ℕ → Phase → Type 0
  At q H i (storing o) = (r : Receiver) × (o ≡ some r) × MadeBy q i r
  At q H i (leaving none) = H
  At q H i ensured = H
  At q H i (started ms) = (ms.session_id ≡ ids i) × Origin q ms.receiver
  At q H i (listening ms r) = (ms.session_id ≡ ids i) × Origin q ms.receiver × Origin q r
  At q H i _ = Unit

  At-map : (q : Queue) (H H' : Type 0) (i : ℕ) (p : Phase) → (H → H') → At q H i p → At q H' i p
  At-map q H H' i calling f a = tt
  At-map q H H' i named f a = tt
  At-map q H H' i making f a = tt
  At-map q H H' i (storing o) f a = a
  At-map q H H' i (leaving none) f a = f a
  At-map q H H' i (leaving (some e)) f a = tt
  At-map q H H' i ensured f a = f a
  At-map q H H' i (started ms) f a = a
  At-map q H H' i (listening ms r) f a = a
  At-map q H H' i (failed e) f a = tt

  pub record Inv (q : Queue) (c : Calls) : Type 0 where
    pub name_kept : c.queue.name ≡ q.name
    pub origin : (r : Receiver) → c.queue.receiver ≡ some r → Origin q r
    pub each : (i : ℕ) → At q (Has c.queue) i (c.phase i)

  each_moved :
      (q : Queue) (H H' : Type 0) (phase : ℕ → Phase) (i : ℕ) (p : Phase)
      → (H → H')
      → ((j : ℕ) → At q H j (phase j))
      → At q H' i p
      → (j : ℕ) → At q H' j (update phase i p j)
  each_moved q H H' phase i p f all new j = elim (Bool-cases (i == j)) [
    | inl e ↦ rw e (subst (λ x. At q H' x p) ((==_iff i j).0 e) new)
    | inr n ↦ rw n (At-map q H H' j (phase j) f (all j))
  ]

  -- A step of the call `i` that leaves the receiver.
  moved :
      (q : Queue) (c : Calls) (v : Inv q c) (i : ℕ) (p : Phase) (owner' : Option ℕ)
      (required : Option String)
      → At q (Has c.queue) i p
      → Inv q (record {
        queue = record c.queue { required_session_id = required };
        owner = owner';
        phase = update c.phase i p;
      })
  moved q c v i p owner' required new = record {
    name_kept = v.name_kept;
    origin = v.origin;
    each = each_moved q (Has c.queue) (Has c.queue) c.phase i p (λ h. h) v.each new;
  }

  -- A step of the call `i` that puts the receiver `r`.
  put :
      (q : Queue) (c : Calls) (v : Inv q c) (i : ℕ) (p : Phase) (r : Receiver)
      → Origin q r
      → At q (Has (record c.queue { receiver = some r })) i p
      → Inv q (record (to c i p) { queue = record c.queue { receiver = some r } })
  put q c v i p r own new = record {
    name_kept = v.name_kept;
    origin = λ r' e. subst (Origin q) (let e' = e in cc) own;
    each =
        each_moved q (Has c.queue) (Has (record c.queue { receiver = some r })) c.phase i p
          (λ h. (r, refl)) v.each new;
  }

  stands :
      (q : Queue) (c : Calls) (v : Inv q c) (i : ℕ) (p : Phase)
      → c.phase i ≡ p
      → At q (Has c.queue) i p
  stands q c v i p h = subst (At q (Has c.queue) i) h (v.each i)

  after_making-At :
      (q : Queue) (H : Type 0) (i : ℕ) (made : Option Receiver × Option Error)
      → ((r : Receiver) × (made.0 ≡ some r) × MadeBy q i r)
      → At q H i (after_making made)
  after_making-At q H i (o, none) own = own
  after_making-At q H i (o, some e) own = tt

  after_ensuring-At :
      (q : Queue) (H : Type 0) (i : ℕ) (e : Option Error)
      → At q H i (leaving e)
      → At q H i (after_ensuring e)
  after_ensuring-At q H i none has = has
  after_ensuring-At q H i (some e) has = tt

  Step-Inv : (q : Queue) {c d : Calls} → Step ids brokers times c d → Inv q c → Inv q d
  unfolding new_message_session
  Step-Inv q {c} (name i h) v = moved q c v i named c.owner (ids i) tt
  Step-Inv q {c} (lock i free h) v = moved q c v i making (some i) c.queue.required_session_id tt
  Step-Inv q {c} (make i h) v =
      let (r, has, own) = made_by-MadeBy c.queue i in
      let own' : MadeBy q i r = record {
        session = own.session;
        sessions = own.sessions;
        path = own.path ∙ v.name_kept;
      } in
      moved q c v i (after_making (made_by ids brokers times i c.queue)) c.owner
        c.queue.required_session_id
        (after_making-At q (Has c.queue) i (made_by ids brokers times i c.queue) (r, has, own'))
  Step-Inv q {c} (store i o h) v =
      let (r, e, own) = stands q c v i (storing o) h in
      subst
        (λ x. Inv q (record (to c i (leaving none)) { queue = record c.queue { receiver = x } }))
        (sym e) (put q c v i (leaving none) r (i, own) (r, refl))
  Step-Inv q {c} (unlock i e h) v =
      moved q c v i (after_ensuring e) none c.queue.required_session_id
        (after_ensuring-At q (Has c.queue) i e (stands q c v i (leaving e) h))
  Step-Inv q {c} (begin i r h has) v =
      moved q c v i (started (new_message_session r c.queue.name (ids i) (times i))) c.owner
        c.queue.required_session_id (refl, v.origin r has)
  Step-Inv q {c} (refuse i ms e h) v =
      moved q c v i (failed e) c.owner c.queue.required_session_id tt
  Step-Inv q {c} (listen i ms r h has) v =
      let (named_by, own) = stands q c v i (started ms) h in
      let (j, made) = v.origin r has in
      let own' : Origin q (record r { listening = true }) =
        (j, record { session = made.session; sessions = made.sessions; path = made.path }) in
      put q c v i (listening ms r) (record r { listening = true }) own' (named_by, own, (j, made))

  Reach-Inv :
      (q : Queue) {c : Calls} → q.receiver ≡ none → Reach ids brokers times (start q) c → Inv q c
  Reach-Inv q fresh here = record {
    name_kept = refl;
    origin = λ r h. absurd (ground arith);
    each = λ i. tt;
  }
  Reach-Inv q fresh (next r st) = Step-Inv q st (Reach-Inv q fresh r)

  -- However calls of ReceiveOneSession overlap on a queue that has not received: where a call has come
  -- to listen, its message session has the identifier that it asked for, and the receivers of the
  -- message session and of the listener were each made by one of the calls, for the session that this
  -- one asked for and at the queue's name. A call that has ensured its receiver finds one.
  pub Reach-Origin :
      (q : Queue) (c : Calls)
      → q.receiver ≡ none
      → Reach ids brokers times (start q) c
      → ((i : ℕ) (ms : MessageSession) (r : Receiver)
          → c.phase i ≡ listening ms r
          → (ms.session_id ≡ ids i) × Origin q ms.receiver × Origin q r)
        × ((i : ℕ) → c.phase i ≡ ensured → Has c.queue)
  Reach-Origin q c fresh r =
      let v = Reach-Inv q fresh r in
      (λ i ms r h. stands q c v i (listening ms r) h, λ i h. stands q c v i ensured h)
