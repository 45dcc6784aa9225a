-- ===== src/Queue/Receive/Sessions.antt =====
-- What Receive, ReceiveOneSession and ReceiveSessions return, and when they call Start and End
-- (queue.go).
use azure_service_bus_go.Prelude.{
  ℕ, zero, suc, ◌≡◌, ◌≢◌, refl, true, Option, none, some, List, [], ◌∷◌, String, arith,
  Option-cases, inl, inr,
}
use azure_service_bus_go.Errors.{Error, Exec, ok, err, panic, blocked}
use azure_service_bus_go.Namespace.{Broker}
use azure_service_bus_go.Receiver.{Receiver, receiver_with_session}
use azure_service_bus_go.Receiver.Listen.{Listener, listen, Reach, err_of}
use azure_service_bus_go.Receiver.Delivery.{err_of-none}
use azure_service_bus_go.MessageSession.{MessageSession, new_message_session}
use azure_service_bus_go.MessageSession.Process.{
  Round, HandlerCall, started, ended, process_session,
}
use azure_service_bus_go.Queue.{Queue, ensure_receiver}
use azure_service_bus_go.Queue.Receive.{
  receive, listen_until, receive_one_session, process_with, SessionRun, Sessions, go_on,
  receive_sessions,
}

listen_until-not_nil :
    {A : Type 0} (s : Listener A) (q : Queue) (r : Option Receiver)
    → err_of s ≢ none
    → (listen_until s q r).1 ≢ ok none
unfolding listen_until
listen_until-not_nil s q none h e = cc
listen_until-not_nil s q (some r) h e = h (let e' = e in cc)

-- Receive never returns nil, in whatever state its listener has come to when its context is done.
pub receive-not_nil :
    {A : Type 0} (broker : Broker) (s : Listener A) (q : Queue)
    → Reach listen s
    → s.is_cancelled ≡ true
    → (receive broker s q).1 ≢ ok none
unfolding receive
receive-not_nil broker s q r cancelled e = elim (Option-cases (ensure_receiver broker [] q).1) [
  | inr (x, failed) ↦ let e' = e in ground arith
  | inl made ↦
      listen_until-not_nil s (ensure_receiver broker [] q).0 _
        (λ n. let not = (err_of-none s r).0 n in cc) (rw (made, receive) at e)
]

-- The calls of a handler in the given rounds: for every session a Start that returned nil and then
-- End, and in the end perhaps a Start that has failed.
pub data Bracketed : (ℕ → Round) → List HandlerCall → Type 0 where
  nothing : {rounds : ℕ → Round} → Bracketed rounds []
  refused :
      {rounds : ℕ → Round} (ms : MessageSession) (e : Error)
      → (rounds 0).start ms ≡ some e
      → Bracketed rounds (started ms ∷ [])
  session :
      {rounds : ℕ → Round} (ms : MessageSession) {calls : List HandlerCall}
      → (rounds 0).start ms ≡ none
      → Bracketed (λ n. rounds (suc n)) calls
      → Bracketed rounds (started ms ∷ ended ∷ calls)

-- A call of ReceiveOneSession: it returns before Start, Start fails, or End follows.
data Once (round : Round) : SessionRun → Type 0 where
  early : (q : Queue) (result : Exec (Option Error)) → result ≢ ok none → Once round ([], q, result)
  start_failed :
      (ms : MessageSession) (q : Queue) (e : Error)
      → round.start ms ≡ some e
      → Once round (started ms ∷ [], q, ok (some e))
  whole :
      (ms : MessageSession) (q : Queue) (result : Option Error)
      → round.start ms ≡ none
      → Once round (started ms ∷ ended ∷ [], q, ok result)

process_with-Once :
    (round : Round) (session_id : Option String) (q : Queue) (r : Option Receiver)
    → Once round (process_with round session_id q r)
unfolding process_with process_session
process_with-Once round session_id q none = early q _ (λ e. cc)
process_with-Once round session_id q (some r) =
    elim (Option-cases (round.start (new_message_session r q.name session_id round.now))) [
      | inl well ↦ rw (well, process_with, process_session) (whole _ _ _ well)
      | inr (x, bad) ↦ rw (bad, process_with, process_session) (start_failed _ _ _ bad)
    ]

receive_one_session-Once :
    (round : Round) (session_id : Option String) (q : Queue)
    → Once round (receive_one_session round session_id q)
unfolding receive_one_session
receive_one_session-Once round session_id q =
    let named = record q { required_session_id = session_id } in
    let options = receiver_with_session session_id ∷ [] in
    elim (Option-cases (ensure_receiver round.broker options named).1) [
      | inr (x, failed) ↦ rw (failed, receive_one_session) (early _ _ (λ e. cc))
      | inl made ↦ rw (made, receive_one_session) (process_with-Once round session_id _ _)
    ]

go_on-Bracketed :
    (rounds : ℕ → Round) {run : SessionRun} (again : Queue → Sessions)
    → Once (rounds 0) run
    → ((q : Queue) → Bracketed (λ n. rounds (suc n)) (again q).0)
    → Bracketed rounds (go_on run again).0
unfolding go_on
go_on-Bracketed rounds again (early q (ok none) h) f = absurd (h refl)
go_on-Bracketed rounds again (early q (ok (some e)) h) f = nothing
go_on-Bracketed rounds again (early q (err e) h) f = nothing
go_on-Bracketed rounds again (early q (panic x) h) f = nothing
go_on-Bracketed rounds again (early q blocked h) f = nothing
go_on-Bracketed rounds again (start_failed ms q e bad) f = refused ms e bad
go_on-Bracketed rounds again (whole ms q none well) f = session ms well (f q)
go_on-Bracketed rounds again (whole ms q (some e) well) f = session ms well nothing

go_on-not_nil :
    (run : SessionRun) (again : Queue → Sessions)
    → ((q : Queue) → (again q).2 ≢ some (ok none))
    → (go_on run again).2 ≢ some (ok none)
unfolding go_on
go_on-not_nil (calls, q, ok none) again f h = f q h
go_on-not_nil (calls, q, ok (some e)) again f h = cc
go_on-not_nil (calls, q, err e) again f h = cc
go_on-not_nil (calls, q, panic x) again f h = cc
go_on-not_nil (calls, q, blocked) again f h = cc

-- However many sessions ReceiveSessions has gone through and whatever they meet, it has called Start
-- and End in turn, End once for each Start that returned nil, and if it returned, then not nil.
pub receive_sessions-Bracketed :
    (fuel : ℕ) (rounds : ℕ → Round) (q : Queue)
    → Bracketed rounds (receive_sessions fuel rounds q).0
      × ((receive_sessions fuel rounds q).2 ≢ some (ok none))
unfolding receive_sessions
receive_sessions-Bracketed zero rounds q = (nothing, λ h. cc)
receive_sessions-Bracketed (suc fuel) rounds q =
    let rest = receive_sessions-Bracketed fuel (λ n. rounds (suc n)) in
    (
      go_on-Bracketed rounds _ (receive_one_session-Once (rounds 0) none q) (λ q'. (rest q').0),
      go_on-not_nil (receive_one_session (rounds 0) none q) _ (λ q'. (rest q').1),
    )

go_on-ends :
    (run : SessionRun) (again : Queue → Sessions)
    → run.2 ≢ ok none
    → (go_on run again).2 ≡ some run.2
unfolding go_on
go_on-ends (calls, q, ok none) again h = absurd (h refl)
go_on-ends (calls, q, ok (some e)) again h = refl
go_on-ends (calls, q, err e) again h = refl
go_on-ends (calls, q, panic x) again h = refl
go_on-ends (calls, q, blocked) again h = refl

go_on-returns :
    (run : SessionRun) (again : Queue → Sessions)
    → ((q : Queue) → (again q).2 ≢ none)
    → (go_on run again).2 ≢ none
unfolding go_on
go_on-returns (calls, q, ok none) again f h = f q h
go_on-returns (calls, q, ok (some e)) again f h = cc
go_on-returns (calls, q, err e) again f h = cc
go_on-returns (calls, q, panic x) again f h = cc
go_on-returns (calls, q, blocked) again f h = cc

-- ReceiveSessions returns at the latest with the first call of ReceiveOneSession that cannot return
-- nil, whatever the queue is by then.
pub receive_sessions-returns :
    (n : ℕ) (rounds : ℕ → Round) (q : Queue)
    → ((q' : Queue) → (receive_one_session (rounds n) none q').2 ≢ ok none)
    → (receive_sessions (suc n) rounds q).2 ≢ none
unfolding receive_sessions
receive_sessions-returns zero rounds q fails = λ h.
    let stopped =
      go_on-ends (receive_one_session (rounds 0) none q) (receive_sessions 0 (λ k. rounds (suc k)))
        (fails q) in
    cc
receive_sessions-returns (suc n) rounds q fails =
    go_on-returns (receive_one_session (rounds 0) none q) _
      (λ q'. receive_sessions-returns n (λ k. rounds (suc k)) q' fails)
