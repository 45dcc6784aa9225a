-- ===== src/Sender/Retry.antt =====
-- The loop of trySend (sender.go): when it ends, and with what.
use native.Mathlib.Nat.{add-zero, add-suc, suc-add}
use azure_service_bus_go.Prelude.{
  ℕ, zero, suc, ◌+◌, ◌<◌, ◌≡◌, Bool, true, false, Option, none, some, List, [], ◌∷◌, length, String,
  if◌then◌else◌, arith, refl, ap,
}
use azure_service_bus_go.Errors.{Exec, ok, err, context_done, got}
use azure_service_bus_go.Namespace.{Broker}
use azure_service_bus_go.Sender.{Sender, recover, new_session_and_link}
use azure_service_bus_go.Sender.Send.{Round, Transfer, is_retried, send_loop}
use azure_service_bus_go.Amqp.{AmqpMessage}

-- What a round hands to the caller, or `none` if the loop goes on.
abbrev pub outcome : Round → Option (Exec (Unit {0}))
outcome r = elim r.context_is_done [
  | true ↦ some (err context_done)
  | false ↦ elim r.sent [
    | none ↦ some (ok tt)
    | some e ↦ elim (is_retried e) [ true ↦ none | false ↦ some (err e) ]
  ]
]

-- `k` rounds from the n-th on are retried, and a new identifier can be had in each. Whatever else
-- fails in their recoveries is left open.
abbrev pub Retried : (ℕ → Round) → ℕ → ℕ → Type 0
Retried rounds n zero = Unit
Retried rounds n (suc k) =
    (outcome (rounds n) ≡ none)
    × ((id : String) × ((rounds n).broker.new_uuid ≡ got id))
    × Retried rounds (suc n) k

abbrev pub has_session : Sender → Bool
has_session s = elim s.session [ none ↦ false | some _ ↦ true ]

-- The session stays, if there is one and a new identifier can be had.
new_session_and_link-has_session :
    (broker : Broker) (s : Sender) (id : String)
    → has_session s ≡ true
    → broker.new_uuid ≡ got id
    → has_session (new_session_and_link broker s).0 ≡ true
unfolding new_session_and_link
new_session_and_link-has_session broker s id h u = ground arith

-- The transfers of a round that ends the loop.
abbrev pub attempts : Round → ℕ
attempts r = if r.context_is_done then 0 else 1

-- Every transfer is of the message `a`.
abbrev pub AllOf : AmqpMessage → List Transfer → Type 0
AllOf a [] = Unit
AllOf a (t ∷ ts) = (t.message ≡ a) × AllOf a ts

-- What the loop has done when it ends with `r` after `k` retries.
pub record Done (rounds : ℕ → Round) (a : AmqpMessage) (k n fuel : ℕ) (s : Sender)
    (r : Exec (Unit {0})) : Type 0 where
  pub left : Sender
  pub transfers : List Transfer
  pub ends : send_loop fuel rounds a n s ≡ some (left, record { transfers = transfers; result = r })
  pub same : AllOf a transfers
  pub counted : length transfers ≡ k + attempts (rounds (n + k))

-- The transfers of a round that ends the loop.
abbrev last_transfers : Round → Transfer → List Transfer
last_transfers r t = if r.context_is_done then [] else t ∷ []

last_round :
    (rounds : ℕ → Round) (a : AmqpMessage) (n fuel : ℕ) (s : Sender) (r : Exec (Unit {0}))
    → outcome (rounds n) ≡ some r
    → send_loop (suc fuel) rounds a n s
      ≡ some (
        s,
        record {
          transfers = last_transfers (rounds n) (record { link = s.link; message = a });
          result = r;
        },
      )
unfolding send_loop
last_round rounds a n fuel s r e = ground arith

AllOf-last_transfers :
    (r : Round) (t : Transfer) (a : AmqpMessage) → t.message ≡ a → AllOf a (last_transfers r t)
AllOf-last_transfers r t a e = elim r.context_is_done as (λ b. AllOf a (if b then [] else t ∷ [])) [
  | true ↦ tt
  | false ↦ (e, tt)
]

length-last_transfers : (r : Round) (t : Transfer) → length (last_transfers r t) ≡ attempts r
length-last_transfers r t = ground arith

-- A retried round before the rest of the loop.
retried_round :
    (rounds : ℕ → Round) (a : AmqpMessage) (k n fuel : ℕ) (s : Sender) (r : Exec (Unit {0}))
    (id : String)
    → has_session s ≡ true
    → outcome (rounds n) ≡ none
    → (rounds n).broker.new_uuid ≡ got id
    → Done rounds a k (suc n) fuel (new_session_and_link (rounds n).broker s).0 r
    → Done rounds a (suc k) n (suc fuel) s r
unfolding send_loop recover
retried_round rounds a k n fuel s r id h again u d =
    let t : Transfer = record { link = s.link; message = a } in
    let ends = d.ends in
    let counted = d.counted in
    let later : attempts (rounds (suc n + k)) ≡ attempts (rounds (n + suc k)) =
      ap (λ i. attempts (rounds i)) (omega arith) in
    record {
      left = d.left;
      transfers = t ∷ d.transfers;
      ends = ground arith;
      same = (refl, d.same);
      counted = omega arith;
    }

-- If `k` rounds are retried and the next one is not, the loop ends in that round with its outcome,
-- given fuel for more than `k` rounds: with nil after a message is sent, with the context's error,
-- or with an error that is not retried. (The sender has a session, and uuid.NewV4 does not fail
-- in the recoveries; anything else in them may fail.) The message has been transferred once in each
-- retried round, once more if the context was not done in the last one, and no other message was.
pub send_loop-outcome :
    (rounds : ℕ → Round) (a : AmqpMessage) (k n fuel : ℕ) (s : Sender) (r : Exec (Unit {0}))
    → has_session s ≡ true
    → Retried rounds n k
    → outcome (rounds (n + k)) ≡ some r
    → k < fuel
    → Done rounds a k n fuel s r
send_loop-outcome rounds a k n zero s r h retried e lt = absurd (omega arith)
send_loop-outcome rounds a zero n (suc fuel) s r h retried e lt =
    let here : outcome (rounds n) ≡ some r = (rw add-zero at e) in
    let t : Transfer = record { link = s.link; message = a } in
    let one = length-last_transfers (rounds n) t in
    let same : attempts (rounds n) ≡ attempts (rounds (n + 0)) =
      ap (λ i. attempts (rounds i)) (omega arith) in
    record {
      left = s;
      transfers = last_transfers (rounds n) t;
      ends = last_round rounds a n fuel s r here;
      same = AllOf-last_transfers (rounds n) t a refl;
      counted = omega arith;
    }
send_loop-outcome rounds a (suc k) n (suc fuel) s r h (again, (id, u), retried) e lt =
    let there : outcome (rounds (suc n + k)) ≡ some r = (rw (add-suc, ← suc-add) at e) in
    retried_round rounds a k n fuel s r id h again u (
      send_loop-outcome rounds a k (suc n) fuel (new_session_and_link (rounds n).broker s).0 r
        (new_session_and_link-has_session (rounds n).broker s id h u) retried there (omega arith))
