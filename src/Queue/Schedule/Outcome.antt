-- ===== src/Queue/Schedule/Outcome.antt =====
-- What ScheduleAt and CancelScheduled of queue.go have done where they return no error.
use Prim.Native.String.{◌++◌ as ◌<>◌}
use azure_service_bus_go.Prelude.{
  ℕ, ◌≡◌, ◌≢◌, ◌↔◌, refl, ap, sym, ◌∙◌, if◌then◌else◌, Option, none, some, List, [], ◌∷◌, String,
  arith, true, inl, inr, Option-cases, Bool-cases,
}
use mathlib.Core.Path.{subst}
use azure_service_bus_go.Prelude.Int.{ℤ, pos}
use azure_service_bus_go.Amqp.{AmqpMessage}
use azure_service_bus_go.Amqp.Dynamic.{
  Value, Bytes, Time, Items, Fields, null, str, uint, int64s, items, dict, empty, field, get_field,
}
use azure_service_bus_go.Errors.{
  Exec, ok, err, panic, blocked, amqp_response, incorrect_type, new_err_incorrect_type,
  missing_field, Answer, Response, deref, from_error, from_error-eq-ok, >>=-eq-ok,
}
use azure_service_bus_go.Namespace.{Broker}
use azure_service_bus_go.Message.{Message}
use azure_service_bus_go.Iterator.Page.{management_path, to_millis}
use azure_service_bus_go.Sender.{Sender}
use azure_service_bus_go.Rpc.{Rpc, is_success, is_success_iff, server_timeout}
use azure_service_bus_go.Queue.{Queue, ensure_sender}
use azure_service_bus_go.Queue.Schedule.{
  call_management, call_ensured, cancel_request, cancel_scheduled, schedule_request,
  scheduled_answer, send_transformed, schedule_at, transform,
}
use azure_service_bus_go.Queue.Schedule.Entries.{deref-eq-ok, transform-Scheduled}
use azure_service_bus_go.Queue.Schedule.Entry.{Scheduled}

-- ensureSender leaves a sender and no error, a link at name/$management can be had on its
-- connection, and the server answers the request with code 200.
pub record Called (rpc : Rpc) (broker : Broker) (msg : AmqpMessage) (q : Queue) (rsp : Response)
    : Type 0 where
  pub sender : Sender
  pub no_error : (ensure_sender broker q).1 ≡ none
  pub made : (ensure_sender broker q).0.sender ≡ some sender
  pub linked : rpc.new_link sender.connection (q.name <> "/$management") ≡ none
  pub answered : rpc.retryable_rpc 5 msg ≡ ok rsp
  pub succeeded : rsp.code ≡ pos 200

call_ensured-inversion :
    (rpc : Rpc) (broker : Broker) (msg : AmqpMessage) (q : Queue) (rsp : Response)
    → (call_ensured rpc broker msg q).1 ≡ ok rsp
    → ((ensure_sender broker q).1 ≡ none)
      × (call_management rpc (ensure_sender broker q).0.sender q.name msg ≡ ok rsp)
unfolding call_ensured
call_ensured-inversion rpc broker msg q rsp h = elim (Option-cases (ensure_sender broker q).1) [
  | inl fine ↦ (fine, ground arith)
  | inr (e, failed) ↦ absurd (ground arith)
]

checked-eq-ok :
    (answer rsp : Response)
    → (if is_success answer.code then ok answer else err (amqp_response answer)) ≡ ok rsp
    → (is_success answer.code ≡ true) × (answer ≡ rsp)
checked-eq-ok answer rsp h = elim (Bool-cases (is_success answer.code)) [
  | inl success ↦ (success, ground arith)
  | inr failure ↦ absurd (ground arith)
]

call_ensured-eq-ok :
    (rpc : Rpc) (broker : Broker) (msg : AmqpMessage) (q : Queue) (rsp : Response)
    → (call_ensured rpc broker msg q).1 ≡ ok rsp
    → Called rpc broker msg q rsp
unfolding call_management management_path
call_ensured-eq-ok rpc broker msg q rsp h =
    let (fine, called) = call_ensured-inversion rpc broker msg q rsp h in
    let (s, has, h₁) = >>=-eq-ok (deref (ensure_sender broker q).0.sender) _ called in
    let (_, linked, h₂) =
      >>=-eq-ok (from_error (rpc.new_link s.connection (management_path q.name))) _ h₁ in
    let (answer, answered, h₃) = >>=-eq-ok (rpc.retryable_rpc 5 msg) _ h₂ in
    let (success, same) = checked-eq-ok answer rsp h₃ in
    record {
      sender = s;
      no_error = fine;
      made = deref-eq-ok _ has;
      linked = from_error-eq-ok _ linked;
      answered = answered ∙ ap ok same;
      succeeded = (is_success_iff rsp.code).0 (subst (λ r. is_success r.code ≡ true) same success);
    }

scheduled_answer-found :
    (v : Fields) (numbers : List ℤ)
    → get_field "sequence-numbers" v ≡ some (int64s numbers)
    → scheduled_answer (dict v) ≡ ok numbers
unfolding scheduled_answer
scheduled_answer-found v numbers found = ground arith

call_ensured-Called :
    (rpc : Rpc) (broker : Broker) (msg : AmqpMessage) (q : Queue) (rsp : Response)
    → Called rpc broker msg q rsp
    → (call_ensured rpc broker msg q).1 ≡ ok rsp
unfolding call_ensured call_management management_path
call_ensured-Called rpc broker msg q rsp c =
    let fine = c.no_error in
    let made = c.made in
    let linked = c.linked in
    let answered = c.answered in
    let succeeded = (is_success_iff rsp.code).1 c.succeeded in ground arith

-- A CancelScheduled that returns no error has had the request with the given sequence numbers
-- answered with code 200, over a link on the connection of the sender that ensureSender left.
pub cancel_scheduled-eq-ok :
    (rpc : Rpc) (broker : Broker) (deadline : Option ℤ) (seq : List ℤ) (q : Queue)
    → (cancel_scheduled rpc broker deadline seq q).1 ≡ ok tt
    → (rsp : Response) × Called rpc broker (cancel_request deadline seq) q rsp
unfolding cancel_scheduled
cancel_scheduled-eq-ok rpc broker deadline seq q h =
    let (rsp, called, _) =
      >>=-eq-ok (call_ensured rpc broker (cancel_request deadline seq) q).1 _ h in
    (rsp, call_ensured-eq-ok rpc broker _ q rsp called)

-- The message with the operation, the entries under "messages", and the time that is left until the
-- deadline, if there is one.
abbrev pub scheduling : Option ℤ → Items → AmqpMessage
scheduling deadline entries = record {
  payload = [];
  value = dict (field "messages" (items entries) empty);
  header = none;
  properties = none;
  application_properties = some (
      ("operation", str "com.microsoft:schedule-message") ∷ elim deadline [
        | none ↦ []
        | some left ↦ ("com.microsoft:server-timeout", uint (to_millis left)) ∷ []
      ]);
  annotations = none;
  delivery_annotations = none;
  delivery_tag = none;
}

schedule_request-scheduling :
    (deadline : Option ℤ) (entries : Items)
    → schedule_request deadline entries ≡ scheduling deadline entries
unfolding schedule_request server_timeout
schedule_request-scheduling none entries = refl
schedule_request-scheduling (some left) entries = refl

numbers_of :
    (o : Option Value) (numbers : List ℤ)
    → (elim o [
      | some (int64s ns) ↦ ok ns
      | some raw ↦ err (incorrect_type (new_err_incorrect_type "sequence-numbers" (int64s []) raw))
      | none ↦ err (missing_field "sequence-numbers")
    ])
      ≡ ok numbers
    → o ≡ some (int64s numbers)
numbers_of (some (int64s ns)) numbers h = ground arith
numbers_of none numbers h = cc
numbers_of (some null) numbers h = cc
numbers_of (some _) numbers h = cc

scheduled_answer-eq-ok :
    (value : Value) (numbers : List ℤ)
    → scheduled_answer value ≡ ok numbers
    → (v : Fields) × (value ≡ dict v) × (get_field "sequence-numbers" v ≡ some (int64s numbers))
unfolding scheduled_answer
scheduled_answer-eq-ok (dict v) numbers h =
    (v, refl, numbers_of (get_field "sequence-numbers" v) numbers h)
scheduled_answer-eq-ok null numbers h = cc
scheduled_answer-eq-ok _ numbers h = cc

module _ (new_amqp_message : Bytes → AmqpMessage) (marshal_binary : AmqpMessage → Exec Bytes) where
  send_transformed-eq-ok :
      (rpc : Rpc) (broker : Broker) (deadline : Option ℤ) (q : Queue) (all : Exec Items)
      (numbers : List ℤ)
      → (send_transformed new_amqp_message marshal_binary rpc broker deadline q all).1 ≡ ok numbers
      → (entries : Items) × (rsp : Response) × (all ≡ ok entries)
        × Called rpc broker (schedule_request deadline entries) q rsp
        × (scheduled_answer rsp.value ≡ ok numbers)
  unfolding send_transformed
  send_transformed-eq-ok rpc broker deadline q (ok entries) numbers h =
      let (rsp, called, read) =
        >>=-eq-ok (call_ensured rpc broker (schedule_request deadline entries) q).1 _ h in
      (entries, rsp, refl, call_ensured-eq-ok rpc broker _ q rsp called, read)
  send_transformed-eq-ok rpc broker deadline q (err e) numbers h = cc
  send_transformed-eq-ok rpc broker deadline q (panic x) numbers h = cc
  send_transformed-eq-ok rpc broker deadline q blocked numbers h = cc

  send_transformed-Called :
      (rpc : Rpc) (broker : Broker) (deadline : Option ℤ) (q : Queue) (entries : Items)
      (rsp : Response) (v : Fields) (numbers : List ℤ)
      → Called rpc broker (scheduling deadline entries) q rsp
      → rsp.value ≡ dict v
      → get_field "sequence-numbers" v ≡ some (int64s numbers)
      → (send_transformed new_amqp_message marshal_binary rpc broker deadline q (ok entries)).1
        ≡ ok numbers
  unfolding send_transformed scheduled_answer
  send_transformed-Called rpc broker deadline q entries rsp v numbers called is_map found =
      let answered : (call_ensured rpc broker (schedule_request deadline entries) q).1 ≡ ok rsp =
        call_ensured-Called rpc broker _ q rsp (
          subst (λ msg. Called rpc broker msg q rsp)
            (sym (schedule_request-scheduling deadline entries)) called) in
      rw (answered, is_map) (scheduled_answer-found v numbers found)

  -- ScheduleAt returns these sequence numbers exactly if it was given messages, its loop makes
  -- entries of all of them, and a message with the operation com.microsoft:schedule-message and the
  -- entries under "messages", and with the time left until the deadline if there is one, is answered
  -- with code 200 and a map that holds the numbers under "sequence-numbers", over a link at
  -- name/$management on the connection of the sender that ensureSender leaves. The entries are then
  -- those of the messages, in order, with what an entry holds.
  pub schedule_at-eq-ok :
      (rpc : Rpc) (broker : Broker) (deadline : Option ℤ) (t : Time) (new_uuid : ℕ → Answer String)
      (ms : List Message) (q : Queue) (numbers : List ℤ)
      → ((schedule_at new_amqp_message marshal_binary rpc broker deadline t new_uuid ms q).2
          ≡ ok numbers)
        ↔ ((entries : Items) × (rsp : Response) × (v : Fields) × (ms ≢ [])
            × ((transform new_amqp_message marshal_binary t new_uuid 0 ms).1 ≡ ok entries)
            × Scheduled new_amqp_message marshal_binary t new_uuid 0 ms
                (transform new_amqp_message marshal_binary t new_uuid 0 ms).0
                entries
            × Called rpc broker (scheduling deadline entries) q rsp
            × (rsp.value ≡ dict v)
            × (get_field "sequence-numbers" v ≡ some (int64s numbers)))
  unfolding schedule_at
  schedule_at-eq-ok rpc broker deadline t new_uuid [] q numbers =
      (λ h. cc, λ (_, _, _, some_given, _, _, _, _, _). absurd (some_given refl))
  schedule_at-eq-ok rpc broker deadline t new_uuid (m ∷ ms) q numbers = (
    λ h.
        let (entries, rsp, went, called, read) =
          send_transformed-eq-ok rpc broker deadline q _ numbers h in
        let (v, is_map, found) = scheduled_answer-eq-ok rsp.value numbers read in
        (
          entries,
          rsp,
          v,
          λ e. cc,
          went,
          transform-Scheduled new_amqp_message marshal_binary t new_uuid 0 (m ∷ ms) entries went,
          subst (λ msg. Called rpc broker msg q rsp) (schedule_request-scheduling deadline entries)
              called,
          is_map,
          found,
        ),
    λ (entries, rsp, v, _, went, _, called, is_map, found).
        ap (λ all. (send_transformed new_amqp_message marshal_binary rpc broker deadline q all).1)
          went
        ∙ send_transformed-Called rpc broker deadline q entries rsp v numbers called is_map found,
  )
