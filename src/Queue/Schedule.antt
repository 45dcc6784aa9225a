-- ===== src/Queue/Schedule.antt =====
-- ScheduleAt and CancelScheduled of queue.go. The calls that leave the repository are parameters:
-- amqp.NewMessage, MarshalBinary, uuid.NewV4 for the n-th message, and those of Broker and Rpc.
pub mod Entry
pub mod Entries
pub mod Outcome
use azure_service_bus_go.Prelude.{
  ℕ, suc, ◌≡◌, Option, none, some, List, [], ◌∷◌, String, if◌then◌else◌,
}
use azure_service_bus_go.Prelude.Int.{ℤ}
use azure_service_bus_go.Amqp.{AmqpMessage}
use azure_service_bus_go.Amqp.Dynamic.{
  Value, Bytes, Time, utc, Items, Fields, str, bytes, int64s, items, dict, end, item, empty, field,
  get_field,
}
use azure_service_bus_go.Errors.{
  Error, Exec, ok, err, panic, blocked, Response, Answer, plain, amqp_response, missing_field,
  incorrect_type, new_err_incorrect_type, deref, from_error, ◌>>=◌,
}
use azure_service_bus_go.Namespace.{Broker}
use azure_service_bus_go.Message.{Message, SystemProperties}
use azure_service_bus_go.Message.Properties.{schedule_at as schedule_message}
use azure_service_bus_go.Message.ToAmqp.{to_msg}
use azure_service_bus_go.Iterator.Page.{management_path}
use azure_service_bus_go.Sender.{Sender}
use azure_service_bus_go.Sender.Send.{assign_id}
use azure_service_bus_go.Rpc.{Rpc, is_success, request, server_timeout}
use azure_service_bus_go.Queue.{Queue, ensure_sender}

abbrev pub optional : String → Option String → Fields → Fields
optional k none rest = rest
optional k (some s) rest = field k (str s) rest

-- individualMessage
unfoldable pub individual_message : Message → SystemProperties → Bytes → Value
individual_message m p encoded = dict (
    field "message-id" (str m.id) (
      field "message" (bytes encoded) (
        optional "session-id" m.group_id (
          optional "partition-key" p.partition_key
            (optional "via-partition-key" p.via_partition_key empty)))))

unfoldable pub scheduled_answer : Value → Exec (List ℤ)
scheduled_answer (dict v) = elim (get_field "sequence-numbers" v) [
  | some (int64s numbers) ↦ ok numbers
  | some raw ↦ err (incorrect_type (new_err_incorrect_type "sequence-numbers" (int64s []) raw))
  | none ↦ err (missing_field "sequence-numbers")
]
scheduled_answer v = err (incorrect_type (new_err_incorrect_type "value" (dict empty) v))

-- The link on the sender's connection, the call, and the test of its response code.
unfoldable pub call_management : Rpc → Option Sender → String → AmqpMessage → Exec Response
call_management rpc sender name msg = do
  s ← deref sender
  _ ← from_error (rpc.new_link s.connection (management_path name))
  rsp ← rpc.retryable_rpc 5 msg
  if is_success rsp.code then ok rsp else err (amqp_response rsp)

-- ensureSender, and then the call.
unfoldable pub call_ensured : Rpc → Broker → AmqpMessage → Queue → Queue × Exec Response
unfolding ensure_sender call_management
call_ensured rpc broker msg q =
    let (q', e) = ensure_sender broker q in
    elim e [ some x ↦ (q', err x) | none ↦ (q', call_management rpc q'.sender q.name msg) ]

unfoldable pub cancel_request : Option ℤ → List ℤ → AmqpMessage
unfolding server_timeout
cancel_request deadline seq =
    request (("operation", str "com.microsoft:cancel-scheduled-message") ∷ server_timeout deadline)
      none (dict (field "sequence-numbers" (int64s seq) empty))

unfoldable pub cancel_scheduled : Rpc → Broker → Option ℤ → List ℤ → Queue → Queue × Exec (Unit {0})
unfolding call_ensured cancel_request
cancel_scheduled rpc broker deadline seq q =
    let (q', r) = call_ensured rpc broker (cancel_request deadline seq) q in
    (q', r >>= (λ _. ok tt))

unfoldable pub schedule_request : Option ℤ → Items → AmqpMessage
unfolding server_timeout
schedule_request deadline transformed =
    request (("operation", str "com.microsoft:schedule-message") ∷ server_timeout deadline) none
      (dict (field "messages" (items transformed) empty))

module _ (new_amqp_message : Bytes → AmqpMessage) (marshal_binary : AmqpMessage → Exec Bytes) where
  encode : Message × Exec AmqpMessage → Message × Exec Value
  unfolding individual_message
  encode (m, raw) = (
    m,
    raw
        >>= marshal_binary
        >>= (λ encoded. deref m.system_properties >>= (λ p. ok (individual_message m p encoded))),
  )

  encode_named : Message × Option Error → Message × Exec Value
  unfolding encode
  encode_named (m, some e) = (m, err e)
  encode_named (m, none) = encode (to_msg new_amqp_message m)

  -- One round of the loop: the message as it is left, and its entry.
  unfoldable pub schedule_one : Time → Answer String → Message → Message × Exec Value
  unfolding encode_named
  schedule_one t new_uuid m = encode_named (assign_id new_uuid (schedule_message m t))

  -- The messages behind one that fails are left alone.
  proceed :
      List Message → Message × Exec Value → List Message × Exec Items → List Message × Exec Items
  proceed ms (m, ok v) (rest, vs) = (m ∷ rest, vs >>= (λ transformed. ok (item v transformed)))
  proceed ms (m, err e) rest = (m ∷ ms, err e)
  proceed ms (m, panic x) rest = (m ∷ ms, panic x)
  proceed ms (m, blocked) rest = (m ∷ ms, blocked)

  unfoldable pub transform :
      Time → (ℕ → Answer String) → ℕ → List Message → List Message × Exec Items
  unfolding schedule_one proceed
  transform t new_uuid n [] = ([], ok end)
  transform t new_uuid n (m ∷ ms) =
      proceed ms (schedule_one t (new_uuid n) m) (transform t new_uuid (suc n) ms)

  send_transformed : Rpc → Broker → Option ℤ → Queue → Exec Items → Queue × Exec (List ℤ)
  unfolding call_ensured scheduled_answer schedule_request
  send_transformed rpc broker deadline q (ok transformed) =
      let (q', r) = call_ensured rpc broker (schedule_request deadline transformed) q in
      (q', r >>= (λ rsp. scheduled_answer rsp.value))
  send_transformed rpc broker deadline q (err e) = (q, err e)
  send_transformed rpc broker deadline q (panic x) = (q, panic x)
  send_transformed rpc broker deadline q blocked = (q, blocked)

  -- The queue and the messages as they are left, and the sequence numbers.
  unfoldable pub schedule_at :
      Rpc
      → Broker
      → Option ℤ
      → Time
      → (ℕ → Answer String)
      → List Message
      → Queue
      → Queue × List Message × Exec (List ℤ)
  unfolding transform send_transformed
  schedule_at rpc broker deadline t new_uuid [] q =
      (q, [], err (plain "expected one or more messages"))
  schedule_at rpc broker deadline t new_uuid (m ∷ ms) q =
      let (ms', transformed) = transform t new_uuid 0 (m ∷ ms) in
      let (q', numbers) = send_transformed rpc broker deadline q transformed in (q', ms', numbers)
