-- ===== src/Tests/Schedule.antt =====
-- Send, ScheduleAt and CancelScheduled of queue.go at concrete data.
use azure_service_bus_go.Prelude.{ℕ, ◌≡◌, ◌≢◌, ◌↔◌, refl, none, some, List, [], ◌∷◌, String}
use azure_service_bus_go.Prelude.Int.{pos}
use azure_service_bus_go.Amqp.{AmqpMessage}
use azure_service_bus_go.Amqp.Dynamic.{
  Bytes, Items, Fields, get_field, str, bytes, int64s, dict, end, item, empty, field,
}
use azure_service_bus_go.Errors.{Exec, ok, Answer, got, Response}
use azure_service_bus_go.Namespace.{new_connection, negotiate_claim}
use azure_service_bus_go.Message.{Message}
use azure_service_bus_go.Message.Properties.{schedule_at as schedule_message}
use azure_service_bus_go.Message.ToAmqp.{to_msg, annotate}
use azure_service_bus_go.Message.Tags.{
  encode_structure_to_map, parse_map_structure_tag, put_field, system_properties_fields,
}
use azure_service_bus_go.Sender.Send.{assign_id}
use azure_service_bus_go.Message.RoundTrip.{payload_only}
use azure_service_bus_go.Rpc.{Rpc}
use azure_service_bus_go.Queue.Schedule.{transform, schedule_at}
use azure_service_bus_go.Queue.Schedule.Entry.{Scheduled}
use azure_service_bus_go.Queue.Schedule.Entries.{transform-Scheduled}
use azure_service_bus_go.Queue.Schedule.Outcome.{Called, scheduling, schedule_at-eq-ok}
use azure_service_bus_go.Queue.{Queue}
use azure_service_bus_go.Tests.Message.{greeting}
use azure_service_bus_go.Tests.Sender.{broker}
use azure_service_bus_go.Tests.Queue.{queue, answering, noon}

abbrev new_ids : ℕ → Answer String
new_ids n = got "u-2"

abbrev marshal : AmqpMessage → Exec Bytes
marshal a = ok (9 ∷ [])

-- The first message has an identifier, a group and a partition key; the second has none of them.
abbrev both : List Message
both = greeting ∷ record greeting { id = ""; group_id = none; system_properties = none } ∷ []

abbrev entries : Items
entries =
    item
      (dict (
        field "message-id" (str "m-1") (
          field "message" (bytes (9 ∷ []))
            (field "session-id" (str "s") (field "partition-key" (str "p") empty)))))
      (item (dict (field "message-id" (str "u-2") (field "message" (bytes (9 ∷ [])) empty))) end)

transform-Scheduled_example :
    Scheduled payload_only marshal noon new_ids 0 both
      (transform payload_only marshal noon new_ids 0 both).0
      entries
unfolding transform assign_id schedule_message to_msg annotate encode_structure_to_map
    parse_map_structure_tag put_field system_properties_fields
transform-Scheduled_example =
    transform-Scheduled payload_only marshal noon new_ids 0 both entries refl

abbrev numbered_answer : Rpc
numbered_answer = answering (dict (field "sequence-numbers" (int64s (pos 41 ∷ pos 42 ∷ [])) empty))

schedule_at-eq-ok_example :
    ((schedule_at payload_only marshal numbered_answer broker none noon new_ids both queue).2
      ≡ ok (pos 41 ∷ pos 42 ∷ []))
    ↔ ((all : Items) × (rsp : Response) × (v : Fields) × (both ≢ [])
        × ((transform payload_only marshal noon new_ids 0 both).1 ≡ ok all)
        × Scheduled payload_only marshal noon new_ids 0 both
            (transform payload_only marshal noon new_ids 0 both).0
            all
        × Called numbered_answer broker (scheduling none all) queue rsp
        × (rsp.value ≡ dict v)
        × (get_field "sequence-numbers" v ≡ some (int64s (pos 41 ∷ pos 42 ∷ []))))
schedule_at-eq-ok_example =
    schedule_at-eq-ok payload_only marshal numbered_answer broker none noon new_ids both queue
      (pos 41 ∷ pos 42 ∷ [])

-- The numbers come back.
schedules :
    (schedule_at payload_only marshal numbered_answer broker none noon new_ids both queue).2
    ≡ ok (pos 41 ∷ pos 42 ∷ [])
unfolding schedule_at new_connection negotiate_claim assign_id schedule_message to_msg annotate
    encode_structure_to_map parse_map_structure_tag put_field system_properties_fields
schedules = refl

abbrev sessioned : Queue
sessioned = record queue { required_session_id = some "s" }
