-- ===== src/Message/Disposition.antt =====
-- Complete, Abandon, DeadLetter and DeadLetterWithInfo of message.go. A disposition action is what
-- its run does: the calls that it makes on amqp messages, in order. Those are calls of
-- pack.ag/amqp, and stand here as records of the call. The tracing spans have no effect on them.
use azure_service_bus_go.Prelude.{◌≡◌, Bool, false, Option, none, some, List, [], ◌∷◌, String}
use mathlib.Core.Option
use azure_service_bus_go.Prelude.Dict.{
  Dict, lookup, NodupKeys, copy_onto, map_values, copy_onto-nil, lookup-map_values,
}
use azure_service_bus_go.Amqp.{AmqpMessage}
use azure_service_bus_go.Amqp.Dynamic.{Value, str}
use azure_service_bus_go.Errors.{Exec, ok, deref, ◌>>=◌}
use azure_service_bus_go.Message.{Message}

-- amqp.Error
pub record AmqpError : Type 0 where
  pub condition : String
  pub description : String
  pub info : Option (Dict Value)

-- Accept(), Modify(deliveryFailed, undeliverableHere, nil), Reject(&amqpErr)
pub data Settlement : Type 0 where
  accept : Settlement
  modify : Bool → Bool → Settlement
  reject : AmqpError → Settlement

-- A call on `m.message`, which may be nil.
pub record Call : Type 0 where
  pub target : Option AmqpMessage
  pub settlement : Settlement

abbrev pub DispositionAction : Type 0
DispositionAction = Exec (List Call)

unfoldable pub complete : Message → DispositionAction
complete m = ok (record { target = m.message; settlement = accept } ∷ [])

unfoldable pub abandon : Message → DispositionAction
abandon m = ok (record { target = m.message; settlement = modify false false } ∷ [])

abbrev pub error_internal_error : String
error_internal_error = "amqp:internal-error"

-- `err` is the text of the error, or `none` for a nil error, on which `err.Error()` panics.
unfoldable pub dead_letter : Message → Option String → DispositionAction
dead_letter m e = do
  description ← deref e
  ok (
      record {
        target = m.message;
        settlement =
            reject
              (record { condition = error_internal_error; description = description; info = none });
      }
      ∷ [])

-- The copy of additionalData, made when the action is built.
unfoldable pub info_of : Option (Dict String) → Option (Dict Value)
info_of none = none
info_of (some data') = some (copy_onto str data' [])

unfoldable pub dead_letter_with_info :
    Message → Option String → String → Option (Dict String) → DispositionAction
unfolding info_of
dead_letter_with_info m e condition additional_data = do
  description ← deref e
  ok (
      record {
        target = m.message;
        settlement = reject (record {
          condition = condition;
          description = description;
          info = info_of additional_data;
        });
      }
      ∷ [])

-- DeadLetterWithInfo makes one call: a rejection of the message under the given condition, with the
-- error's text, and with an info map that holds at each key the string that additionalData holds
-- there, and nothing else. (The keys of a Go map are distinct.)
pub dead_letter_with_info_lem :
    (m : Message) (e condition : String) (additional_data : Dict String)
    → NodupKeys additional_data
    → (i : Dict Value) × (dead_letter_with_info m (some e) condition (some additional_data)
        ≡ ok (
            record {
              target = m.message;
              settlement =
                  reject (record { condition = condition; description = e; info = some i });
            }
            ∷ []))
      × ((k : String) → lookup k i ≡ Option.map str (lookup k additional_data))
unfolding dead_letter_with_info
dead_letter_with_info_lem m e condition additional_data h = (
  map_values str additional_data,
  rw (copy_onto-nil str additional_data h),
  lookup-map_values str additional_data,
)
