-- ===== src/Message/Properties.antt =====
-- Set, ForeachKey and ScheduleAt of message.go. ForeachKey's handler is a function on a state of
-- the caller's, which returns the new state and an error or nil.

use azure_service_bus_go.Prelude.{Option, none, some, [], ◌∷◌, String}
use azure_service_bus_go.Prelude.Dict.{Dict, insert}
use azure_service_bus_go.Amqp.Dynamic.{Value, str, Time, utc}
use azure_service_bus_go.Errors.{Error, Exec, ok, err, panic, type_assertion}
use azure_service_bus_go.Message.{Message, no_system_properties}

-- The map that a range or a lookup sees in a field that may be nil.
abbrev pub map_of {ℓ} : {V : Type ℓ} → Option (Dict V) → Dict V
map_of none = []
map_of (some m) = m

unfoldable pub set : Message → String → String → Message
set m key value = record m {
  user_properties = some (insert key (str value) (map_of m.user_properties));
}

-- `value.(string)`
abbrev pub as_text : Value → Option String
as_text (str s) = some s
as_text _ = none

module _ {S : Type 0} (handler : S → String → String → S × Option Error) where
  -- What a visit to one entry leaves, and whether the loop goes on.
  abbrev pub visit : S → String → Option String → S × Exec (Unit {0})
  visit s key none = (s, panic type_assertion)
  visit s key (some value) =
      let (s', e) = handler s key value in elim e [ none ↦ (s', ok tt) | some x ↦ (s', err x) ]

  unfoldable pub foreach : S → Dict Value → S × Exec (Unit {0})
  foreach s [] = (s, ok tt)
  foreach s ((key, value) ∷ m) =
      let (s', r) = visit s key (as_text value) in
      elim r [
        | ok _ ↦ foreach s' m
        | err x ↦ (s', err x)
        | panic x ↦ (s', panic x)
        | Exec.blocked ↦ (s', Exec.blocked)
      ]

  unfoldable pub foreach_key : S → Message → S × Exec (Unit {0})
  unfolding foreach
  foreach_key s m = foreach s (map_of m.user_properties)

-- SystemProperties is made if it is nil; the time is kept in UTC.
unfoldable pub schedule_at : Message → Time → Message
schedule_at m t = record m {
  system_properties =
      some (record (elim m.system_properties [ none ↦ no_system_properties | some p ↦ p ]) {
        scheduled_enqueue_time = some (record t { location = utc });
      });
}
