-- ===== src/QueueManager.antt =====
-- queue_manager.go: the options of a queue description. Put, List, Get and Delete stand in the child
-- Requests, and what is proved in Valid.
pub mod Requests
pub mod Valid
use azure_service_bus_go.Prelude.{
  Bool, true, false, ◌||◌, Option, none, some, String, if◌then◌else◌,
}
use azure_service_bus_go.Prelude.Int.{ℤ, pos, negsuc, ltb_ℤ}
use azure_service_bus_go.Management.Duration.{
  IsoSeconds, duration_to_8601_seconds, five_minutes, or_default,
}
use azure_service_bus_go.Errors.{Error, Exec, ok, err, plain}

-- The fields of QueueDescription that Put or an option writes. A nil pointer is `none`.
pub record QueueDescription : Type 0 where
  pub service_bus_schema : Option String
  pub lock_duration : Option IsoSeconds
  pub max_size_in_megabytes : Option ℤ
  pub requires_duplicate_detection : Option Bool
  pub requires_session : Option Bool
  pub default_message_time_to_live : Option IsoSeconds
  pub dead_lettering_on_message_expiration : Option Bool
  pub duplicate_detection_history_time_window : Option IsoSeconds
  pub max_delivery_count : Option ℤ
  pub auto_delete_on_idle : Option IsoSeconds
  pub enable_partitioning : Option Bool

-- new(QueueDescription)
abbrev pub new_description : QueueDescription
new_description = record {
  service_bus_schema = none;
  lock_duration = none;
  max_size_in_megabytes = none;
  requires_duplicate_detection = none;
  requires_session = none;
  default_message_time_to_live = none;
  dead_lettering_on_message_expiration = none;
  duplicate_detection_history_time_window = none;
  max_delivery_count = none;
  auto_delete_on_idle = none;
  enable_partitioning = none;
}

abbrev pub QueueManagementOption : Type 0
QueueManagementOption = QueueDescription → QueueDescription × Option Error

unfoldable pub queue_entity_with_partitioning : QueueManagementOption
queue_entity_with_partitioning q = (record q { enable_partitioning = some true }, none)

-- Between the bounds, the conversion to int32 keeps the value.
unfoldable pub queue_entity_with_max_size_in_megabytes : ℤ → QueueManagementOption
queue_entity_with_max_size_in_megabytes size q =
    if ltb_ℤ size (pos 1024) || ltb_ℤ (pos 5120) size
    then (
      q,
      some (
          plain
            "QueueEntityWithMaxSizeInMegabytes: must be between 1 * Megabytes and 5 * Megabytes"),
    )
    else (record q { max_size_in_megabytes = some size }, none)

unfoldable pub queue_entity_with_duplicate_detection : Option ℤ → QueueManagementOption
unfolding duration_to_8601_seconds
queue_entity_with_duplicate_detection none q =
    (record q { requires_duplicate_detection = some true }, none)
queue_entity_with_duplicate_detection (some window) q = (
  record q {
    requires_duplicate_detection = some true;
    duplicate_detection_history_time_window = some (duration_to_8601_seconds window);
  },
  none,
)

unfoldable pub queue_entity_with_required_sessions : QueueManagementOption
queue_entity_with_required_sessions q = (record q { requires_session = some true }, none)

unfoldable pub queue_entity_with_dead_lettering : QueueManagementOption
queue_entity_with_dead_lettering q =
    (record q { dead_lettering_on_message_expiration = some true }, none)

unfoldable pub queue_entity_with_auto_delete_on_idle : Option ℤ → QueueManagementOption
unfolding duration_to_8601_seconds
queue_entity_with_auto_delete_on_idle none q = (q, none)
queue_entity_with_auto_delete_on_idle (some window) q =
    if ltb_ℤ window five_minutes
    then (q, some (plain "QueueEntityWithAutoDeleteOnIdle: window must be greater than 5 minutes"))
    else (record q { auto_delete_on_idle = some (duration_to_8601_seconds window) }, none)

-- 14 days, if none is given
unfoldable pub queue_entity_with_message_time_to_live : Option ℤ → QueueManagementOption
unfolding duration_to_8601_seconds
queue_entity_with_message_time_to_live window q = (
  record q {
    default_message_time_to_live =
        some (duration_to_8601_seconds (or_default window 1_209_600_000_000_000));
  },
  none,
)

-- One minute, if none is given
unfoldable pub queue_entity_with_lock_duration : Option ℤ → QueueManagementOption
unfolding duration_to_8601_seconds
queue_entity_with_lock_duration window q = (
  record q { lock_duration = some (duration_to_8601_seconds (or_default window 60_000_000_000)) },
  none,
)

unfoldable pub queue_entity_with_max_delivery_count : ℤ → QueueManagementOption
queue_entity_with_max_delivery_count count q = (record q { max_delivery_count = some count }, none)
