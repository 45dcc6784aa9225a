-- ===== src/TopicManager.antt =====
-- topic_manager.go: the options of a topic description. Put, List, Get and Delete stand in
-- the child Requests, and what is proved in Valid.
pub mod Requests
pub mod Valid
use azure_service_bus_go.Prelude.{
  Bool, true, false, ◌||◌, Option, none, some, String, if◌then◌else◌,
}
use azure_service_bus_go.Prelude.Int.{ℤ, pos, ltb_ℤ}
use azure_service_bus_go.Management.Duration.{
  IsoSeconds, duration_to_8601_seconds, five_minutes, or_default,
}
use azure_service_bus_go.Errors.{Error, plain}

-- The fields of TopicDescription that Put or an option writes. A nil pointer is `none`.
pub record TopicDescription : Type 0 where
  pub service_bus_schema : Option String
  pub default_message_time_to_live : Option IsoSeconds
  pub max_size_in_megabytes : Option ℤ
  pub requires_duplicate_detection : Option Bool
  pub duplicate_detection_history_time_window : Option IsoSeconds
  pub enable_batched_operations : Option Bool
  pub support_ordering : Option Bool
  pub auto_delete_on_idle : Option IsoSeconds
  pub enable_partitioning : Option Bool
  pub enable_express : Option Bool

-- new(TopicDescription)
abbrev pub new_description : TopicDescription
new_description = record {
  service_bus_schema = none;
  default_message_time_to_live = none;
  max_size_in_megabytes = none;
  requires_duplicate_detection = none;
  duplicate_detection_history_time_window = none;
  enable_batched_operations = none;
  support_ordering = none;
  auto_delete_on_idle = none;
  enable_partitioning = none;
  enable_express = none;
}

abbrev pub TopicManagementOption : Type 0
TopicManagementOption = TopicDescription → TopicDescription × Option Error

-- Between the bounds, the conversion to int32 keeps the value.
unfoldable pub topic_with_max_size_in_megabytes : ℤ → TopicManagementOption
topic_with_max_size_in_megabytes size d =
    if ltb_ℤ size (pos 1024) || ltb_ℤ (pos 5120) size
    then (
      d,
      some (plain "TopicWithMaxSizeInMegabytes: must be between 1 * Megabytes and 5 * Megabytes"),
    )
    else (record d { max_size_in_megabytes = some size }, none)

unfoldable pub topic_with_partitioning : TopicManagementOption
topic_with_partitioning d = (record d { enable_partitioning = some true }, none)

unfoldable pub topic_with_ordering : TopicManagementOption
topic_with_ordering d = (record d { support_ordering = some true }, none)

unfoldable pub topic_with_duplicate_detection : Option ℤ → TopicManagementOption
unfolding duration_to_8601_seconds
topic_with_duplicate_detection none d =
    (record d { requires_duplicate_detection = some true }, none)
topic_with_duplicate_detection (some window) d = (
  record d {
    requires_duplicate_detection = some true;
    duplicate_detection_history_time_window = some (duration_to_8601_seconds window);
  },
  none,
)

unfoldable pub topic_with_express : TopicManagementOption
topic_with_express d = (record d { enable_express = some true }, none)

unfoldable pub topic_with_batched_operations : TopicManagementOption
topic_with_batched_operations d = (record d { enable_batched_operations = some true }, none)

unfoldable pub topic_with_auto_delete_on_idle : Option ℤ → TopicManagementOption
unfolding duration_to_8601_seconds
topic_with_auto_delete_on_idle none d = (d, none)
topic_with_auto_delete_on_idle (some window) d =
    if ltb_ℤ window five_minutes
    then (d, some (plain "TopicWithAutoDeleteOnIdle: window must be greater than 5 minutes"))
    else (record d { auto_delete_on_idle = some (duration_to_8601_seconds window) }, none)

-- 14 days, if none is given
unfoldable pub topic_with_message_time_to_live : Option ℤ → TopicManagementOption
unfolding duration_to_8601_seconds
topic_with_message_time_to_live window d = (
  record d {
    default_message_time_to_live =
        some (duration_to_8601_seconds (or_default window 1_209_600_000_000_000));
  },
  none,
)
