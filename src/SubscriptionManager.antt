-- ===== src/SubscriptionManager.antt =====
-- subscription_manager.go: the options of a subscription description. Put, List, Get and Delete stand in
-- the child Requests, and what is proved in Valid.
pub mod Requests
pub mod Valid
use azure_service_bus_go.Prelude.{
  Bool, true, false, ◌||◌, Option, none, some, String, if◌then◌else◌,
}
use azure_service_bus_go.Prelude.Int.{ℤ, pos, ltb_ℤ}
use azure_service_bus_go.Management.Duration.{
  IsoSeconds, duration_to_8601_seconds, five_minutes, or_default,
}
use azure_service_bus_go.Errors.{Error, plain}

-- The fields of SubscriptionDescription that Put or an option writes. A nil pointer is `none`.
pub record SubscriptionDescription : Type 0 where
  pub service_bus_schema : Option String
  pub lock_duration : Option IsoSeconds
  pub requires_session : Option Bool
  pub default_message_time_to_live : Option IsoSeconds
  pub dead_lettering_on_message_expiration : Option Bool
  pub enable_batched_operations : Option Bool
  pub auto_delete_on_idle : Option IsoSeconds

-- new(SubscriptionDescription)
abbrev pub new_description : SubscriptionDescription
new_description = record {
  service_bus_schema = none;
  lock_duration = none;
  requires_session = none;
  default_message_time_to_live = none;
  dead_lettering_on_message_expiration = none;
  enable_batched_operations = none;
  auto_delete_on_idle = none;
}

abbrev pub SubscriptionManagementOption : Type 0
SubscriptionManagementOption = SubscriptionDescription → SubscriptionDescription × Option Error

unfoldable pub subscription_with_batched_operations : SubscriptionManagementOption
subscription_with_batched_operations d = (record d { enable_batched_operations = some true }, none)

-- One minute, if none is given
unfoldable pub subscription_with_lock_duration : Option ℤ → SubscriptionManagementOption
unfolding duration_to_8601_seconds
subscription_with_lock_duration window d = (
  record d { lock_duration = some (duration_to_8601_seconds (or_default window 60_000_000_000)) },
  none,
)

unfoldable pub subscription_with_required_sessions : SubscriptionManagementOption
subscription_with_required_sessions d = (record d { requires_session = some true }, none)

unfoldable pub subscription_with_dead_lettering : SubscriptionManagementOption
subscription_with_dead_lettering d =
    (record d { dead_lettering_on_message_expiration = some true }, none)

unfoldable pub subscription_with_auto_delete_on_idle : Option ℤ → SubscriptionManagementOption
unfolding duration_to_8601_seconds
subscription_with_auto_delete_on_idle none d = (d, none)
subscription_with_auto_delete_on_idle (some window) d =
    if ltb_ℤ window five_minutes
    then (d, some (plain "window must be greater than 5 minutes"))
    else (record d { auto_delete_on_idle = some (duration_to_8601_seconds window) }, none)

-- 14 days, if none is given
unfoldable pub subscription_with_message_time_to_live : Option ℤ → SubscriptionManagementOption
unfolding duration_to_8601_seconds
subscription_with_message_time_to_live window d = (
  record d {
    default_message_time_to_live =
        some (duration_to_8601_seconds (or_default window 1_209_600_000_000_000));
  },
  none,
)
