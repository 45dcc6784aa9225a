-- ===== src/SubscriptionManager/Valid.antt =====
-- What the options of subscription_manager.go make of a description, whatever their arguments.
use azure_service_bus_go.Prelude.{
  ◌≡◌, ◌⊎◌, Option, none, some, List, String, map, arith, Bool-cases, inl, inr,
}
use azure_service_bus_go.Prelude.Int.{ℤ, ltb_ℤ}
use azure_service_bus_go.Errors.{Error, err}
use azure_service_bus_go.Management.{Web, Xml}
use azure_service_bus_go.Management.Entities.{put_entity}
use azure_service_bus_go.Management.Duration.{IsIdle, five_minutes, seconds-ge_300}
use azure_service_bus_go.Management.Options.{apply_management_options-kept, Stopped, Applied}
use azure_service_bus_go.QueueManager.Requests.{schema}
use azure_service_bus_go.SubscriptionManager.Requests.{put, SubscriptionManager, get_resource_uri}
use azure_service_bus_go.SubscriptionManager.{
  SubscriptionDescription, SubscriptionManagementOption, new_description,
  subscription_with_batched_operations, subscription_with_lock_duration,
  subscription_with_required_sessions, subscription_with_dead_lettering,
  subscription_with_auto_delete_on_idle, subscription_with_message_time_to_live,
}

-- The options that the package offers, with their arguments.
pub data SubscriptionSetting : Type 0 where
  batched_operations : SubscriptionSetting
  lock_for : Option ℤ → SubscriptionSetting
  required_sessions : SubscriptionSetting
  dead_lettering : SubscriptionSetting
  auto_delete : Option ℤ → SubscriptionSetting
  time_to_live : Option ℤ → SubscriptionSetting

abbrev pub option_of : SubscriptionSetting → SubscriptionManagementOption
option_of batched_operations = subscription_with_batched_operations
option_of (lock_for w) = subscription_with_lock_duration w
option_of required_sessions = subscription_with_required_sessions
option_of dead_lettering = subscription_with_dead_lettering
option_of (auto_delete w) = subscription_with_auto_delete_on_idle w
option_of (time_to_live w) = subscription_with_message_time_to_live w

abbrev pub IsValid : SubscriptionDescription → Type 0
IsValid d = IsIdle d.auto_delete_on_idle

auto_delete-IsValid :
    (w : Option ℤ) (d : SubscriptionDescription)
    → IsValid d
    → (subscription_with_auto_delete_on_idle w d).1 ≡ none
    → IsValid (subscription_with_auto_delete_on_idle w d).0
unfolding subscription_with_auto_delete_on_idle
auto_delete-IsValid none d v h = v
auto_delete-IsValid (some w) d v h = elim (Bool-cases (ltb_ℤ w five_minutes)) [
  | inl short ↦ absurd (ground arith)
  | inr long ↦ rw (long) (seconds-ge_300 w long)
]

option_of-IsValid :
    (s : SubscriptionSetting) (d : SubscriptionDescription)
    → IsValid d
    → (option_of s d).1 ≡ none
    → IsValid (option_of s d).0
unfolding subscription_with_batched_operations subscription_with_lock_duration
    subscription_with_required_sessions subscription_with_dead_lettering
    subscription_with_message_time_to_live
option_of-IsValid batched_operations d v h = v
option_of-IsValid (lock_for w) d v h = v
option_of-IsValid required_sessions d v h = v
option_of-IsValid dead_lettering d v h = v
option_of-IsValid (auto_delete w) d v h = auto_delete-IsValid w d v h
option_of-IsValid (time_to_live w) d v h = v

-- Whatever options of the package Put of a subscription is given, it sends nothing and returns
-- the error of the first that fails, or all succeed and it goes on, at the subscription's path under its topic, with a
-- description whose idle interval is unset or at least 300 seconds, under the schema of Service Bus.
pub put_subscription-IsValid :
    {S : Type 0} (web : Web S) (sm : SubscriptionManager) (xml : Xml SubscriptionDescription)
    (name : String) (l : List SubscriptionSetting) (s : S)
    → ((e : Error) × Stopped option_of l new_description e
        × (put web sm xml name (map option_of l) s ≡ (s, err e)))
      ⊎ ((d : SubscriptionDescription) × IsValid d
          × Applied option_of l new_description d
          × (put web sm xml name (map option_of l) s
              ≡ put_entity xml web sm.entity_manager
                  (get_resource_uri sm name)
                  (record d { service_bus_schema = some schema })
                  s))
unfolding put
put_subscription-IsValid web sm xml name l s =
    let kept =
      apply_management_options-kept option_of IsValid option_of-IsValid l new_description in
    elim (kept tt) [
      | inl (e, stopped, failed) ↦ inl (e, stopped, rw failed)
      | inr (d, valid, all, made) ↦ inr (d, valid, all, rw made)
    ]
