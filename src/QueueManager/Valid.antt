-- ===== src/QueueManager/Valid.antt =====
-- What the options of queue_manager.go make of a description, whatever their arguments.
use Prim.Native.String.{◌++◌ as ◌<>◌}
use azure_service_bus_go.Prelude.{
  ◌≡◌, ◌⊎◌, Option, none, some, List, String, map, arith, Bool-cases, inl, inr,
}
use azure_service_bus_go.Prelude.Int.{ℤ, pos, negsuc, ltb_ℤ}
use azure_service_bus_go.Errors.{Error, err}
use azure_service_bus_go.Management.{Web, Xml, EntityManager}
use azure_service_bus_go.Management.Entities.{put_entity}
use azure_service_bus_go.Management.Duration.{IsIdle, five_minutes, seconds-ge_300}
use azure_service_bus_go.Management.Options.{
  IsSize, apply_management_options-kept, Stopped, Applied,
}
use azure_service_bus_go.QueueManager.Requests.{put, schema}
use azure_service_bus_go.QueueManager.{
  QueueDescription, QueueManagementOption, new_description, queue_entity_with_partitioning,
  queue_entity_with_max_size_in_megabytes, queue_entity_with_duplicate_detection,
  queue_entity_with_required_sessions, queue_entity_with_dead_lettering,
  queue_entity_with_auto_delete_on_idle, queue_entity_with_message_time_to_live,
  queue_entity_with_lock_duration, queue_entity_with_max_delivery_count,
}

-- The options that the package offers, with their arguments.
pub data QueueSetting : Type 0 where
  partitioning : QueueSetting
  max_size : ℤ → QueueSetting
  duplicate_detection : Option ℤ → QueueSetting
  required_sessions : QueueSetting
  dead_lettering : QueueSetting
  auto_delete : Option ℤ → QueueSetting
  time_to_live : Option ℤ → QueueSetting
  lock_for : Option ℤ → QueueSetting
  max_deliveries : ℤ → QueueSetting

abbrev pub option_of : QueueSetting → QueueManagementOption
option_of partitioning = queue_entity_with_partitioning
option_of (max_size n) = queue_entity_with_max_size_in_megabytes n
option_of (duplicate_detection w) = queue_entity_with_duplicate_detection w
option_of required_sessions = queue_entity_with_required_sessions
option_of dead_lettering = queue_entity_with_dead_lettering
option_of (auto_delete w) = queue_entity_with_auto_delete_on_idle w
option_of (time_to_live w) = queue_entity_with_message_time_to_live w
option_of (lock_for w) = queue_entity_with_lock_duration w
option_of (max_deliveries n) = queue_entity_with_max_delivery_count n

abbrev pub IsValid : QueueDescription → Type 0
IsValid q = IsSize q.max_size_in_megabytes × IsIdle q.auto_delete_on_idle

max_size-IsValid :
    (n : ℤ) (q : QueueDescription)
    → IsValid q
    → (queue_entity_with_max_size_in_megabytes n q).1 ≡ none
    → IsValid (queue_entity_with_max_size_in_megabytes n q).0
unfolding queue_entity_with_max_size_in_megabytes
max_size-IsValid (pos n) q v h = ground arith
max_size-IsValid (negsuc n) q v h = ground arith

auto_delete-IsValid :
    (w : Option ℤ) (q : QueueDescription)
    → IsValid q
    → (queue_entity_with_auto_delete_on_idle w q).1 ≡ none
    → IsValid (queue_entity_with_auto_delete_on_idle w q).0
unfolding queue_entity_with_auto_delete_on_idle
auto_delete-IsValid none q v h = v
auto_delete-IsValid (some w) q v h = elim (Bool-cases (ltb_ℤ w five_minutes)) [
  | inl short ↦ absurd (ground arith)
  | inr long ↦ rw (long) (v.0, seconds-ge_300 w long)
]

option_of-IsValid :
    (s : QueueSetting) (q : QueueDescription)
    → IsValid q
    → (option_of s q).1 ≡ none
    → IsValid (option_of s q).0
unfolding queue_entity_with_partitioning queue_entity_with_duplicate_detection
    queue_entity_with_required_sessions queue_entity_with_dead_lettering
    queue_entity_with_message_time_to_live queue_entity_with_lock_duration
    queue_entity_with_max_delivery_count
option_of-IsValid partitioning q v h = v
option_of-IsValid (max_size n) q v h = max_size-IsValid n q v h
option_of-IsValid (duplicate_detection none) q v h = v
option_of-IsValid (duplicate_detection (some w)) q v h = v
option_of-IsValid required_sessions q v h = v
option_of-IsValid dead_lettering q v h = v
option_of-IsValid (auto_delete w) q v h = auto_delete-IsValid w q v h
option_of-IsValid (time_to_live w) q v h = v
option_of-IsValid (lock_for w) q v h = v
option_of-IsValid (max_deliveries n) q v h = v

-- Whatever options of the package Put is given, it sends nothing and returns the error of the first
-- of them that fails, on what those before it have made of the description; or all of them succeed,
-- in their order, and it goes on with the description that they make and the schema of Service Bus,
-- whose size is unset or between 1024 and 5120 and whose idle interval is unset or at least 300
-- seconds.
pub put_queue-IsValid :
    {S : Type 0} (web : Web S) (em : EntityManager) (xml : Xml QueueDescription) (name : String)
    (l : List QueueSetting) (s : S)
    → ((e : Error) × Stopped option_of l new_description e
        × (put web em xml name (map option_of l) s ≡ (s, err e)))
      ⊎ ((q : QueueDescription) × IsValid q
          × Applied option_of l new_description q
          × (put web em xml name (map option_of l) s
              ≡ put_entity xml web em
                  ("/" <> name)
                  (record q { service_bus_schema = some schema })
                  s))
unfolding put
put_queue-IsValid web em xml name l s =
    let kept =
      apply_management_options-kept option_of IsValid option_of-IsValid l new_description in
    elim (kept (tt, tt)) [
      | inl (e, stopped, failed) ↦ inl (e, stopped, rw failed)
      | inr (q, valid, all, made) ↦ inr (q, valid, all, rw made)
    ]
