-- ===== src/TopicManager/Valid.antt =====
-- What the options of topic_manager.go make of a description, whatever their arguments.
use Prim.Native.String.{◌++◌ as ◌<>◌}
use azure_service_bus_go.Prelude.{
  ◌≡◌, ◌⊎◌, Option, none, some, List, String, map, arith, Bool-cases, inl, inr,
}
use azure_service_bus_go.Prelude.Int.{ℤ, pos, negsuc, ltb_ℤ}
use azure_service_bus_go.Errors.{Error, err}
use azure_service_bus_go.Management.{Web, Xml, EntityManager}
use azure_service_bus_go.Management.Entities.{put_entity}
use azure_service_bus_go.Management.Duration.{IsIdle, five_minutes, seconds-ge_300}
use azure_service_bus_go.Management.Options.{
  IsSize, apply_management_options-kept, Stopped, Applied,
}
use azure_service_bus_go.QueueManager.Requests.{schema}
use azure_service_bus_go.TopicManager.Requests.{put}
use azure_service_bus_go.TopicManager.{
  TopicDescription, TopicManagementOption, new_description, topic_with_max_size_in_megabytes,
  topic_with_partitioning, topic_with_ordering, topic_with_duplicate_detection, topic_with_express,
  topic_with_batched_operations, topic_with_auto_delete_on_idle, topic_with_message_time_to_live,
}

-- The options that the package offers, with their arguments.
pub data TopicSetting : Type 0 where
  max_size : ℤ → TopicSetting
  partitioning : TopicSetting
  ordering : TopicSetting
  duplicate_detection : Option ℤ → TopicSetting
  express : TopicSetting
  batched_operations : TopicSetting
  auto_delete : Option ℤ → TopicSetting
  time_to_live : Option ℤ → TopicSetting

abbrev pub option_of : TopicSetting → TopicManagementOption
option_of (max_size w) = topic_with_max_size_in_megabytes w
option_of partitioning = topic_with_partitioning
option_of ordering = topic_with_ordering
option_of (duplicate_detection w) = topic_with_duplicate_detection w
option_of express = topic_with_express
option_of batched_operations = topic_with_batched_operations
option_of (auto_delete w) = topic_with_auto_delete_on_idle w
option_of (time_to_live w) = topic_with_message_time_to_live w

abbrev pub IsValid : TopicDescription → Type 0
IsValid d = IsSize d.max_size_in_megabytes × IsIdle d.auto_delete_on_idle

max_size-IsValid :
    (n : ℤ) (d : TopicDescription)
    → IsValid d
    → (topic_with_max_size_in_megabytes n d).1 ≡ none
    → IsValid (topic_with_max_size_in_megabytes n d).0
unfolding topic_with_max_size_in_megabytes
max_size-IsValid (pos n) d v h = ground arith
max_size-IsValid (negsuc n) d v h = ground arith

auto_delete-IsValid :
    (w : Option ℤ) (d : TopicDescription)
    → IsValid d
    → (topic_with_auto_delete_on_idle w d).1 ≡ none
    → IsValid (topic_with_auto_delete_on_idle w d).0
unfolding topic_with_auto_delete_on_idle
auto_delete-IsValid none d v h = v
auto_delete-IsValid (some w) d v h = elim (Bool-cases (ltb_ℤ w five_minutes)) [
  | inl short ↦ absurd (ground arith)
  | inr long ↦ rw (long) (v.0, seconds-ge_300 w long)
]

option_of-IsValid :
    (s : TopicSetting) (d : TopicDescription)
    → IsValid d
    → (option_of s d).1 ≡ none
    → IsValid (option_of s d).0
unfolding topic_with_partitioning topic_with_ordering topic_with_duplicate_detection
    topic_with_express topic_with_batched_operations topic_with_message_time_to_live
option_of-IsValid (max_size n) d v h = max_size-IsValid n d v h
option_of-IsValid partitioning d v h = v
option_of-IsValid ordering d v h = v
option_of-IsValid (duplicate_detection none) d v h = v
option_of-IsValid (duplicate_detection (some w)) d v h = v
option_of-IsValid express d v h = v
option_of-IsValid batched_operations d v h = v
option_of-IsValid (auto_delete w) d v h = auto_delete-IsValid w d v h
option_of-IsValid (time_to_live w) d v h = v

-- Whatever options of the package Put of a topic is given, it sends nothing and returns the error
-- of the first that fails, or all succeed and it goes on with a description whose size is unset or between 1024 and 5120 and
-- whose idle interval is unset or at least 300 seconds, under the schema of Service Bus.
pub put_topic-IsValid :
    {S : Type 0} (web : Web S) (em : EntityManager) (xml : Xml TopicDescription) (name : String)
    (l : List TopicSetting) (s : S)
    → ((e : Error) × Stopped option_of l new_description e
        × (put web em xml name (map option_of l) s ≡ (s, err e)))
      ⊎ ((d : TopicDescription) × IsValid d
          × Applied option_of l new_description d
          × (put web em xml name (map option_of l) s
              ≡ put_entity xml web em
                  ("/" <> name)
                  (record d { service_bus_schema = some schema })
                  s))
unfolding put
put_topic-IsValid web em xml name l s =
    let kept =
      apply_management_options-kept option_of IsValid option_of-IsValid l new_description in
    elim (kept (tt, tt)) [
      | inl (e, stopped, failed) ↦ inl (e, stopped, rw failed)
      | inr (d, valid, all, made) ↦ inr (d, valid, all, rw made)
    ]
