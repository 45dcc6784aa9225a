-- ===== src/Tests/Managers.antt =====
-- Put of queue_manager.go, topic_manager.go and subscription_manager.go at concrete data.
use Prim.Native.String.{◌++◌ as ◌<>◌}
use azure_service_bus_go.Prelude.{◌≡◌, ◌⊎◌, none, some, List, [], ◌∷◌, map}
use azure_service_bus_go.Prelude.Int.{pos}
use azure_service_bus_go.Errors.{Error, err, got, failed, foreign}
use azure_service_bus_go.Management.{Web, Xml, EntityManager}
use azure_service_bus_go.Management.Entities.{put_entity}
use azure_service_bus_go.QueueManager.{QueueDescription, new_description}
use azure_service_bus_go.Management.Options.{Stopped, Applied}
use azure_service_bus_go.QueueManager.Requests as QueueRequests
use azure_service_bus_go.QueueManager.Valid as QueueValid
use azure_service_bus_go.QueueManager.Valid.{put_queue-IsValid}
use azure_service_bus_go.TopicManager.Valid as TopicValid
use azure_service_bus_go.TopicManager.Valid.{put_topic-IsValid}
use azure_service_bus_go.SubscriptionManager.Requests as SubscriptionRequests
use azure_service_bus_go.SubscriptionManager.Valid as SubscriptionValid
use azure_service_bus_go.SubscriptionManager.Valid.{put_subscription-IsValid}

-- A server that answers every request alike.
abbrev web : Web (Unit {0})
web = record {
  parse_url = λ t. got (record { base = t; query = [] });
  url_text = λ u. u.base;
  get_token = λ t. got "token";
  perform = λ s req. (s, some (record { status_code = 201; body = got "entry" }), none);
}

abbrev xml : {D : Type 0} → Xml D
xml = record {
  header = "";
  marshal = λ e. got "entry";
  unmarshal_entry = λ t. failed (foreign "EOF");
  unmarshal_feed = λ t. failed (foreign "EOF");
  unmarshal_queue_feed = λ t. failed (foreign "EOF");
  unmarshal_error = λ t. failed (foreign "EOF");
}

abbrev em : EntityManager
em = record { host = "https://n.servicebus.windows.net/" }

abbrev queue_settings : List QueueValid.QueueSetting
queue_settings =
    QueueValid.max_size (pos 2048) ∷ QueueValid.auto_delete (some (pos 600_000_000_000)) ∷ []

put_queue-IsValid_example :
    ((e : Error) × Stopped QueueValid.option_of queue_settings new_description e
      × (QueueRequests.put web em xml "q" (map QueueValid.option_of queue_settings) tt
          ≡ (tt, err e)))
    ⊎ ((q : QueueDescription) × QueueValid.IsValid q
        × Applied QueueValid.option_of queue_settings new_description q
        × (QueueRequests.put web em xml "q" (map QueueValid.option_of queue_settings) tt
            ≡ put_entity xml web em
                ("/" <> "q")
                (record q { service_bus_schema = some QueueRequests.schema })
                tt))
put_queue-IsValid_example = put_queue-IsValid web em xml "q" queue_settings tt

abbrev topic_settings : List TopicValid.TopicSetting
topic_settings = TopicValid.max_size (pos 4096) ∷ TopicValid.ordering ∷ []

abbrev manager : SubscriptionRequests.SubscriptionManager
manager = record { entity_manager = em; topic = "t" }

abbrev subscription_settings : List SubscriptionValid.SubscriptionSetting
subscription_settings = SubscriptionValid.auto_delete (some (pos 1)) ∷ []
