-- ===== src/SubscriptionManager/Requests.antt =====
-- The manager, getResourceURI, Delete, Put, List and Get of subscription_manager.go.
use Prim.Native.String.{◌++◌ as ◌<>◌}
use azure_service_bus_go.Prelude.{[], Option, some, List, String}
use azure_service_bus_go.Errors.{Exec, ok, err, panic, blocked, ◌>>=◌}
use azure_service_bus_go.Management.{Web, Xml, EntityManager, new_entity_manager}
use azure_service_bus_go.Management.Entities.{
  Entity, put_entity, list_entities, get_entity, delete_entity,
}
use azure_service_bus_go.Management.Options.{apply_management_options}
use azure_service_bus_go.QueueManager.Requests.{schema}
use azure_service_bus_go.Namespace.{Namespace}
use azure_service_bus_go.Topic.{new_topic}
use azure_service_bus_go.SubscriptionManager.{
  SubscriptionDescription, SubscriptionManagementOption, new_description,
}

-- The entity manager and the name of the topic.
pub record SubscriptionManager : Type 0 where
  pub entity_manager : EntityManager
  pub topic : String

-- Topic.NewSubscriptionManager, with the topic's namespace and name.
unfoldable pub new_subscription_manager : Namespace → String → SubscriptionManager
unfolding new_entity_manager
new_subscription_manager ns topic = record { entity_manager = new_entity_manager ns; topic = topic }

-- NewSubscriptionManager of a namespace: it makes the topic first.
unfoldable pub namespace_new_subscription_manager : Namespace → String → Exec SubscriptionManager
unfolding new_topic new_subscription_manager
namespace_new_subscription_manager ns topic_name = do
  t ← new_topic ns topic_name []
  ok (new_subscription_manager t.namespace t.name)

unfoldable pub get_resource_uri : SubscriptionManager → String → String
get_resource_uri sm name = "/" <> sm.topic <> "/subscriptions/" <> name

module _ {S : Type 0} (web : Web S) (sm : SubscriptionManager) where
  unfoldable pub delete : String → S → S × Exec (Unit {0})
  unfolding delete_entity get_resource_uri
  delete name s = delete_entity web sm.entity_manager (get_resource_uri sm name) s

  module _ (xml : Xml SubscriptionDescription) where
    -- Put behind the loop over the options.
    put_described :
        String → Exec SubscriptionDescription → S → S × Exec (Entity SubscriptionDescription)
    unfolding put_entity get_resource_uri
    put_described name (ok d) s =
        put_entity xml web sm.entity_manager (get_resource_uri sm name)
          (record d { service_bus_schema = some schema }) s
    put_described name (err e) s = (s, err e)
    put_described name (panic x) s = (s, panic x)
    put_described name blocked s = (s, blocked)

    unfoldable pub put :
        String → List SubscriptionManagementOption → S → S × Exec (Entity SubscriptionDescription)
    unfolding put_described apply_management_options
    put name options s = put_described name (apply_management_options options new_description) s

    unfoldable pub list : S → S × Exec (List (Entity SubscriptionDescription))
    unfolding list_entities
    list s = list_entities xml web sm.entity_manager ("/" <> sm.topic <> "/subscriptions") s

    unfoldable pub get : String → S → S × Exec (Option (Entity SubscriptionDescription))
    unfolding get_entity get_resource_uri
    get name s = get_entity xml web sm.entity_manager (get_resource_uri sm name) s
