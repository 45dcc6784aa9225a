-- ===== src/TopicManager/Requests.antt =====
-- NewTopicManager, Delete, Put, List and Get of topic_manager.go.
use Prim.Native.String.{◌++◌ as ◌<>◌}
use azure_service_bus_go.Prelude.{Option, some, List, String}
use azure_service_bus_go.Errors.{Exec, ok, err, panic, blocked}
use azure_service_bus_go.Management.{Web, Xml, EntityManager, new_entity_manager}
use azure_service_bus_go.Management.Entities.{
  Entity, put_entity, list_entities, get_entity, delete_entity,
}
use azure_service_bus_go.Namespace.{Namespace}
use azure_service_bus_go.Management.Options.{apply_management_options}
use azure_service_bus_go.QueueManager.Requests.{schema}
use azure_service_bus_go.TopicManager.{TopicDescription, TopicManagementOption, new_description}

unfoldable pub new_topic_manager : Namespace → EntityManager
unfolding new_entity_manager
new_topic_manager ns = new_entity_manager ns

module _ {S : Type 0} (web : Web S) (em : EntityManager) where
  unfoldable pub delete : String → S → S × Exec (Unit {0})
  unfolding delete_entity
  delete name s = delete_entity web em ("/" <> name) s

  module _ (xml : Xml TopicDescription) where
    -- Put behind the loop over the options.
    put_described : String → Exec TopicDescription → S → S × Exec (Entity TopicDescription)
    unfolding put_entity
    put_described name (ok d) s =
        put_entity xml web em ("/" <> name) (record d { service_bus_schema = some schema }) s
    put_described name (err e) s = (s, err e)
    put_described name (panic x) s = (s, panic x)
    put_described name blocked s = (s, blocked)

    unfoldable pub put :
        String → List TopicManagementOption → S → S × Exec (Entity TopicDescription)
    unfolding put_described apply_management_options
    put name options s = put_described name (apply_management_options options new_description) s

    unfoldable pub list : S → S × Exec (List (Entity TopicDescription))
    unfolding list_entities
    list s = list_entities xml web em ("/$Resources/Topics") s

    unfoldable pub get : String → S → S × Exec (Option (Entity TopicDescription))
    unfolding get_entity
    get name s = get_entity xml web em (name) s
