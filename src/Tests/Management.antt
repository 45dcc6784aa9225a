-- ===== src/Tests/Management.antt =====
-- mgmt.go and the entity managers over the server of Tests.Server.
use azure_service_bus_go.Prelude.{◌≡◌, ◌⊎◌, refl, true, false, none, some, List, [], ◌∷◌}
use azure_service_bus_go.Errors.{Error, ok}
use azure_service_bus_go.Management.{Web, execute}
use azure_service_bus_go.Management.Entities.{get_entity, put_entity, list_entities, delete_entity}
use azure_service_bus_go.Management.Request.{Requested, Refused, execute_lem}
use azure_service_bus_go.Management.Store.{Store, Op, put, get, delete, update, entity}
use azure_service_bus_go.Management.Store
use azure_service_bus_go.Management.Refine.{run_refines}
use azure_service_bus_go.Management.Server.{run}
use azure_service_bus_go.Management.Status.{with_status, put_list_delete-with_status}
use azure_service_bus_go.Tests.Server.{
  Held, Switch, contents, filled, IsName, is_q, is_r, xml, web, em, serves,
}

abbrev ops : List (Op Switch)
ops = put "q" none ∷ put "r" (some false) ∷ get "q" ∷ delete "q" ∷ get "q" ∷ get "r" ∷ []

run_refines_example : run web xml em (none, none) ops ≡ Store.run filled (contents (none, none)) ops
unfolding run put_entity get_entity delete_entity Store.run
run_refines_example =
    run_refines web xml em contents filled IsName serves ops (none, none) (contents (none, none))
      (is_q, (is_r, (is_q, (is_q, (is_q, (is_r, tt)))))) (λ k. refl)

-- The switch "q" was put without a setting, and comes back turned on.
third_reply :
    Store.run filled (contents (none, none)) ops
    ≡ Store.of_put (ok (entity "q" (some true)))
      ∷ Store.of_put (ok (entity "r" (some false)))
      ∷ Store.of_get (ok (some (entity "q" (some true))))
      ∷ Store.of_delete (ok tt)
      ∷ Store.of_get (ok none)
      ∷ Store.of_get (ok (some (entity "r" (some false))))
      ∷ []
unfolding Store.run
third_reply = refl

execute_lem_example :
    ((e : Error) × Refused web em "PUT" "/q" (some "1") (none, none) e
      × (execute web em "PUT" "/q" (some "1") (none, none) ≡ ((none, none), none, some e)))
    ⊎ Requested web em "PUT" "/q" (some "1") (none, none)
execute_lem_example = execute_lem web em "PUT" "/q" (some "1") (none, none)

-- Every request is answered with the status 500.
abbrev web_500 : Web Held
web_500 = with_status (λ n. 500) web

put_list_delete-with_status_example :
    (put_entity xml web_500 em "/q" (some true) (none, none)
      ≡ put_entity xml web em "/q" (some true) (none, none))
    × (list_entities xml web_500 em "/q" (none, none) ≡ list_entities xml web em "/q" (none, none))
    × (delete_entity web_500 em "/q" (none, none) ≡ delete_entity web em "/q" (none, none))
put_list_delete-with_status_example =
    put_list_delete-with_status (λ n. 500) web em xml "/q" (some true) (none, none)
