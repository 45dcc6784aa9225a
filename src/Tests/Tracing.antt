-- ===== src/Tests/Tracing.antt =====
-- tracing.go at concrete data.
use azure_service_bus_go.Prelude.{◌≡◌, ◌++◌, none, String}
use azure_service_bus_go.Errors.{got}
use azure_service_bus_go.Management.{request_url, execute}
use azure_service_bus_go.Tracing.{manager_span, execute_span}
use azure_service_bus_go.Tracing.Request.{url_tags, status_tags, execute_span-tags}
use azure_service_bus_go.Tests.Server.{web, em}

execute_span-tags_example :
    (execute_span {R = String} web (got "host") em "GET" "/q" none (none, none)).tags
    ≡ (manager_span {R = String} (got "host") "sb.EntityManger.Execute").tags
      ++ (url_tags web (web.parse_url (request_url em "/q")) "GET"
          ++ status_tags (execute web em "GET" "/q" none (none, none)).1)
execute_span-tags_example =
    execute_span-tags String web (got "host") em "GET" "/q" none (none, none)
