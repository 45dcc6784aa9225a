-- ===== src/Tracing.antt =====
-- tracing.go: the spans that the client starts, and what their tags say. A span is what the tracer
-- has been told of it; the tracer, the references that its options carry (`R`) and os.Hostname are
-- code of other packages. Where handleMessage of receiver.go and Execute of mgmt.go start and tag
-- their spans stands here too, and what is proved in the children.
pub mod Follow
pub mod Request
use azure_service_bus_go.Prelude.{
  ℕ, ◌%◌, ◌^◌, Bool, true, false, Option, none, some, List, [], ◌∷◌, ◌++◌, String,
}
use azure_service_bus_go.Amqp.{AmqpMessage}
use azure_service_bus_go.Amqp.Dynamic.{Value, str, uint}
use azure_service_bus_go.Errors.{Error, Answer, got, failed}
use azure_service_bus_go.Message.{Message}
use azure_service_bus_go.Sender.{Sender, get_full_identifier}
use azure_service_bus_go.Receiver.{Receiver}
use azure_service_bus_go.Receiver.Handle.{message_id}
use azure_service_bus_go.Management.{
  Web, Url, HttpRequest, HttpResponse, EntityManager, add_atom_xml_content_type, add_api_version,
  add_authorization, request_url,
}

pub data SpanKind : Type 0 where
  rpc_client producer consumer : SpanKind

-- The tags of the package ext, and tags under a name.
pub data Tag : Type 0 where
  component peer_hostname message_bus_destination http_url http_method : String → Tag
  span_kind : SpanKind → Tag
  http_status_code : ℕ → Tag
  named : String → Value → Tag

-- How a span starts: by StartSpanFromContext, or by StartSpan, and with which references.
pub record Span (R : Type 0) : Type 0 where
  pub operation_name : String
  pub from_context : Bool
  pub follows_from : List R
  pub tags : List Tag

unfoldable pub version : String
version = "0.1.0"

module _ {R : Type 0} where
  abbrev pub set_tag : Tag → Span R → Span R
  set_tag tag span = record span { tags = span.tags ++ (tag ∷ []) }

  abbrev pub start_from_context : String → Span R
  start_from_context operation_name = record {
    operation_name = operation_name;
    from_context = true;
    follows_from = [];
    tags = [];
  }

  abbrev pub start_span : String → List R → Span R
  start_span operation_name references = record {
    operation_name = operation_name;
    from_context = false;
    follows_from = references;
    tags = [];
  }

  unfoldable pub apply_network_info : Answer String → Span R → Span R
  apply_network_info (got hostname) span = set_tag (peer_hostname hostname) span
  apply_network_info (failed e) span = span

  -- `hostname` is what os.Hostname returns.
  unfoldable pub apply_component_info : Answer String → Span R → Span R
  unfolding apply_network_info version
  apply_component_info hostname span = apply_network_info hostname (
      set_tag (named "version" (str version))
        (set_tag (component "github.com/Azure/azure-service-bus-go") span))

  unfoldable pub apply_request_info : String → String → Span R → Span R
  apply_request_info url method span = set_tag (http_method method) (set_tag (http_url url) span)

  -- `uint16(res.StatusCode)`
  unfoldable pub apply_response_info : Option HttpResponse → Span R → Span R
  apply_response_info none span = span
  apply_response_info (some res) span = set_tag (http_status_code (res.status_code % 2 ^ 16)) span

  -- startSpanFromContext of a namespace; that of an entity does the same.
  unfoldable pub namespace_span : Answer String → String → Span R
  unfolding apply_component_info
  namespace_span hostname operation_name =
      apply_component_info hostname (start_from_context operation_name)

  unfoldable pub entity_span : Answer String → String → Span R
  unfolding apply_component_info
  entity_span hostname operation_name =
      apply_component_info hostname (start_from_context operation_name)

  set_group_id : Option String → Span R → Span R
  set_group_id none span = span
  set_group_id (some id) span = set_tag (named "amqp.message-group-id" (str id)) span

  set_group_sequence : Option ℕ → Span R → Span R
  set_group_sequence none span = span
  set_group_sequence (some n) span = set_tag (named "amqp.message-group-sequence" (uint n)) span

  -- startSpanFromContext of a message.
  unfoldable pub message_span : Answer String → Message → String → Span R
  unfolding apply_component_info set_group_id set_group_sequence
  message_span hostname m operation_name = set_group_sequence m.group_sequence (
      set_group_id m.group_id (
        set_tag (named "amqp.message-id" (str m.id))
          (apply_component_info hostname (start_from_context operation_name))))

  -- startSpanFromContext of an entity manager.
  unfoldable pub manager_span : Answer String → String → Span R
  unfolding apply_component_info
  manager_span hostname operation_name =
      set_tag (span_kind rpc_client)
        (apply_component_info hostname (start_from_context operation_name))

  unfoldable pub start_producer_span_from_context : Answer String → Sender → String → Span R
  unfolding apply_component_info get_full_identifier
  start_producer_span_from_context hostname s operation_name =
      set_tag (message_bus_destination (get_full_identifier s)) (
        set_tag (span_kind producer)
          (apply_component_info hostname (start_from_context operation_name)))

  -- The tags of both spans of a receiver.
  consumer_span : Answer String → Receiver → Span R → Span R
  unfolding apply_component_info
  consumer_span hostname r span =
      set_tag (message_bus_destination r.entity_path)
        (set_tag (span_kind consumer) (apply_component_info hostname span))

  unfoldable pub start_consumer_span_from_context : Answer String → Receiver → String → Span R
  unfolding consumer_span
  start_consumer_span_from_context hostname r operation_name =
      consumer_span hostname r (start_from_context operation_name)

  unfoldable pub start_consumer_span_from_wire :
      Answer String → Receiver → String → R → List R → Span R
  unfolding consumer_span
  start_consumer_span_from_wire hostname r operation_name reference opts =
      consumer_span hostname r (start_span operation_name (opts ++ (reference ∷ [])))

  -- The span in which handleMessage calls the handler. `wire_context` is what extractWireContext
  -- returns for the message.
  unfoldable pub handle_message_span : Answer String → Receiver → AmqpMessage → Answer R → Span R
  unfolding start_consumer_span_from_wire start_consumer_span_from_context message_id
  handle_message_span hostname r msg wire_context =
      set_tag (named "amqp.message-id" (message_id msg)) (elim wire_context [
        | got reference ↦
            start_consumer_span_from_wire hostname r "sb.receiver.handleMessage" reference []
        | failed e ↦ start_consumer_span_from_context hostname r "sb.receiver.handleMessage"
      ])

  module _ {S : Type 0} (web : Web S) where
    -- Execute, behind addAuthorization.
    unfoldable pub send_span : Answer HttpRequest → S → Span R → Span R
    unfolding apply_response_info
    send_span (failed e) s span = span
    send_span (got req) s span =
        let (s', res, e) = web.perform s req in apply_response_info res span

    -- The span of Execute as it is at the end.
    unfoldable pub execute_span :
        Answer String → EntityManager → String → String → Option String → S → Span R
    execute_span hostname em method entity_path body s =
        let span = manager_span hostname "sb.EntityManger.Execute" in
        elim (web.parse_url (request_url em entity_path)) [
          | failed e ↦ span
          | got url ↦
              let req = add_api_version (
                add_atom_xml_content_type
                  (record { method = method; url = url; headers = []; body = body })) in
              send_span (add_authorization web req) s
                (apply_request_info (web.url_text req.url) req.method span)
        ]
